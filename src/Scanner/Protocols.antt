-- ===== src/Scanner/Protocols.antt =====
-- backend/scanner/protocols.go. The network is an argument: `dial` gives, for a port that accepts a
-- connection, what is read from it first and what it answers to a request. An answer is empty where
-- writing or reading fails.
pub mod Findings
use seagles.Common.{
  ℕ, zero, suc, ◌+◌, ◌/◌, ◌%◌, Bool, true, false, not, ◌&&◌, ◌||◌, Option, none, some, List, [],
  ◌∷◌, ◌++◌, ltb, leb, nat_beq, ◌==◌, if◌then◌else◌, length, take, any,
}
use seagles.Text.{Text, codes, text_eq, contains, to_lower, trim_space}

pub record ProtocolFinding : Type 0 where
  pub protocol : Text
  pub port : ℕ
  pub risk : Text
  pub description : Text
  pub evidence : Text

pub record Peer : Type 0 where
  pub greeting : Text
  pub answer : Text → Text

-- strconv.Itoa for numbers of at most 20 digits, as every `int` has.
unfoldable pub itoa_loop : ℕ → ℕ → Text → Text
itoa_loop zero n digits = digits
itoa_loop (suc left) n digits =
    let more = itoa_loop left (n / 10) ((b'0' + n % 10) ∷ digits) in
    if ltb n 10 then (b'0' + n) ∷ digits else more

unfoldable pub itoa : ℕ → Text
unfolding itoa_loop
itoa n = itoa_loop 20 n []

abbrev pub crlf : Text
crlf = 13 ∷ 10 ∷ []

abbrev is_login_prompt : Text → Bool
is_login_prompt banner =
    contains (to_lower banner) (codes "login")
    || (contains (to_lower banner) (codes "telnet")
        || contains (to_lower banner) (codes "username"))

abbrev telnet_finding : ℕ → Text → ProtocolFinding
telnet_finding port evidence = record {
  protocol = codes "Telnet";
  port = port;
  risk = codes "critical";
  description = codes "Telnet exposes credentials in plaintext";
  evidence = evidence;
}

-- Each detector on what it has read.
abbrev pub telnet_banner : ℕ → Text → Option ProtocolFinding
telnet_banner port [] = some (telnet_finding port (codes "TCP connection accepted"))
telnet_banner port (c ∷ s) =
    if is_login_prompt (c ∷ s)
    then some (telnet_finding port (codes "Banner: " ++ trim_space (c ∷ s)))
    else none

unfoldable pub detect_telnet : ℕ → Option Peer → Option ProtocolFinding
detect_telnet port none = none
detect_telnet port (some peer) = telnet_banner port (take 1024 peer.greeting)

unfoldable pub detect_adb : ℕ → Option Peer → Option ProtocolFinding
detect_adb port none = none
detect_adb port (some peer) = some (record {
  protocol = codes "ADB";
  port = port;
  risk = codes "critical";
  description = codes "Android Debug Bridge exposed - BadBox 2.0 indicator";
  evidence =
      if take 4 peer.greeting == codes "CNXN"
      then codes "ADB CNXN banner detected"
      else codes "TCP connection accepted on ADB port";
})

abbrev pub mqtt_connect : Text
mqtt_connect = 16 ∷ 13 ∷ 0 ∷ 4 ∷ 77 ∷ 81 ∷ 84 ∷ 84 ∷ 4 ∷ 2 ∷ 0 ∷ 60 ∷ 0 ∷ 1 ∷ 0 ∷ []

abbrev pub mqtt_answer : ℕ → Text → Option ProtocolFinding
mqtt_answer port [] = none
mqtt_answer port (c ∷ s) =
    if nat_beq c 32
    then some (record {
      protocol = codes "MQTT-plaintext";
      port = port;
      risk = codes "high";
      description = codes "MQTT broker without TLS - credentials transmitted in cleartext";
      evidence = codes "CONNACK response received on plaintext port";
    })
    else none

unfoldable pub detect_mqtt : ℕ → Option Peer → Option ProtocolFinding
detect_mqtt port none = none
detect_mqtt port (some peer) = mqtt_answer port (take 4 (peer.answer mqtt_connect))

abbrev pub modbus_request : Text
modbus_request = 0 ∷ 1 ∷ 0 ∷ 0 ∷ 0 ∷ 6 ∷ 1 ∷ 17 ∷ 0 ∷ 0 ∷ 0 ∷ 0 ∷ []

abbrev pub modbus_answer : ℕ → Text → Option ProtocolFinding
modbus_answer port [] = none
modbus_answer port (c ∷ s) = some (record {
  protocol = codes "Modbus";
  port = port;
  risk = codes "critical";
  description = codes "Industrial Modbus protocol detected - no authentication by design";
  evidence = codes "Received " ++ (itoa (length (c ∷ s)) ++ codes " byte response to Modbus query");
})

unfoldable pub detect_modbus : ℕ → Option Peer → Option ProtocolFinding
detect_modbus port none = none
detect_modbus port (some peer) = modbus_answer port (take 256 (peer.answer modbus_request))

abbrev rtsp_request : Text → ℕ → Text
rtsp_request ip port =
    codes "OPTIONS rtsp://"
    ++ (ip
        ++ (codes ":"
            ++ (itoa port
                ++ (codes "/ RTSP/1.0" ++ (crlf ++ (codes "CSeq: 1" ++ (crlf ++ crlf)))))))

abbrev pub rtsp_answer : ℕ → Text → Option ProtocolFinding
rtsp_answer port [] = none
rtsp_answer port (c ∷ s) =
    if contains (c ∷ s) (codes "200 OK") && not (contains (c ∷ s) (codes "401"))
    then some (record {
      protocol = codes "RTSP-unauth";
      port = port;
      risk = codes "high";
      description = codes "Camera stream accessible without authentication";
      evidence = codes "RTSP OPTIONS returned 200 OK without authentication challenge";
    })
    else none

unfoldable pub detect_rtsp : Text → ℕ → Option Peer → Option ProtocolFinding
detect_rtsp ip port none = none
detect_rtsp ip port (some peer) = rtsp_answer port (take 1024 (peer.answer (rtsp_request ip port)))

abbrev pub tls_finding : ℕ → ProtocolFinding
tls_finding p = record {
  protocol = codes "TLS-service";
  port = p;
  risk = codes "medium";
  description =
      codes "TLS service on port " ++ (itoa p ++ codes " - verify certificate and cipher strength");
  evidence = codes "Port " ++ (itoa p ++ codes " is open");
}

abbrev pub port_set : List ℕ → ℕ → Bool
port_set open_ports p = any (λ q. nat_beq q p) open_ports

unfoldable pub detect_tls : (ℕ → Bool) → Option ProtocolFinding
detect_tls ports =
    if ports 8443
    then some (tls_finding 8443)
    else (if ports 8883 then some (tls_finding 8883) else none)

abbrev pub or_nothing : Bool → Option ProtocolFinding → List ProtocolFinding
or_nothing true (some f) = f ∷ []
or_nothing _ _ = []

unfoldable pub detect_protocols : (ℕ → Option Peer) → Text → List ℕ → List ProtocolFinding
unfolding detect_telnet detect_adb detect_mqtt detect_modbus detect_rtsp detect_tls
detect_protocols dial ip open_ports =
    let ports = port_set open_ports in
    or_nothing (ports 23) (detect_telnet 23 (dial 23))
    ++ (or_nothing (ports 5555) (detect_adb 5555 (dial 5555))
        ++ (or_nothing (ports 1883) (detect_mqtt 1883 (dial 1883))
            ++ (or_nothing (ports 502) (detect_modbus 502 (dial 502))
                ++ (or_nothing (ports 554) (detect_rtsp ip 554 (dial 554))
                    ++ or_nothing (ports 8443 || ports 8883) (detect_tls ports)))))
