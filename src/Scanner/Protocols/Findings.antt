-- ===== src/Scanner/Protocols/Findings.antt =====
-- What the protocol scanner can report (backend/scanner/protocols.go).
use seagles.Common.{
  ℕ, ◌≡◌, refl, inl, inr, Bool, true, false, ◌||◌, Option, none, some, List, [], ◌∷◌, ◌++◌,
  if◌then◌else◌, Bool-cases, All, take,
}
use seagles.Text.{Text, codes, text_eq}
use seagles.Scanner.Protocols.{
  ProtocolFinding, Peer, port_set, or_nothing, telnet_banner, mqtt_answer, mqtt_connect,
  modbus_answer, modbus_request, rtsp_answer, detect_telnet, detect_adb, detect_mqtt, detect_modbus,
  detect_rtsp, detect_tls, detect_protocols,
}

pub data Kind : Type 0 where
  telnet adb mqtt modbus rtsp tls : Kind

abbrev pub name : Kind → Text
name telnet = codes "Telnet"
name adb = codes "ADB"
name mqtt = codes "MQTT-plaintext"
name modbus = codes "Modbus"
name rtsp = codes "RTSP-unauth"
name tls = codes "TLS-service"

abbrev pub severity : Kind → Text
severity telnet = codes "critical"
severity adb = codes "critical"
severity mqtt = codes "high"
severity modbus = codes "critical"
severity rtsp = codes "high"
severity tls = codes "medium"

-- A finding of a kind on a port, with the severity of the kind.
abbrev pub Of : Kind → ℕ → ProtocolFinding → Type 0
Of k port f = (f.protocol ≡ name k) × (f.risk ≡ severity k) × (f.port ≡ port)

abbrev Gives : (ProtocolFinding → Type 0) → Option ProtocolFinding → Type 0
Gives P none = Unit {0}
Gives P (some f) = P f

if-Gives :
    (P : ProtocolFinding → Type 0) (b : Bool) (f : ProtocolFinding)
    → P f
    → Gives P (if b then some f else none)
if-Gives P true f p = p
if-Gives P false f p = tt

banner-Of : (port : ℕ) (s : Text) → Gives (Of telnet port) (telnet_banner port s)
banner-Of port [] = (refl, refl, refl)
banner-Of port (c ∷ s) = if-Gives (Of telnet port) _ _ (refl, refl, refl)

telnet-Of : (port : ℕ) (o : Option Peer) → Gives (Of telnet port) (detect_telnet port o)
unfolding detect_telnet
telnet-Of port none = tt
telnet-Of port (some peer) = banner-Of port (take 1024 peer.greeting)

adb-Of : (port : ℕ) (o : Option Peer) → Gives (Of adb port) (detect_adb port o)
unfolding detect_adb
adb-Of port none = tt
adb-Of port (some peer) = (refl, refl, refl)

connack-Of : (port : ℕ) (s : Text) → Gives (Of mqtt port) (mqtt_answer port s)
connack-Of port [] = tt
connack-Of port (c ∷ s) = if-Gives (Of mqtt port) _ _ (refl, refl, refl)

mqtt-Of : (port : ℕ) (o : Option Peer) → Gives (Of mqtt port) (detect_mqtt port o)
unfolding detect_mqtt
mqtt-Of port none = tt
mqtt-Of port (some peer) = connack-Of port (take 4 (peer.answer mqtt_connect))

response-Of : (port : ℕ) (s : Text) → Gives (Of modbus port) (modbus_answer port s)
response-Of port [] = tt
response-Of port (c ∷ s) = (refl, refl, refl)

modbus-Of : (port : ℕ) (o : Option Peer) → Gives (Of modbus port) (detect_modbus port o)
unfolding detect_modbus
modbus-Of port none = tt
modbus-Of port (some peer) = response-Of port (take 256 (peer.answer modbus_request))

options-Of : (port : ℕ) (s : Text) → Gives (Of rtsp port) (rtsp_answer port s)
options-Of port [] = tt
options-Of port (c ∷ s) = if-Gives (Of rtsp port) _ _ (refl, refl, refl)

rtsp-Of : (ip : Text) (port : ℕ) (o : Option Peer) → Gives (Of rtsp port) (detect_rtsp ip port o)
unfolding detect_rtsp
rtsp-Of ip port none = tt
rtsp-Of ip port (some peer) = options-Of port (take 1024 (peer.answer _))

-- A finding of some kind on an open port.
abbrev pub Sound : List ℕ → ProtocolFinding → Type 0
Sound open_ports f = (k : Kind) × (port : ℕ) × (port_set open_ports port ≡ true) × Of k port f

tls-Sound : (ports : List ℕ) → Gives (Sound ports) (detect_tls (port_set ports))
unfolding detect_tls
tls-Sound ports = elim (Bool-cases (port_set ports 8443)) [
  | inl e ↦ rw (detect_tls, e) (tls, 8443, e, (refl, refl, refl))
  | inr e ↦ elim (Bool-cases (port_set ports 8883)) [
    | inl g ↦ rw (detect_tls, e, g) (tls, 8883, g, (refl, refl, refl))
    | inr g ↦ rw (detect_tls, e, g) tt
  ]
]

append-All :
    (P : ProtocolFinding → Type 0) (xs ys : List ProtocolFinding)
    → All P xs
    → All P ys
    → All P (xs ++ ys)
append-All P [] ys h k = k
append-All P (x ∷ xs) ys h k = (h.0, append-All P xs ys h.1 k)

if_given :
    (P : ProtocolFinding → Type 0) (b : Bool) (o : Option ProtocolFinding)
    → (b ≡ true → Gives P o)
    → All P (or_nothing b o)
if_given P true none h = tt
if_given P true (some f) h = (h refl, tt)
if_given P false none h = tt
if_given P false (some f) h = tt

on_port :
    (ports : List ℕ) (k : Kind) (port : ℕ) (o : Option ProtocolFinding)
    → Gives (Of k port) o
    → All (Sound ports) (or_nothing (port_set ports port) o)
on_port ports k port none h = if_given (Sound ports) (port_set ports port) none (λ e. tt)
on_port ports k port (some f) h =
    if_given (Sound ports) (port_set ports port) (some f) (λ e. (k, port, e, h))

-- Every finding is of one of six kinds, with the severity of its kind, and names a port that was
-- open.
pub detect_protocols-Sound :
    (dial : ℕ → Option Peer) (ip : Text) (ports : List ℕ)
    → All (Sound ports) (detect_protocols dial ip ports)
unfolding detect_protocols
detect_protocols-Sound dial ip ports =
    append-All (Sound ports) (or_nothing (port_set ports 23) (detect_telnet 23 (dial 23))) _
      (on_port ports telnet 23 _ (telnet-Of 23 (dial 23)))
      (append-All (Sound ports) (or_nothing (port_set ports 5555) (detect_adb 5555 (dial 5555))) _
        (on_port ports adb 5555 _ (adb-Of 5555 (dial 5555)))
        (append-All (Sound ports) (or_nothing (port_set ports 1883) (detect_mqtt 1883 (dial 1883)))
          _ (on_port ports mqtt 1883 _ (mqtt-Of 1883 (dial 1883)))
          (append-All (Sound ports) (or_nothing (port_set ports 502) (detect_modbus 502 (dial 502)))
            _ (on_port ports modbus 502 _ (modbus-Of 502 (dial 502)))
            (append-All (Sound ports)
              (or_nothing (port_set ports 554) (detect_rtsp ip 554 (dial 554))) _
              (on_port ports rtsp 554 _ (rtsp-Of ip 554 (dial 554)))
              (if_given (Sound ports) (port_set ports 8443 || port_set ports 8883)
                (detect_tls (port_set ports)) (λ e. tls-Sound ports))))))
