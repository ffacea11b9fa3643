-- ===== src/Tests/Scans.antt =====
-- The scan of a device with a default password, and a scan of the network.
use seagles.Common.{
  ℕ, ◌+◌, ◌≡◌, refl, Bool, true, false, not, ◌&&◌, ◌||◌, Option, none, some, List, [], ◌∷◌, ◌==◌,
  if◌then◌else◌, any, All, map,
}
use seagles.Common.Int.{pos}
use seagles.Dict.{lookup, applied, is_some}
use seagles.Text.{Text, codes, text_eq, contains, to_lower}
use seagles.Risk.{Evidence, build_risk_factors}
use seagles.Safelists as L
use seagles.Safelists.Protects as P
use seagles.Scanner.Credentials.{Credential, test_ssh_creds, test_http_basic_creds, try_all, limit}
use seagles.Scanner.Nmap as N
use seagles.Scanner.Nmap.{NmapHost, deep_scan}
use seagles.Scanner.Protocols.{Peer, detect_protocols}
use seagles.Scanner.Protocols.Findings.{Sound, detect_protocols-Sound}
use seagles.Scans.{Db, Statements, Target, exposure_title, default_credentials}
use seagles.Scans.Device.{Surroundings, run_device_scan, run_credential_tests}
use seagles.Scans.Terminal.{ended, run_device_scan_ends}
use seagles.Scans.Reports.{all_tried, ssh_result, found_credentials_recorded}
use seagles.Scans.Flags.{found, flags_of_findings}
use seagles.Scans.Network as W
use seagles.Scans.Network.{network_scan}
use seagles.Scans.Network.Seen.{network_scan_complete}
use mathlib.Core.List.{Mem}

-- A camera that talks telnet, and whose SSH server answers as it is told. The state counts the
-- attempts.
abbrev peer : Peer
peer = record { greeting = codes "cam login:"; answer = λ request. [] }

abbrev service : N.Service
service = record { name = []; version = []; banner = [] }

abbrev open_port : ℕ → N.NmapPort
open_port n = record {
  port_id = n;
  protocol = codes "tcp";
  state = codes "open";
  service = service;
}

abbrev host : NmapHost
host = record {
  addresses = [];
  hostnames = codes "cam" ∷ [];
  ports = open_port 22 ∷ open_port 23 ∷ [];
  os_matches = [];
  status = codes "up";
}

abbrev evidence : Evidence
evidence = record {
  titles = [];
  titles_error = false;
  known_cves = 0;
  kev_matches = 0;
  entropy = none;
  last_scan = none;
}

abbrev camera : Option Text → Surroundings ℕ
camera answer = record {
  parse_ip = λ ip. true;
  nmap = λ ip. some (codes "<xml>", host ∷ []);
  dial = λ port. some peer;
  tls = record {
    supports_tls10 = false;
    supports_tls11 = false;
    supports_tls12 = false;
    supports_tls13 = false;
    weak_ciphers = [];
    cert_expired = false;
  };
  credentials = some (record { username = codes "admin"; password = codes "admin" } ∷ []);
  ssh = λ c n. (n + 1, answer);
  http = λ c n. (n, none);
  telnet = λ c n. (n, none);
  marshal = λ user method. user;
  evidence = evidence;
  completed = 90;
  scored = 91;
}

abbrev statements : Statements
statements = record {
  insert_fails = λ v. false;
  update_fails = false;
  alert_faults = λ r. record { count = false; insert = false };
  alert_time = λ r. 80;
}

abbrev target : Target
target = record { device_id = codes "d"; scan_id = codes "s"; ip = codes "10.0.0.9" }

abbrev db : Db
db = record {
  scans =
      (
        codes "s",
        record {
          device_id = codes "d";
          status = codes "running";
          scan_type = codes "full";
          completed_at = none;
          open_ports = none;
          services = none;
        },
      )
      ∷ [];
  devices = [];
  vulnerabilities = [];
  alerts = [];
}

abbrev pair : List Credential
pair = record { username = codes "admin"; password = codes "admin" } ∷ []

run_device_scan_ends_example :
    lookup (codes "s") (run_device_scan (camera none) statements false target (0, db)).1.scans ≡ (
      if codes "s" == codes "s"
      then applied
          (ended
            (camera none)
            statements
            target
            false
            (deep_scan (λ ip. true) (λ ip. some (codes "<xml>", host ∷ [])) (codes "10.0.0.9")))
          (lookup (codes "s") db.scans)
      else lookup (codes "s") db.scans)
run_device_scan_ends_example =
    run_device_scan_ends (camera none) statements target false 0 db (codes "s") refl

-- The one network that is asked for.
abbrev in_network : Text → Text → Bool
in_network ip net = net == codes "10.0.0.0/24"

abbrev protect : L.CreateSafelistRequest
protect = record { entry_type = codes "cidr"; value = codes "10.0.0.0/24"; reason = [] }

abbrev later : List P.Op
later = P.creates (some protect) none (some (codes "e2")) ∷ P.deletes false (codes "e2") ∷ []

-- A camera that locks SSH and lets the pair in over HTTP.
abbrev locked : Surroundings ℕ
locked = record (camera (some (codes "too many"))) { http = λ c n. (n + 1, some (200, [])) }

-- Two attempts are made, and the second one gets in.
locked_run : all_tried locked target (22 ∷ 80 ∷ []) pair 0 ≡ 2
unfolding test_ssh_creds test_http_basic_creds limit contains try_all to_lower
locked_run = refl

http_found :
    (test_http_basic_creds (codes "http://10.0.0.9:80/") pair (pos 50) locked.http 1).1.found ≡ true
unfolding test_http_basic_creds limit try_all contains to_lower
http_found = refl

found_credentials_recorded_example :
    Mem
      (default_credentials target (ssh_result (camera none) target pair 0))
      (run_credential_tests
        (camera none)
        statements
        target
        (22 ∷ 23 ∷ [])
        pair
        (0, db)).1.vulnerabilities
unfolding test_ssh_creds limit try_all
found_credentials_recorded_example =
    found_credentials_recorded (camera none) target statements (22 ∷ 23 ∷ []) pair 0 db refl refl
      refl

abbrev dial : ℕ → Option Peer
dial port = some peer

abbrev ports : List ℕ
ports = 23 ∷ 8443 ∷ []

abbrev scanned : Evidence
scanned = record {
  titles = map exposure_title (detect_protocols dial (codes "10.0.0.9") ports);
  titles_error = false;
  known_cves = 0;
  kev_matches = 0;
  entropy = none;
  last_scan = none;
}

flags_of_findings_example :
    let fs = detect_protocols dial (codes "10.0.0.9") ports in
    let f = (build_risk_factors 0 scanned).0 in
    (f.has_telnet ≡ found (codes "Telnet") fs)
    × (f.has_adb ≡ found (codes "ADB") fs)
    × (f.has_modbus ≡ found (codes "Modbus") fs)
    × (f.has_unauth_rtsp ≡ found (codes "RTSP-unauth") fs)
    × (f.has_plaintext_mqtt ≡ found (codes "MQTT-plaintext") fs)
    × (f.has_http_mgmt ≡ false)
    × (f.has_default_creds ≡ false)
    × (f.has_weak_tls ≡ found (codes "TLS-service") fs)
flags_of_findings_example = flags_of_findings dial (codes "10.0.0.9") ports 0 scanned refl

detect_protocols-Sound_example : All (Sound ports) (detect_protocols dial (codes "10.0.0.9") ports)
detect_protocols-Sound_example = detect_protocols-Sound dial (codes "10.0.0.9") ports

abbrev answers : W.Statements
answers = record {
  select_fails = λ ip. false;
  update_fails = λ ip. false;
  new_id = λ ip. some ip;
  alert_faults = λ ip. record { count = false; insert = false };
  now = λ ip. 70;
}

abbrev known : W.Inventory
known = record {
  devices = (codes "10.0.0.1", record { id = codes "d1"; last_seen = 5 }) ∷ [];
  alerts = [];
}

abbrev hosts : List Text
hosts = codes "10.0.0.1" ∷ codes "10.0.0.2" ∷ codes "10.0.0.9" ∷ []

network_scan_complete_example :
    is_some (
      lookup
        (codes "10.0.0.2")
        (network_scan answers (λ ip. ip == codes "10.0.0.9") (some hosts) known).devices)
    ≡ (is_some (lookup (codes "10.0.0.2") known.devices)
        || any (λ ip. ip == codes "10.0.0.2" && not (ip == codes "10.0.0.9")) hosts)
network_scan_complete_example =
    network_scan_complete answers (λ ip. ip == codes "10.0.0.9") hosts (codes "10.0.0.2") known
      (λ ip. refl, λ ip. refl, λ ip. refl)
