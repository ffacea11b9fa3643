-- ===== src/Scans.antt =====
-- backend/api/scans.go: the scan of one device. The network, nmap and the credential file are
-- arguments (`Surroundings`), and so is whether a statement fails. Columns that no statement here
-- writes are left out, and so are logging and the time that a scan takes.
pub mod Device
pub mod Reports
pub mod Terminal
pub mod Flags
pub mod Network
use seagles.Common.{
  ℕ, zero, suc, ◌+◌, Bool, true, false, not, ◌&&◌, ◌||◌, Option, none, some, List, [], ◌∷◌, ◌++◌,
  ltb, nat_beq, ◌==◌, if◌then◌else◌, length, any,
}
use seagles.Common.Int.{pos}
use seagles.Dict.{update}
use seagles.Text.{Text, codes, text_eq}
use seagles.Alerts.{Alert, AlertRequest, Faults, create_alert}
use seagles.Scanner.Credentials.{
  Credential, CredentialResult, test_ssh_creds, test_http_basic_creds, test_telnet_creds,
}
use seagles.Scanner.Nmap.{Service}
use seagles.Scanner.Protocols.{ProtocolFinding, itoa}

pub record ScanRow : Type 0 where
  pub device_id : Text
  pub status : Text
  pub scan_type : Text
  pub completed_at : Option ℕ
  pub open_ports : Option (List ℕ)
  pub services : Option (List (ℕ × Service))

pub record DeviceRow : Type 0 where
  pub ip_address : Text
  pub hostname : Option Text
  pub vendor : Option Text
  pub os_fingerprint : Option Text
  pub raw_nmap : Option Text
  pub tags : List Text
  pub risk_score : ℕ

pub record Vulnerability : Type 0 where
  pub device_id : Text
  pub scan_id : Text
  pub severity : Text
  pub title : Text
  pub description : Text
  pub affected_component : Text
  pub is_resolved : Bool

-- The newest vulnerability stands first.
pub record Db : Type 0 where
  pub scans : List (Text × ScanRow)
  pub devices : List (Text × DeviceRow)
  pub vulnerabilities : List Vulnerability
  pub alerts : List Alert

-- Which statements fail, and when an alert is requested.
pub record Statements : Type 0 where
  pub insert_fails : Vulnerability → Bool
  pub update_fails : Bool
  pub alert_faults : AlertRequest → Faults
  pub alert_time : AlertRequest → ℕ

unfoldable pub add_vulnerability : Statements → Vulnerability → Db → Db
add_vulnerability q v db =
    if q.insert_fails v then db else record db { vulnerabilities = v ∷ db.vulnerabilities }

unfoldable pub raise : Statements → AlertRequest → Db → Db
raise q req db = record db {
  alerts = (create_alert (q.alert_faults req) req (q.alert_time req) db.alerts).0;
}

unfoldable pub protocol_to_alert_type : Text → Text
protocol_to_alert_type protocol =
    if protocol == codes "Telnet"
    then codes "telnet_open"
    else (if protocol == codes "ADB"
        then codes "adb_exposed"
        else (if protocol == codes "MQTT-plaintext"
            then codes "plaintext_mqtt"
            else (if protocol == codes "RTSP-unauth" then codes "unauth_rtsp" else protocol)))

-- The scan that the statements of one goroutine are about.
pub record Target : Type 0 where
  pub device_id : Text
  pub scan_id : Text
  pub ip : Text

unfoldable pub exposure_title : ProtocolFinding → Text
exposure_title f = f.protocol ++ codes " exposure detected"

unfoldable pub exposure : Target → ProtocolFinding → Vulnerability
unfolding itoa exposure_title
exposure t f = record {
  device_id = t.device_id;
  scan_id = t.scan_id;
  severity = f.risk;
  title = exposure_title f;
  description = f.description;
  affected_component = codes "port/" ++ itoa f.port;
  is_resolved = false;
}

abbrev pub exposure_alert : Target → ProtocolFinding → AlertRequest
exposure_alert t f = record {
  device_id = t.device_id;
  alert_type = protocol_to_alert_type f.protocol;
  severity = f.risk;
  title = f.protocol ++ (codes " detected on " ++ (t.ip ++ (codes ":" ++ itoa f.port)));
  description = f.description;
  metadata = none;
}

-- The loop over the findings of the protocol scanner.
unfoldable pub report_findings : Statements → Target → List ProtocolFinding → Db → Db
unfolding add_vulnerability raise exposure
report_findings q t [] db = db
report_findings q t (f ∷ fs) db =
    report_findings q t fs (raise q (exposure_alert t f) (add_vulnerability q (exposure t f) db))

unfoldable pub default_credentials : Target → CredentialResult → Vulnerability
default_credentials t r = record {
  device_id = t.device_id;
  scan_id = t.scan_id;
  severity = codes "critical";
  title = codes "Default credentials active";
  description =
      codes "Device accepted login with username: " ++ (r.username ++ (codes " via " ++ r.method));
  affected_component = codes "authentication";
  is_resolved = false;
}

-- encoding/json on the user name and the method
module _ (marshal : Text → Text → Text) where
  abbrev pub credentials_alert : Target → CredentialResult → AlertRequest
  credentials_alert t r = record {
    device_id = t.device_id;
    alert_type = codes "default_creds";
    severity = codes "critical";
    title = codes "Default credentials found on " ++ t.ip;
    description = [];
    metadata = some (marshal r.username r.method);
  }

  abbrev pub lockout_alert : Target → AlertRequest
  lockout_alert t = record {
    device_id = t.device_id;
    alert_type = codes "lockout_detected";
    severity = codes "medium";
    title = codes "Account lockout triggered during scan of " ++ t.ip;
    description = [];
    metadata = none;
  }

  abbrev pub add_tag : DeviceRow → DeviceRow
  add_tag d = record d {
    tags =
        if any (λ tag. tag == codes "default-creds") d.tags
        then d.tags
        else d.tags ++ (codes "default-creds" ∷ []);
  }

  unfoldable pub report_found : Statements → Target → CredentialResult → Db → Db
  unfolding add_vulnerability raise default_credentials
  report_found q t r db =
      if r.found
      then (let db' =
            raise q (credentials_alert t r) (add_vulnerability q (default_credentials t r) db) in
          if q.update_fails
          then db'
          else record db' { devices = update t.device_id add_tag db'.devices })
      else db

  -- The loop over the results, which a lockout ends.
  unfoldable pub report_results : Statements → Target → List CredentialResult → Db → Db
  unfolding report_found
  report_results q t [] db = db
  report_results q t (r ∷ rs) db =
      let db' = report_found q t r db in
      let rest = report_results q t rs db' in
      if r.locked_out then raise q (lockout_alert t) db' else rest
