-- ===== src/Scans/Device.antt =====
-- `runCredentialTests`, `runDeviceScan` and `TriggerDeviceScanHandler` of backend/api/scans.go, with
-- `UpdateDeviceRiskScore` of backend/risk/scorer.go at the end of a scan. `W` is the state of the
-- device on which credentials are tried.
use seagles.Common.{
  ℕ, Bool, true, false, not, ◌&&◌, ◌||◌, Option, none, some, List, [], ◌∷◌, ◌++◌, ltb, ◌==◌,
  if◌then◌else◌, length,
}
use seagles.Common.Int.{pos}
use seagles.Dict.{update}
use seagles.Text.{Text, codes, text_eq}
use seagles.Alerts.{AlertRequest}
use seagles.Risk.{Evidence, build_risk_factors, calculate_risk_score}
use seagles.Scanner.Credentials.{
  Credential, CredentialResult, test_ssh_creds, test_http_basic_creds, test_telnet_creds,
}
use seagles.Scanner.Nmap.{Host, NmapHost, deep_scan, open_numbers}
use seagles.Scanner.Protocols.{Peer, port_set, detect_protocols}
use seagles.Scanner.Tls.{TlsResult}
use seagles.Scans.{
  ScanRow, DeviceRow, Vulnerability, Db, Statements, Target, add_vulnerability, raise,
  report_findings, report_results,
}

pub record Surroundings {ℓ} (W : Type ℓ) : Type ℓ where
  pub parse_ip : Text → Bool
  pub nmap : Text → Option (Text × List NmapHost)
  pub dial : ℕ → Option Peer
  pub tls : TlsResult
  pub credentials : Option (List Credential)
  pub ssh : Credential → W → W × Option Text
  pub http : Credential → W → W × Option (ℕ × Text)
  pub telnet : Credential → W → W × Option Text
  pub marshal : Text → Text → Text
  pub evidence : Evidence
  pub completed : ℕ
  pub scored : ℕ

abbrev pub when {ℓ} : {A : Type ℓ} → Bool → (A → A) → A → A
when true f a = f a
when false f a = a

abbrev pub set_scan : Statements → Target → (ScanRow → ScanRow) → Db → Db
set_scan q t f db = if q.update_fails then db else record db { scans = update t.scan_id f db.scans }

abbrev pub set_device : Statements → Target → (DeviceRow → DeviceRow) → Db → Db
set_device q t f db =
    if q.update_fails then db else record db { devices = update t.device_id f db.devices }

abbrev pub with_results : List ℕ → Host → ScanRow → ScanRow
with_results ports h r = record r { open_ports = some ports; services = some h.services }

abbrev pub finish : Text → ℕ → ScanRow → ScanRow
finish status now r = record r { status = status; completed_at = some now }

-- A column of the device is filled in with a value that is not empty.
unfoldable pub store_column : Statements → Target → Text → (Text → DeviceRow → DeviceRow) → Db → Db
store_column q t value f db = if value == [] then db else set_device q t (f value) db

unfoldable pub store_columns :
    Statements → Target → List (Text × (Text → DeviceRow → DeviceRow)) → Db → Db
unfolding store_column
store_columns q t [] db = db
store_columns q t ((value, f) ∷ columns) db =
    store_columns q t columns (store_column q t value f db)

abbrev pub host_columns : Host → List (Text × (Text → DeviceRow → DeviceRow))
host_columns h =
    (h.hostname, λ v d. record d { hostname = some v })
    ∷ (h.vendor, λ v d. record d { vendor = some v })
    ∷ (h.os_match, λ v d. record d { os_fingerprint = some v })
    ∷ (h.raw_xml, λ v d. record d { raw_nmap = some v })
    ∷ []

abbrev weak_tls : Target → Vulnerability
weak_tls t = record {
  device_id = t.device_id;
  scan_id = t.scan_id;
  severity = codes "high";
  title = codes "Weak TLS configuration";
  description = codes "Device supports deprecated TLS versions or weak ciphers";
  affected_component = codes "tls";
  is_resolved = false;
}

abbrev tls_alert : Target → AlertRequest
tls_alert t = record {
  device_id = t.device_id;
  alert_type = codes "tls_weak";
  severity = codes "high";
  title = codes "Weak TLS on " ++ (t.ip ++ codes ":443");
  description = [];
  metadata = none;
}

abbrev cert_alert : Target → AlertRequest
cert_alert t = record {
  device_id = t.device_id;
  alert_type = codes "cert_expiring";
  severity = codes "medium";
  title = codes "Expired TLS certificate on " ++ (t.ip ++ codes ":443");
  description = [];
  metadata = none;
}

abbrev pub is_weak : TlsResult → Bool
is_weak r = r.supports_tls10 || (r.supports_tls11 || ltb 0 (length r.weak_ciphers))

unfoldable pub report_tls : Statements → Target → TlsResult → Db → Db
report_tls q t r db =
    when r.cert_expired (raise q (cert_alert t))
      (when (is_weak r) (λ d. raise q (tls_alert t) (add_vulnerability q (weak_tls t) d)) db)

module _ {ℓ} {W : Type ℓ} (s : Surroundings W) where
  abbrev pub run_test :
      Bool → (W → W × CredentialResult) → W × List CredentialResult → W × List CredentialResult
  run_test true test (w, rs) = let (w', r) = test w in (w', rs ++ (r ∷ []))
  run_test false test (w, rs) = (w, rs)

  -- The results of the tests of the open ports, in their order.
  unfoldable pub test_credentials :
      Target → List ℕ → List Credential → W → W × List CredentialResult
  test_credentials t ports creds w =
      run_test (port_set ports 23) (test_telnet_creds (t.ip ++ codes ":23") creds (pos 20) s.telnet)
        (run_test (port_set ports 80)
          (test_http_basic_creds (codes "http://" ++ (t.ip ++ codes ":80/")) creds (pos 50) s.http)
          (run_test (port_set ports 22) (test_ssh_creds (t.ip ++ codes ":22") creds (pos 50) s.ssh)
            (w, [])))

  unfoldable pub run_credential_tests :
      Statements → Target → List ℕ → List Credential → W × Db → W × Db
  unfolding test_credentials
  run_credential_tests q t ports creds (w, db) =
      let (w', results) = test_credentials t ports creds w in
      (w', report_results s.marshal q t results db)

  abbrev pub try_credentials : Statements → Target → List ℕ → W × Db → W × Db
  try_credentials q t ports (w, db) = elim s.credentials [
    | none ↦ (w, db)
    | some creds ↦ run_credential_tests q t ports creds (w, db)
  ]

  -- The titles that `BuildRiskFactors` reads.
  unfoldable pub open_titles : Text → List Vulnerability → List Text
  open_titles device [] = []
  open_titles device (v ∷ vs) =
      let rest = open_titles device vs in
      if v.device_id == device && not v.is_resolved then v.title ∷ rest else rest

  abbrev pub evidence_of : Target → Db → Evidence
  evidence_of t db = record s.evidence { titles = open_titles t.device_id db.vulnerabilities }

  unfoldable pub update_device_risk_score : Statements → Target → Db → Db
  unfolding open_titles
  update_device_risk_score q t db =
      let (factors, failed) = build_risk_factors s.scored (evidence_of t db) in
      if failed
      then db
      else set_device q t (λ d. record d { risk_score = calculate_risk_score factors }) db

  -- What a scan that reached the host does before it is complete.
  unfoldable pub report_host : Statements → Target → Host → W × Db → W × Db
  unfolding run_credential_tests store_columns report_tls
  report_host q t h (w, db) =
      let ports = open_numbers h.open_ports in
      let db1 = store_columns q t (host_columns h) (set_scan q t (with_results ports h) db) in
      let db2 = report_findings q t (detect_protocols s.dial t.ip ports) db1 in
      let db3 = when (port_set ports 443) (report_tls q t s.tls) db2 in
      try_credentials q t ports (w, db3)

  -- `safelisted` is the answer of `IsSafelisted`.
  unfoldable pub run_device_scan : Statements → Bool → Target → W × Db → W × Db
  unfolding report_host update_device_risk_score
  run_device_scan q safelisted t (w, db) =
      if safelisted
      then (w, set_scan q t (finish (codes "skipped") s.completed) db)
      else (elim (deep_scan s.parse_ip s.nmap t.ip) [
        | none ↦ (w, set_scan q t (finish (codes "failed") s.completed) db)
        | some h ↦
            let (w', db') = report_host q t h (w, db) in
            (
              w',
              update_device_risk_score q t
                  (set_scan q t (finish (codes "complete") s.completed) db'),
            )
      ])
