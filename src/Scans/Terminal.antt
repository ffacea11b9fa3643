-- ===== src/Scans/Terminal.antt =====
-- How the scan of a device ends (backend/api/scans.go).
use seagles.Common.{
  ℕ, ◌≡◌, ◌∙◌, refl, ap, inl, inr, Bool, true, false, Option, none, some, List, [], ◌∷◌, arith,
  ◌==◌, if◌then◌else◌, Bool-cases, Option-cases,
}
use seagles.Dict.{lookup, lookup-update, applied}
use seagles.Text.{Text, codes, text_eq}
use seagles.Alerts.{AlertRequest}
use seagles.Scanner.Nmap.{Host, deep_scan, open_numbers}
use seagles.Scanner.Credentials.{Credential, CredentialResult}
use seagles.Scanner.Protocols.{ProtocolFinding, detect_protocols, port_set}
use seagles.Scanner.Tls.{TlsResult}
use seagles.Scans.{
  ScanRow, DeviceRow, Vulnerability, Db, Statements, Target, add_vulnerability, raise, exposure,
  exposure_alert, report_findings, report_found, report_results,
}
use seagles.Scans.Device.{
  Surroundings, set_scan, finish, store_column, store_columns, host_columns, with_results, when,
  try_credentials, report_tls, run_credential_tests, update_device_risk_score, report_host,
  run_device_scan, test_credentials,
}

-- Everything but the scan's own updates leaves the table of scans as it is.
raise-scans : (q : Statements) (r : AlertRequest) (db : Db) → (raise q r db).scans ≡ db.scans
unfolding raise
raise-scans q r db = refl

add-scans :
    (q : Statements) (v : Vulnerability) (db : Db) → (add_vulnerability q v db).scans ≡ db.scans
unfolding add_vulnerability
add-scans q v db = ground arith

findings-scans :
    (q : Statements) (t : Target) (fs : List ProtocolFinding) (db : Db)
    → (report_findings q t fs db).scans ≡ db.scans
unfolding report_findings
findings-scans q t [] db = refl
findings-scans q t (f ∷ fs) db =
    findings-scans q t fs (raise q (exposure_alert t f) (add_vulnerability q (exposure t f) db))
    ∙ raise-scans q (exposure_alert t f) (add_vulnerability q (exposure t f) db)
    ∙ add-scans q (exposure t f) db

found-scans :
    (marshal : Text → Text → Text) (q : Statements) (t : Target) (r : CredentialResult) (db : Db)
    → (report_found marshal q t r db).scans ≡ db.scans
unfolding report_found raise add_vulnerability
found-scans marshal q t r db = ground arith

results-scans :
    (marshal : Text → Text → Text) (q : Statements) (t : Target) (rs : List CredentialResult)
    (db : Db)
    → (report_results marshal q t rs db).scans ≡ db.scans
unfolding report_results raise
results-scans marshal q t [] db = refl
results-scans marshal q t (r ∷ rs) db = elim (Bool-cases r.locked_out) [
  | inl e ↦ rw (report_results, e) (found-scans marshal q t r db)
  | inr e ↦
      rw (report_results, e)
        (results-scans marshal q t rs (report_found marshal q t r db)
          ∙ found-scans marshal q t r db)
]

tls-scans :
    (q : Statements) (t : Target) (r : TlsResult) (db : Db) → (report_tls q t r db).scans ≡ db.scans
unfolding report_tls raise add_vulnerability
tls-scans q t r db = ground arith

column-scans :
    (q : Statements) (t : Target) (value : Text) (f : Text → DeviceRow → DeviceRow) (db : Db)
    → (store_column q t value f db).scans ≡ db.scans
unfolding store_column
column-scans q t value f db = ground arith

columns-scans :
    (q : Statements) (t : Target) (columns : List (Text × (Text → DeviceRow → DeviceRow))) (db : Db)
    → (store_columns q t columns db).scans ≡ db.scans
unfolding store_columns
columns-scans q t [] db = refl
columns-scans q t ((value, f) ∷ columns) db =
    columns-scans q t columns (store_column q t value f db) ∙ column-scans q t value f db

when-scans :
    (b : Bool) (q : Statements) (t : Target) (r : TlsResult) (db : Db)
    → (when b (report_tls q t r) db).scans ≡ db.scans
when-scans true q t r db = tls-scans q t r db
when-scans false q t r db = refl

module _ {ℓ} {W : Type ℓ} (s : Surroundings W) (q : Statements) (t : Target) where
  tests-scans :
      (ports : List ℕ) (creds : List Credential) (w : W) (db : Db)
      → (run_credential_tests s q t ports creds (w, db)).1.scans ≡ db.scans
  unfolding run_credential_tests
  tests-scans ports creds w db =
      results-scans s.marshal q t (test_credentials s t ports creds w).1 db

  try-scans :
      (ports : List ℕ) (w : W) (db : Db) → (try_credentials s q t ports (w, db)).1.scans ≡ db.scans
  unfolding run_credential_tests
  try-scans ports w db = elim (Option-cases s.credentials) [
    | inl e ↦ rw e refl
    | inr (creds, e) ↦ rw e (tests-scans ports creds w db)
  ]

  score-scans : (db : Db) → (update_device_risk_score s q t db).scans ≡ db.scans
  unfolding update_device_risk_score
  score-scans db = ground arith

  -- What is reported of a host changes the scan's own row only, by the two columns of its results.
  report_host-scans :
      (h : Host) (w : W) (db : Db)
      → (report_host s q t h (w, db)).1.scans
        ≡ (set_scan q t (with_results (open_numbers h.open_ports) h) db).scans
  unfolding report_host
  report_host-scans h w db =
      let ports = open_numbers h.open_ports in
      let found = detect_protocols s.dial t.ip ports in
      let db0 = set_scan q t (with_results ports h) db in
      let db1 = store_columns q t (host_columns h) db0 in
      let db2 = report_findings q t found db1 in
      try-scans ports w (when (port_set ports 443) (report_tls q t s.tls) db2)
      ∙ when-scans (port_set ports 443) q t s.tls db2
      ∙ findings-scans q t found db1
      ∙ columns-scans q t (host_columns h) db0

  -- The row that a scan leaves, by the answer of the safelist and what nmap found.
  abbrev pub ended : Bool → Option Host → ScanRow → ScanRow
  ended true found r = finish (codes "skipped") s.completed r
  ended false none r = finish (codes "failed") s.completed r
  ended false (some h) r =
      finish (codes "complete") s.completed (with_results (open_numbers h.open_ports) h r)

  set_scan-lookup :
      (f : ScanRow → ScanRow) (db : Db) (id : Text)
      → q.update_fails ≡ false
      → lookup id (set_scan q t f db).scans
        ≡ (if t.scan_id == id then applied f (lookup id db.scans) else lookup id db.scans)
  set_scan-lookup f db id u = rw u (lookup-update t.scan_id id f db.scans)

  twice :
      (f g : ScanRow → ScanRow) (o : Option ScanRow)
      → applied g (applied f o) ≡ applied (λ r. g (f r)) o
  twice f g none = refl
  twice f g (some r) = refl

  complete-lookup :
      (h : Host) (w : W) (db : Db) (id : Text)
      → q.update_fails ≡ false
      → lookup id
          (set_scan q t
            (finish (codes "complete") s.completed)
            (report_host s q t h (w, db)).1).scans
        ≡ (if t.scan_id == id
            then applied (ended false (some h)) (lookup id db.scans)
            else lookup id db.scans)
  complete-lookup h w db id u = ground (
    arith,
    set_scan-lookup (finish (codes "complete") s.completed) (report_host s q t h (w, db)).1 id u,
    report_host-scans h w db,
    set_scan-lookup (with_results (open_numbers h.open_ports) h) db id u,
  )

  -- If the updates of the row succeed, the scan ends with exactly one of three statuses: `skipped`
  -- for an address on the safelist, `failed` where the address is refused or nmap gives nothing,
  -- and otherwise `complete` with the open ports and services that nmap found. No other scan's row
  -- changes.
  pub run_device_scan_ends :
      (safelisted : Bool) (w : W) (db : Db) (id : Text)
      → q.update_fails ≡ false
      → lookup id (run_device_scan s q safelisted t (w, db)).1.scans ≡ (
          if t.scan_id == id
          then applied (ended safelisted (deep_scan s.parse_ip s.nmap t.ip)) (lookup id db.scans)
          else lookup id db.scans)
  unfolding run_device_scan
  run_device_scan_ends true w db id u =
      set_scan-lookup (finish (codes "skipped") s.completed) db id u
  run_device_scan_ends false w db id u = elim (Option-cases (deep_scan s.parse_ip s.nmap t.ip)) [
    | inl e ↦ rw e (set_scan-lookup (finish (codes "failed") s.completed) db id u)
    | inr (h, e) ↦ rw e (
        ap (lookup id) (
          score-scans
            (set_scan q t (finish (codes "complete") s.completed) (report_host s q t h (w, db)).1))
        ∙ complete-lookup h w db id u)
  ]
