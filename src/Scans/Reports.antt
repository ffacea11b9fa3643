-- ===== src/Scans/Reports.antt =====
-- What is reported of the credentials that a device accepted (backend/api/scans.go).
use seagles.Common.{
  ℕ, ◌≡◌, ◌∙◌, sym, refl, ap, inl, inr, Bool, true, false, not, ◌&&◌, List, [], ◌∷◌, ◌++◌, arith,
  if◌then◌else◌, Bool-cases,
}
use seagles.Common.Int.{pos}
use seagles.Text.{codes, text_eq}
use seagles.Scanner.Credentials.{
  Credential, CredentialResult, test_ssh_creds, test_http_basic_creds, test_telnet_creds,
}
use seagles.Scanner.Protocols.{port_set}
use seagles.Scans.{
  Vulnerability, Db, Statements, Target, add_vulnerability, raise, default_credentials,
  lockout_alert, report_found, report_results,
}
use seagles.Scans.Device.{Surroundings, run_test, test_credentials, run_credential_tests}
use mathlib.Core.Path.{subst}
use mathlib.Core.List.{Mem, mem-cons_self, mem-cons_of_mem}

abbrev Starts : CredentialResult → List CredentialResult → Type 0
Starts r rs = (rest : List CredentialResult) × (rs ≡ r ∷ rest)

module _ {ℓ} {W : Type ℓ} (s : Surroundings W) (t : Target) where
  keeps_first :
      (b : Bool) (test : W → W × CredentialResult) (x : W × List CredentialResult)
      (r : CredentialResult)
      → Starts r x.1
      → Starts r (run_test s b test x).1
  keeps_first true test (w, rs) r (rest, e) =
      (rest ++ ((test w).1 ∷ []), ap (λ (l : List CredentialResult). l ++ ((test w).1 ∷ [])) e)
  keeps_first false test (w, rs) r h = h

  abbrev pub ssh_result : List Credential → W → CredentialResult
  ssh_result creds w = (test_ssh_creds (t.ip ++ codes ":22") creds (pos 50) s.ssh w).1

  -- The SSH test comes first.
  ssh_first :
      (ports : List ℕ) (creds : List Credential) (w : W)
      → port_set ports 22 ≡ true
      → Starts (ssh_result creds w) (test_credentials s t ports creds w).1
  unfolding test_credentials
  ssh_first ports creds w p =
      keeps_first (port_set ports 23) _ _ (ssh_result creds w)
        (keeps_first (port_set ports 80) _ _ (ssh_result creds w) (rw p ([], refl)))

  locked_first :
      (q : Statements) (r : CredentialResult) (rs : List CredentialResult) (db : Db)
      → r.locked_out ≡ true
      → report_results s.marshal q t (r ∷ rs) db
        ≡ raise q (lockout_alert s.marshal t) (report_found s.marshal q t r db)
  unfolding report_results
  locked_first q r rs db l = rw (report_results, l) refl

  -- What a test that is made leaves of the device and the network.
  abbrev pub tried : Bool → (W → W × CredentialResult) → W → W
  tried true test w = (test w).0
  tried false test w = w

  -- The tests for SSH, HTTP and telnet, one after the other, each on its open port.
  abbrev pub all_tried : List ℕ → List Credential → W → W
  all_tried ports creds w =
      tried (port_set ports 23) (test_telnet_creds (t.ip ++ codes ":23") creds (pos 20) s.telnet) (
        tried (port_set ports 80)
          (test_http_basic_creds (codes "http://" ++ (t.ip ++ codes ":80/")) creds (pos 50) s.http)
          (tried (port_set ports 22) (test_ssh_creds (t.ip ++ codes ":22") creds (pos 50) s.ssh) w))

  run_test-tried :
      (b : Bool) (test : W → W × CredentialResult) (x : W × List CredentialResult)
      → (run_test s b test x).0 ≡ tried b test x.0
  run_test-tried true test (w, rs) = refl
  run_test-tried false test (w, rs) = refl

  test_credentials-tried :
      (ports : List ℕ) (creds : List Credential) (w : W)
      → (test_credentials s t ports creds w).0 ≡ all_tried ports creds w
  unfolding test_credentials
  test_credentials-tried ports creds w =
      let telnet = test_telnet_creds (t.ip ++ codes ":23") creds (pos 20) s.telnet in
      let http =
        test_http_basic_creds (codes "http://" ++ (t.ip ++ codes ":80/")) creds (pos 50) s.http in
      run_test-tried (port_set ports 23) telnet _
      ∙ ap (tried (port_set ports 23) telnet) (
          run_test-tried (port_set ports 80) http _
          ∙ ap (tried (port_set ports 80) http) (run_test-tried (port_set ports 22) _ _))

  -- If the SSH test of a device is locked out, the HTTP and telnet tests of its open ports are made
  -- all the same, in this order, and the database gets only what the SSH result gives and one alert
  -- for the lockout: what the other two tests found leaves no trace in it.
  pub lockout_hides_rest :
      (q : Statements) (ports : List ℕ) (creds : List Credential) (w : W) (db : Db)
      → port_set ports 22 ≡ true
      → (ssh_result creds w).locked_out ≡ true
      → ((run_credential_tests s q t ports creds (w, db)).0 ≡ all_tried ports creds w)
        × ((run_credential_tests s q t ports creds (w, db)).1
            ≡ raise q
                (lockout_alert s.marshal t)
                (report_found s.marshal q t (ssh_result creds w) db))
  unfolding run_credential_tests
  lockout_hides_rest q ports creds w db p l =
      let (rest, e) = ssh_first ports creds w p in
      (
        test_credentials-tried ports creds w,
        ap (λ (rs : List CredentialResult). report_results s.marshal q t rs db) e
            ∙ locked_first q (ssh_result creds w) rest db l,
      )

  found-vulnerabilities :
      (q : Statements) (r : CredentialResult) (db : Db)
      → (report_found s.marshal q t r db).vulnerabilities ≡ (
          if r.found && not (q.insert_fails (default_credentials t r))
          then default_credentials t r ∷ db.vulnerabilities
          else db.vulnerabilities)
  unfolding report_found raise add_vulnerability
  found-vulnerabilities q r db = ground arith

  -- Reporting only adds vulnerabilities.
  found-Mem :
      (q : Statements) (r : CredentialResult) (v : Vulnerability) (db : Db)
      → Mem v db.vulnerabilities
      → Mem v (report_found s.marshal q t r db).vulnerabilities
  found-Mem q r v db m =
      elim (Bool-cases (r.found && not (q.insert_fails (default_credentials t r)))) [
        | inl e ↦ subst (Mem v) (sym (found-vulnerabilities q r db)) (rw e (mem-cons_of_mem _ m))
        | inr e ↦ subst (Mem v) (sym (found-vulnerabilities q r db)) (rw e m)
      ]

  results-Mem :
      (q : Statements) (rs : List CredentialResult) (v : Vulnerability) (db : Db)
      → Mem v db.vulnerabilities
      → Mem v (report_results s.marshal q t rs db).vulnerabilities
  unfolding report_results
  results-Mem q [] v db m = m
  results-Mem q (r ∷ rs) v db m = elim (Bool-cases r.locked_out) [
    | inl e ↦ rw (report_results, e) (unfold raise in found-Mem q r v db m)
    | inr e ↦ rw (report_results, e) (results-Mem q rs v _ (found-Mem q r v db m))
  ]

  newly-Mem :
      (q : Statements) (r : CredentialResult) (db : Db)
      → r.found ≡ true
      → q.insert_fails (default_credentials t r) ≡ false
      → Mem (default_credentials t r) (report_found s.marshal q t r db).vulnerabilities
  newly-Mem q r db f i =
      subst (Mem (default_credentials t r)) (sym (found-vulnerabilities q r db))
        (rw (i, f) mem-cons_self)

  first-Mem :
      (q : Statements) (r : CredentialResult) (rest : List CredentialResult) (db : Db)
      → r.found ≡ true
      → q.insert_fails (default_credentials t r) ≡ false
      → Mem (default_credentials t r) (report_results s.marshal q t (r ∷ rest) db).vulnerabilities
  unfolding report_results
  first-Mem q r rest db f i = elim (Bool-cases r.locked_out) [
    | inl e ↦ rw (report_results, e) (unfold raise in newly-Mem q r db f i)
    | inr e ↦ rw (report_results, e) (results-Mem q rest _ _ (newly-Mem q r db f i))
  ]

  -- Credentials that the SSH test of a device finds are recorded as a critical vulnerability of the
  -- device, if the statement that inserts it succeeds.
  pub found_credentials_recorded :
      (q : Statements) (ports : List ℕ) (creds : List Credential) (w : W) (db : Db)
      → port_set ports 22 ≡ true
      → (ssh_result creds w).found ≡ true
      → q.insert_fails (default_credentials t (ssh_result creds w)) ≡ false
      → Mem
          (default_credentials t (ssh_result creds w))
          (run_credential_tests s q t ports creds (w, db)).1.vulnerabilities
  unfolding run_credential_tests
  found_credentials_recorded q ports creds w db p f i =
      let (rest, e) = ssh_first ports creds w p in
      subst
        (λ (rs : List CredentialResult).
          Mem (default_credentials t (ssh_result creds w))
            (report_results s.marshal q t rs db).vulnerabilities)
        (sym e) (first-Mem q (ssh_result creds w) rest db f i)
