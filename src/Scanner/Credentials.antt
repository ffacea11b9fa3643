-- ===== src/Scanner/Credentials.antt =====
-- backend/scanner/credentials.go: the list of default credentials, and the three loops that try
-- them on a device. The device is an argument: its state `W`, and how one attempt changes it and
-- what comes back. Sleeping and logging are left out.
pub mod Search
pub mod File
use seagles.Common.{
  ℕ, zero, suc, ◌+◌, Bool, true, false, not, ◌&&◌, ◌||◌, Option, none, some, List, [], ◌∷◌, ◌++◌,
  ltb, leb, nat_beq, ◌==◌, if◌then◌else◌, map, min, length, take,
}
use seagles.Common.Int.{ℤ, pos_part}
use seagles.Text.{Text, codes, text_eq, contains, to_lower, has_prefix, trim_space, cut}

pub record Credential : Type 0 where
  pub username : Text
  pub password : Text

pub record CredentialResult : Type 0 where
  pub tested : ℕ
  pub found : Bool
  pub username : Text
  pub password : Text
  pub method : Text
  pub locked_out : Bool
  pub audit_log : List Text

-- One line of the file: `none` where the loop skips it.
unfoldable pub parse_line : Text → Option Credential
unfolding cut
parse_line text =
    let line = trim_space text in
    if line == [] || has_prefix line (codes "#") then none else (elim (cut b':' line) [
      | none ↦ none
      | some (user, pass) ↦
          some (record { username = user; password = if pass == codes "(blank)" then [] else pass })
    ])

-- The loop over the lines of the file; `n` credentials are loaded already.
unfoldable pub load_lines : ℕ → List Text → List Credential
load_lines n [] = []
load_lines n (text ∷ rest) = elim (parse_line text) [
  | none ↦ load_lines n rest
  | some c ↦ elim (leb 100 (n + 1)) [ true ↦ c ∷ [] | false ↦ c ∷ load_lines (n + 1) rest ]
]

-- `none`: the file cannot be opened. An error of the reader is returned beside the credentials.
abbrev pub load_credentials : Option (List Text × Bool) → Option (List Credential × Bool)
load_credentials none = none
load_credentials (some (lines, failed)) = some (load_lines 0 lines, failed)

-- What the body of a loop does after an attempt: return with the credential, return locked out,
-- go on, or break.
pub data Verdict : Type 0 where
  accepted locked_out rejected unreachable : Verdict

unfoldable pub limit : ℤ → List Credential → ℕ
limit max_pairs creds =
    let a = if ltb 50 (pos_part max_pairs) then 50 else pos_part max_pairs in
    if ltb (length creds) a then length creds else a

unfoldable pub record_attempt : Text → CredentialResult → CredentialResult
record_attempt entry r = record r { tested = r.tested + 1; audit_log = r.audit_log ++ (entry ∷ []) }

-- The loop that the three tests share: the log entry and the attempt are theirs.
unfoldable pub try_all {ℓ} :
    {W : Type ℓ}
    → (Credential → Text)
    → (Credential → W → W × Verdict)
    → List Credential
    → W
    → CredentialResult
    → W × CredentialResult
unfolding record_attempt
try_all entry attempt [] w r = (w, r)
try_all entry attempt (c ∷ cs) w r =
    let (w', v) = attempt c w in
    elim v [
      | accepted ↦ (
        w',
        record (record_attempt (entry c) r) {
          found = true;
          username = c.username;
          password = c.password;
        },
      )
      | locked_out ↦ (w', record (record_attempt (entry c) r) { locked_out = true })
      | rejected ↦ try_all entry attempt cs w' (record_attempt (entry c) r)
      | unreachable ↦ (w', record_attempt (entry c) r)
    ]

abbrev pub empty_result : Text → CredentialResult
empty_result m = record {
  tested = 0;
  found = false;
  username = [];
  password = [];
  method = m;
  locked_out = false;
  audit_log = [];
}

abbrev pub mentions : Text → List Text → Bool
mentions s [] = false
mentions s (p ∷ ps) = contains s p || mentions s ps

-- ssh.Dial: no error, or the error's text.
abbrev pub ssh_verdict : Option Text → Verdict
ssh_verdict none = accepted
ssh_verdict (some e) =
    if mentions (to_lower e) (codes "too many" ∷ codes "locked" ∷ []) then locked_out else rejected

-- An HTTP request: no answer, or a status and the start of the body.
abbrev pub http_verdict : Option (ℕ × Text) → Verdict
http_verdict none = rejected
http_verdict (some (status, body)) =
    if nat_beq status 429
    then locked_out
    else (if mentions (to_lower body) (codes "locked" ∷ codes "disabled" ∷ [])
        then locked_out
        else (if nat_beq status 200 then accepted else rejected))

-- A telnet dialogue: no connection, or what was read after the password.
abbrev pub telnet_verdict : Option Text → Verdict
telnet_verdict none = unreachable
telnet_verdict (some []) = rejected
telnet_verdict (some (c ∷ s)) =
    let response = to_lower (c ∷ s) in
    if mentions response
        (codes "incorrect" ∷ codes "failed" ∷ codes "denied" ∷ codes "invalid" ∷ codes "wrong" ∷ [])
      || mentions response (codes "password:" ∷ codes "login:" ∷ codes "username:" ∷ [])
    then rejected
    else accepted

module _ {ℓ} {W : Type ℓ} {A : Type 0} (device : Credential → W → W × A) where
  abbrev pub judged : (A → Verdict) → Credential → W → W × Verdict
  judged verdict c w = let (w', a) = device c w in (w', verdict a)

-- The target is the address or URL of the log entries.
module _ {ℓ} {W : Type ℓ} (target : Text) (creds : List Credential) (max_pairs : ℤ) where
  unfoldable pub test_ssh_creds : (Credential → W → W × Option Text) → W → W × CredentialResult
  test_ssh_creds dial w =
      try_all (λ c. codes "[CRED-TEST] SSH " ++ (target ++ (codes " user=" ++ c.username)))
        (judged dial ssh_verdict) (take (limit max_pairs creds) creds) w
        (empty_result (codes "ssh"))

  unfoldable pub test_http_basic_creds :
      (Credential → W → W × Option (ℕ × Text)) → W → W × CredentialResult
  test_http_basic_creds request w =
      try_all (λ c. codes "[CRED-TEST] HTTP-BASIC " ++ (target ++ (codes " user=" ++ c.username)))
        (judged request http_verdict) (take (limit max_pairs creds) creds) w
        (empty_result (codes "http-basic"))

  unfoldable pub test_telnet_creds : (Credential → W → W × Option Text) → W → W × CredentialResult
  test_telnet_creds dialogue w =
      try_all (λ c. codes "[CRED-TEST] TELNET " ++ (target ++ (codes " user=" ++ c.username)))
        (judged dialogue telnet_verdict) (take (limit max_pairs creds) creds) w
        (empty_result (codes "telnet"))
