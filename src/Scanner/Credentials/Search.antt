-- ===== src/Scanner/Credentials/Search.antt =====
-- What a credential test reports, and how often it bothers the device
-- (backend/scanner/credentials.go).
use seagles.Common.{
  ℕ, zero, suc, ◌+◌, ◌≤◌, ◌≡◌, refl, ap, true, false, List, [], ◌∷◌, ◌++◌, arith, length, take,
  Option, ◌⊎◌, inl, inr, length-append,
}
use seagles.Common.Int.{ℤ, pos_part}
use seagles.Text.{Text, codes}
use seagles.Scanner.Credentials.{
  Credential, CredentialResult, Verdict, accepted, rejected, locked_out, unreachable, limit,
  try_all, record_attempt, judged, ssh_verdict, test_ssh_creds, test_http_basic_creds,
  test_telnet_creds, empty_result, telnet_verdict,
}

Verdict-cases :
    (v : Verdict) → (v ≡ accepted) ⊎ (v ≡ locked_out) ⊎ (v ≡ rejected) ⊎ (v ≡ unreachable)
Verdict-cases accepted = inl refl
Verdict-cases locked_out = inr (inl refl)
Verdict-cases rejected = inr (inr (inl refl))
Verdict-cases unreachable = inr (inr (inr refl))

module _ {ℓ} {W : Type ℓ} (attempt : Credential → W → W × Verdict) where
  -- The device turns all of these down, one after the other, and goes from the first state to the
  -- second.
  abbrev pub AllRejected : List Credential → W → W → Type ℓ
  AllRejected [] w w' = w ≡ w'
  AllRejected (c ∷ cs) w w' = ((attempt c w).1 ≡ rejected) × AllRejected cs (attempt c w).0 w'

  -- The first of the credentials that the device does not turn down.
  pub record Hit (creds : List Credential) (w w' : W) (v : Verdict) : Type ℓ where
    pub before : List Credential
    pub cred : Credential
    pub after : List Credential
    pub at : W
    pub listed : creds ≡ before ++ (cred ∷ after)
    pub turned_down : AllRejected before w at
    pub answered : (attempt cred at).1 ≡ v
    pub ends : (attempt cred at).0 ≡ w'

  abbrev hit_later :
      (c : Credential) (cs : List Credential) (w w' : W) (v : Verdict)
      → (attempt c w).1 ≡ rejected
      → Hit cs (attempt c w).0 w' v
      → Hit (c ∷ cs) w w' v
  hit_later c cs w w' v e h = record {
    before = c ∷ h.before;
    cred = h.cred;
    after = h.after;
    at = h.at;
    listed = ap (λ l. c ∷ l) h.listed;
    turned_down = (e, h.turned_down);
    answered = h.answered;
    ends = h.ends;
  }

  -- What a report of a credential says, of a test that starts from `r`.
  abbrev pub Finding : List Credential → W → CredentialResult → W × CredentialResult → Type ℓ
  Finding creds w r (w', r') =
      (h : Hit creds w w' accepted) × (r'.username ≡ h.cred.username)
      × (r'.password ≡ h.cred.password)
      × (r'.tested ≡ r.tested + (length h.before + 1))

  module _ (entry : Credential → Text) where
    try_all-accepted :
        (c : Credential) (cs : List Credential) (w : W) (r : CredentialResult)
        → (attempt c w).1 ≡ accepted
        → Finding (c ∷ cs) w r (try_all entry attempt (c ∷ cs) w r)
    unfolding try_all record_attempt
    try_all-accepted c cs w r e =
        rw (e, try_all)
          (
            record {
              before = [];
              cred = c;
              after = cs;
              at = w;
              listed = refl;
              turned_down = refl;
              answered = e;
              ends = refl;
            },
            refl,
            refl,
            omega arith,
          )

    try_all-rejected :
        (c : Credential) (cs : List Credential) (w : W) (r : CredentialResult)
        → (attempt c w).1 ≡ rejected
        → try_all entry attempt (c ∷ cs) w r
          ≡ try_all entry attempt cs (attempt c w).0 (record_attempt (entry c) r)
    unfolding try_all
    try_all-rejected c cs w r e = rw (e, try_all) refl

    try_all-found :
        (creds : List Credential) (w : W) (r : CredentialResult)
        → r.found ≡ false
        → (try_all entry attempt creds w r).1.found ≡ true
        → Finding creds w r (try_all entry attempt creds w r)
    unfolding try_all record_attempt
    try_all-found [] w r n f = absurd (ground (arith, n, f))
    try_all-found (c ∷ cs) w r n f = elim (Verdict-cases (attempt c w).1) [
      | inl e ↦ try_all-accepted c cs w r e
      | inr (inl e) ↦ absurd (ground (arith, e, n, f))
      | inr (inr (inl e)) ↦
          let (h, u, p, l) =
            try_all-found cs (attempt c w).0 (record_attempt (entry c) r) n
              (ground (arith, e, f)) in
          rw (try_all-rejected c cs w r e) (hit_later c cs _ _ _ e h, u, p, omega (arith, l))
      | inr (inr (inr e)) ↦ absurd (ground (arith, e, n, f))
    ]

    try_all-tested :
        (creds : List Credential) (w : W) (r : CredentialResult)
        → r.tested ≡ length r.audit_log
        → let r' = (try_all entry attempt creds w r).1 in
          (r'.tested ≤ r.tested + length creds) × (r'.tested ≡ length r'.audit_log)
    unfolding try_all record_attempt
    try_all-tested [] w r n = ground (arith, n)
    try_all-tested (c ∷ cs) w r n = elim (Verdict-cases (attempt c w).1) [
      | inl e ↦ ground (arith, e, n, length-append r.audit_log (entry c ∷ []))
      | inr (inl e) ↦ ground (arith, e, n, length-append r.audit_log (entry c ∷ []))
      | inr (inr (inl e)) ↦ ground (
        arith,
        e,
        n,
        try_all-tested cs (attempt c w).0 (record_attempt (entry c) r)
            (ground (arith, n, length-append r.audit_log (entry c ∷ []))),
      )
      | inr (inr (inr e)) ↦ ground (arith, e, n, length-append r.audit_log (entry c ∷ []))
    ]

pub limit-le :
    (creds : List Credential) (max_pairs : ℤ)
    → (limit max_pairs creds ≤ 50) × (limit max_pairs creds ≤ pos_part max_pairs)
unfolding limit
limit-le creds max_pairs = ground arith

length-take-le {ℓ} : {A : Type ℓ} (n : ℕ) (xs : List A) → length (take n xs) ≤ n
length-take-le zero xs = omega arith
length-take-le (suc n) [] = omega arith
length-take-le (suc n) (x ∷ xs) = omega (arith, length-take-le n xs)

-- The number of attempts is within the fixed bound and the caller's, and each is in the log.
abbrev pub Bounded : ℤ → CredentialResult → Type 0
Bounded max_pairs r =
    (r.tested ≤ 50) × (r.tested ≤ pos_part max_pairs) × (r.tested ≡ length r.audit_log)

module _ {ℓ} {W : Type ℓ} (target : Text) (creds : List Credential) (max_pairs : ℤ) where
  try_all-Bounded :
      (attempt : Credential → W → W × Verdict) (entry : Credential → Text) (m : Text) (w : W)
      → Bounded max_pairs
          (try_all entry attempt (take (limit max_pairs creds) creds) w (empty_result m)).1
  try_all-Bounded attempt entry m w = ground (
    arith,
    try_all-tested attempt entry (take (limit max_pairs creds) creds) w (empty_result m) refl,
    length-take-le (limit max_pairs creds) creds,
    limit-le creds max_pairs,
  )

  -- None of the three tests makes more than 50 attempts, nor more than `maxPairs`, on any device,
  -- and each attempt has one line in the audit log.
  pub attempts-Bounded :
      (dial dialogue : Credential → W → W × Option Text)
      (request : Credential → W → W × Option (ℕ × Text)) (w : W)
      → Bounded max_pairs (test_ssh_creds target creds max_pairs dial w).1
        × Bounded max_pairs (test_http_basic_creds target creds max_pairs request w).1
        × Bounded max_pairs (test_telnet_creds target creds max_pairs dialogue w).1
  unfolding test_ssh_creds test_http_basic_creds test_telnet_creds
  attempts-Bounded dial dialogue request w =
      (try_all-Bounded _ _ _ w, try_all-Bounded _ _ _ w, try_all-Bounded _ _ _ w)

  -- A reported pair of an SSH test is the first of the tried credentials that the device accepts:
  -- it turned down all before it, one after the other, and nothing is tried after it.
  pub test_ssh_creds-found :
      (dial : Credential → W → W × Option Text) (w : W)
      → (test_ssh_creds target creds max_pairs dial w).1.found ≡ true
      → Finding
          (judged dial ssh_verdict)
          (take (limit max_pairs creds) creds)
          w
          (empty_result (codes "ssh"))
          (test_ssh_creds target creds max_pairs dial w)
  unfolding test_ssh_creds
  test_ssh_creds-found dial w f = try_all-found _ _ _ w (empty_result (codes "ssh")) refl f

  -- The same of a telnet test, where a device accepts a pair when it answers with some text that
  -- neither refuses nor asks again.
  pub test_telnet_creds-found :
      (dialogue : Credential → W → W × Option Text) (w : W)
      → (test_telnet_creds target creds max_pairs dialogue w).1.found ≡ true
      → Finding
          (judged dialogue telnet_verdict)
          (take (limit max_pairs creds) creds)
          w
          (empty_result (codes "telnet"))
          (test_telnet_creds target creds max_pairs dialogue w)
  unfolding test_telnet_creds
  test_telnet_creds-found dialogue w f =
      try_all-found _ _ _ w (empty_result (codes "telnet")) refl f
