-- ===== src/Risk/Factors.antt =====
-- What the loop over the vulnerability titles computes (backend/risk/scorer.go).
use seagles.Common.{
  ℕ, ◌≡◌, refl, Bool, false, ◌||◌, List, [], ◌∷◌, arith, any, inl, inr, Bool-cases,
}
use seagles.Text.{Text, codes}
use seagles.Risk.{
  RiskFactors, Evidence, read_title, read_titles, build_risk_factors, no_factors, says,
}

module _ (field : RiskFactors → Bool) (test : Text → Bool)
    (step : (t : Text) (f : RiskFactors) → field (read_title t f) ≡ (test t || field f)) where
  loop-any :
      (ts : List Text) (f : RiskFactors) → field (read_titles ts f) ≡ (field f || any test ts)
  unfolding read_titles
  loop-any [] f = ground arith
  loop-any (t ∷ ts) f = ground (arith, step t f, loop-any ts (read_title t f))

flags_of_loop :
    (titles : List Text)
    → let f = read_titles titles no_factors in
      (f.has_telnet ≡ any (says (codes "telnet")) titles)
      × (f.has_adb ≡ any (λ t. says (codes "adb") t || says (codes "android debug") t) titles)
      × (f.has_modbus ≡ any (says (codes "modbus")) titles)
      × (f.has_unauth_rtsp ≡ any (says (codes "rtsp")) titles)
      × (f.has_plaintext_mqtt ≡ any (says (codes "mqtt")) titles)
      × (f.has_http_mgmt ≡ any (says (codes "http")) titles)
      × (f.has_default_creds ≡ any (says (codes "default credentials")) titles)
      × (f.has_weak_tls ≡ any (says (codes "tls")) titles)
unfolding read_title
flags_of_loop titles = (
  loop-any (λ f. f.has_telnet) (says (codes "telnet")) (λ t f. refl) titles no_factors,
  loop-any (λ f. f.has_adb) (λ t. says (codes "adb") t || says (codes "android debug") t)
      (λ t f. refl) titles no_factors,
  loop-any (λ f. f.has_modbus) (says (codes "modbus")) (λ t f. refl) titles no_factors,
  loop-any (λ f. f.has_unauth_rtsp) (says (codes "rtsp")) (λ t f. refl) titles no_factors,
  loop-any (λ f. f.has_plaintext_mqtt) (says (codes "mqtt")) (λ t f. refl) titles no_factors,
  loop-any (λ f. f.has_http_mgmt) (says (codes "http")) (λ t f. refl) titles no_factors,
  loop-any (λ f. f.has_default_creds) (says (codes "default credentials")) (λ t f. refl) titles
      no_factors,
  loop-any (λ f. f.has_weak_tls) (says (codes "tls")) (λ t f. refl) titles no_factors,
)

-- A flag is set exactly if some title that was read, of an open vulnerability of the device,
-- contains its word, in any case of the letters.
pub flags_of_titles :
    (now : ℕ) (e : Evidence)
    → let f = (build_risk_factors now e).0 in
      (f.has_telnet ≡ any (says (codes "telnet")) e.titles)
      × (f.has_adb ≡ any (λ t. says (codes "adb") t || says (codes "android debug") t) e.titles)
      × (f.has_modbus ≡ any (says (codes "modbus")) e.titles)
      × (f.has_unauth_rtsp ≡ any (says (codes "rtsp")) e.titles)
      × (f.has_plaintext_mqtt ≡ any (says (codes "mqtt")) e.titles)
      × (f.has_http_mgmt ≡ any (says (codes "http")) e.titles)
      × (f.has_default_creds ≡ any (says (codes "default credentials")) e.titles)
      × (f.has_weak_tls ≡ any (says (codes "tls")) e.titles)
unfolding build_risk_factors
flags_of_titles now e = elim (Bool-cases e.titles_error) [
  | inl failed ↦ rw failed (flags_of_loop e.titles)
  | inr read ↦ rw read (flags_of_loop e.titles)
]

read_titles-outdated :
    (ts : List Text) (f : RiskFactors) → (read_titles ts f).firmware_outdated ≡ f.firmware_outdated
unfolding read_titles read_title
read_titles-outdated [] f = refl
read_titles-outdated (t ∷ ts) f = read_titles-outdated ts (read_title t f)

-- Nothing in the database ever sets the factor of outdated firmware, so its point is never scored.
pub firmware_outdated_never :
    (now : ℕ) (e : Evidence) → (build_risk_factors now e).0.firmware_outdated ≡ false
unfolding build_risk_factors
firmware_outdated_never now e = ground (arith, read_titles-outdated e.titles no_factors)
