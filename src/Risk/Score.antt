-- ===== src/Risk/Score.antt =====
-- Bounds, monotonicity and the breakdown of the risk score (backend/risk/scorer.go).
use seagles.Common.{ℕ, ◌+◌, ◌≤◌, ◌≡◌, refl, min, Bool, true, false, List, [], ◌∷◌, ◌++◌, arith, ltb}
use seagles.Text.{Text}
use seagles.Risk.{
  RiskFactors, if_on, entry_if, Severity, low, medium, high, critical, calculate_risk_score,
  severity_from_score, score_breakdown,
}

abbrev pub total : List (Text × ℕ) → ℕ
total [] = 0
total ((name, points) ∷ xs) = points + total xs

total-entry_if :
    (b : Bool) (name : Text) (points : ℕ) (xs : List (Text × ℕ))
    → total (entry_if b name points ++ xs) ≡ if_on b points + total xs
total-entry_if true name points xs = refl
total-entry_if false name points xs = omega arith

total-last : (b : Bool) (name : Text) (points : ℕ) → total (entry_if b name points) ≡ if_on b points
total-last true name points = omega arith
total-last false name points = refl

if_on-pos : (n : ℕ) → if_on (ltb 0 n) n ≡ n
if_on-pos n = ground arith

-- The score is the sum of the points in the breakdown, capped at ten.
pub score-breakdown :
    (f : RiskFactors) → calculate_risk_score f ≡ min (total (score_breakdown f)) 3000
unfolding calculate_risk_score score_breakdown
score-breakdown f = simp (total-entry_if, total-last, if_on-pos) (omega arith)

-- A factor list is at least as bad as another in every factor.
abbrev pub Implies : Bool → Bool → Type 0
Implies a b = a ≡ true → b ≡ true

pub record AtMost (f g : RiskFactors) : Type 0 where
  pub default_creds : Implies f.has_default_creds g.has_default_creds
  pub telnet : Implies f.has_telnet g.has_telnet
  pub adb : Implies f.has_adb g.has_adb
  pub modbus : Implies f.has_modbus g.has_modbus
  pub unauth_rtsp : Implies f.has_unauth_rtsp g.has_unauth_rtsp
  pub plaintext_mqtt : Implies f.has_plaintext_mqtt g.has_plaintext_mqtt
  pub http_mgmt : Implies f.has_http_mgmt g.has_http_mgmt
  pub weak_tls : Implies f.has_weak_tls g.has_weak_tls
  pub outdated : Implies f.firmware_outdated g.firmware_outdated
  pub entropy : Implies f.high_entropy_firmware g.high_entropy_firmware
  pub cves : f.known_cve_count ≤ g.known_cve_count
  pub kevs : f.kev_match_count ≤ g.kev_match_count
  pub days : f.days_since_last_scan ≤ g.days_since_last_scan

if_on-le : (a b : Bool) (n : ℕ) → Implies a b → if_on a n ≤ if_on b n
if_on-le a b n h = ground arith

score_mono : (f g : RiskFactors) → AtMost f g → calculate_risk_score f ≤ calculate_risk_score g
unfolding calculate_risk_score
score_mono f g h = omega (
  arith,
  if_on-le f.has_default_creds g.has_default_creds 1200 h.default_creds,
  if_on-le f.has_telnet g.has_telnet 900 h.telnet,
  if_on-le f.has_adb g.has_adb 1050 h.adb,
  if_on-le f.has_modbus g.has_modbus 750 h.modbus,
  if_on-le f.has_unauth_rtsp g.has_unauth_rtsp 600 h.unauth_rtsp,
  if_on-le f.has_plaintext_mqtt g.has_plaintext_mqtt 450 h.plaintext_mqtt,
  if_on-le f.has_http_mgmt g.has_http_mgmt 300 h.http_mgmt,
  if_on-le f.has_weak_tls g.has_weak_tls 450 h.weak_tls,
  if_on-le f.firmware_outdated g.firmware_outdated 300 h.outdated,
  if_on-le f.high_entropy_firmware g.high_entropy_firmware 600 h.entropy,
  h.cves,
  h.kevs,
  h.days,
)

abbrev pub rank : Severity → ℕ
rank low = 0
rank medium = 1
rank high = 2
rank critical = 3

-- A higher score has no lower severity.
severity_mono : (m n : ℕ) → m ≤ n → rank (severity_from_score m) ≤ rank (severity_from_score n)
unfolding severity_from_score
severity_mono m n h = ground arith

-- A device that is no better in any factor has no lower score and no lower severity.
pub risk_mono :
    (f g : RiskFactors)
    → AtMost f g
    → (calculate_risk_score f ≤ calculate_risk_score g)
      × (rank (severity_from_score (calculate_risk_score f))
          ≤ rank (severity_from_score (calculate_risk_score g)))
risk_mono f g h = (
  score_mono f g h,
  severity_mono (calculate_risk_score f) (calculate_risk_score g) (score_mono f g h),
)
