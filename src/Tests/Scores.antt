-- ===== src/Tests/Scores.antt =====
-- An update of the EPSS scores of three vulnerabilities (backend/kev/epss.go).
use seagles.Common.{
  ℕ, ◌≡◌, refl, inr, true, false, Bool, Option, none, some, List, [], ◌∷◌, arith, map, ◌==◌,
  if◌then◌else◌,
}
use seagles.Text.{Text, codes, text_eq}
use seagles.Breaker.Sequential.{Inv}
use seagles.Epss.{
  EpssScore, Vulnerability, select_cves, open_cve, batches, batches_loop, update_epss_scores,
}
use seagles.Epss.Complete.{fresh, update_epss_scores_complete}
use seagles.Tests.Breaker.{closed_at, at_time}

abbrev cve : Text
cve = codes "CVE-2024-1"

abbrev score : EpssScore
score = record { cve = cve; epss = 7; percentile = 8; date = [] }

abbrev api : Text → Option EpssScore
api c = if c == cve then some score else none

abbrev vulnerability : Option Text → Bool → Vulnerability
vulnerability id resolved = record {
  cve_id = id;
  is_resolved = resolved;
  epss_score = none;
  epss_percentile = none;
  epss_updated_at = none;
}

abbrev table : List Vulnerability
table =
    vulnerability (some cve) false
    ∷ vulnerability (some cve) true
    ∷ vulnerability (some cve) false
    ∷ vulnerability none false
    ∷ []

-- The service says the same to every request.
abbrev answer : ℕ → Text → Option Text
answer i url = some []

abbrev unmarshal : Text → Option (List EpssScore)
unmarshal body = some (score ∷ [])

abbrev works : Text → Bool
works id = false

up_Inv : Inv (closed_at 5 0)
up_Inv = ground arith

update_epss_scores_complete_example :
    (update_epss_scores answer unmarshal at_time works 9 (closed_at 5 0) table).1
    ≡ map (fresh api works 9) table
update_epss_scores_complete_example =
    update_epss_scores_complete api works 9 answer unmarshal at_time (closed_at 5 0) table
      (up_Inv, refl)
      (unfold select_cves open_cve batches batches_loop in
        (([], score ∷ [], refl, refl, ((refl, tt), (inr refl, tt))), tt))

-- Two of the rows get the score.
table_run : map (fresh api works 9) table ≡ (
    let scored = record (vulnerability (some cve) false) {
      epss_score = some 7;
      epss_percentile = some 8;
      epss_updated_at = some 9;
    } in
    scored ∷ vulnerability (some cve) true ∷ scored ∷ vulnerability none false ∷ [])
unfolding open_cve
table_run = refl
