-- ===== src/Epss.antt =====
-- backend/kev/epss.go: the EPSS scores of the open vulnerabilities. What the service answers to the
-- request of the i-th batch, encoding/json, the clock readings and the statements that fail are
-- arguments; a float64 is its bit pattern.
pub mod Batches
pub mod Updated
pub mod Fetched
pub mod Complete
use seagles.Common.{
  ℕ, zero, suc, ◌+◌, Bool, true, false, not, ◌&&◌, Option, none, some, List, [], ◌∷◌, ◌++◌, ltb,
  nat_beq, ◌==◌, if◌then◌else◌, length, take, drop, map, any,
}
use seagles.Dict.{insert}
use seagles.Text.{Text, codes, text_eq}
use seagles.Breaker.{Breaker, Times, Error, execute}

pub record EpssScore : Type 0 where
  pub cve : Text
  pub epss : ℕ
  pub percentile : ℕ
  pub date : Text

-- The loop over `i`, with the ids that are left; each round takes at least one, so that their number
-- is enough fuel.
unfoldable pub batches_loop : ℕ → List Text → List (List Text)
batches_loop zero ids = []
batches_loop (suc n) [] = []
batches_loop (suc n) (id ∷ ids) = take 30 (id ∷ ids) ∷ batches_loop n (drop 30 (id ∷ ids))

unfoldable pub batches : List Text → List (List Text)
unfolding batches_loop
batches ids = batches_loop (length ids) ids

-- `j` counts the ids before this one.
unfoldable pub param_loop : ℕ → List Text → Text → Text
param_loop j [] param = param
param_loop j (cve ∷ batch) param =
    param_loop (j + 1) batch ((if ltb 0 j then param ++ codes "," else param) ++ cve)

unfoldable pub batch_url : List Text → Text
unfolding param_loop
batch_url batch = codes "https://api.first.org/data/v1/epss?cve=" ++ param_loop 0 batch []

unfoldable pub store_scores : List EpssScore → List (Text × EpssScore) → List (Text × EpssScore)
store_scores [] results = results
store_scores (s ∷ ss) results = store_scores ss (insert s.cve s results)

pub data FetchError : Type 0 where
  no_body bad_json : FetchError

pub record Vulnerability : Type 0 where
  pub cve_id : Option Text
  pub is_resolved : Bool
  pub epss_score : Option ℕ
  pub epss_percentile : Option ℕ
  pub epss_updated_at : Option ℕ

module _ (answer : ℕ → Text → Option Text) (unmarshal : Text → Option (List EpssScore)) where
  -- The function that the breaker calls.
  unfoldable pub fetch_batch :
      ℕ → List Text → List (Text × EpssScore) → List (Text × EpssScore) × Option FetchError
  unfolding store_scores batch_url
  fetch_batch i batch results = elim (answer i (batch_url batch)) [
    | none ↦ (results, some no_body)
    | some body ↦ elim (unmarshal body) [
      | none ↦ (results, some bad_json)
      | some scores ↦ (store_scores scores results, none)
    ]
  ]

  -- The error of a batch is only logged.
  unfoldable pub fetch_loop :
      (ℕ → Times)
      → ℕ
      → List (List Text)
      → Breaker
      → List (Text × EpssScore)
      → Breaker × List (Text × EpssScore)
  unfolding fetch_batch execute
  fetch_loop ts i [] b results = (b, results)
  fetch_loop ts i (batch ∷ rest) b results =
      let (b', results', err) = execute (fetch_batch i batch) (ts i) b results in
      fetch_loop ts (i + 1) rest b' results'

  unfoldable pub fetch_epss_scores :
      (ℕ → Times) → List Text → Breaker → Breaker × List (Text × EpssScore)
  unfolding fetch_loop batches
  fetch_epss_scores ts ids b = fetch_loop ts 0 (batches ids) b []

unfoldable pub open_cve : Vulnerability → Option Text
open_cve v = if v.is_resolved then none else v.cve_id

-- SELECT DISTINCT, whose order is not specified.
unfoldable pub select_cves : List Vulnerability → List Text
unfolding open_cve
select_cves [] = []
select_cves (v ∷ vs) =
    let rest = select_cves vs in
    elim (open_cve v) [
      | none ↦ rest
      | some cve ↦ if any (λ c. c == cve) rest then rest else cve ∷ rest
    ]

-- One UPDATE on one row.
abbrev pub set_score : ℕ → Text → EpssScore → Vulnerability → Vulnerability
set_score now cve s v = record v {
  epss_score = some s.epss;
  epss_percentile = some s.percentile;
  epss_updated_at = some now;
}

unfoldable pub update_row : ℕ → Text → EpssScore → Vulnerability → Vulnerability
unfolding open_cve
update_row now cve s v = elim (open_cve v) [
  | none ↦ v
  | some c ↦ if c == cve then set_score now cve s v else v
]

-- The statements for the scores, of which those for some ids fail.
unfoldable pub update_rows :
    (Text → Bool) → ℕ → List (Text × EpssScore) → List Vulnerability → List Vulnerability
unfolding update_row
update_rows fails now [] rows = rows
update_rows fails now ((cve, s) ∷ scores) rows =
    update_rows fails now scores (if fails cve then rows else map (update_row now cve s) rows)

-- `UpdateEPSSScores` where the query succeeds.
module _ (answer : ℕ → Text → Option Text) (unmarshal : Text → Option (List EpssScore)) where
  unfoldable pub update_epss_scores :
      (ℕ → Times) → (Text → Bool) → ℕ → Breaker → List Vulnerability → Breaker × List Vulnerability
  unfolding fetch_epss_scores select_cves update_rows
  update_epss_scores ts fails now b rows =
      let ids = select_cves rows in
      if nat_beq (length ids) 0
      then (b, rows)
      else (let (b', results) = fetch_epss_scores answer unmarshal ts ids b in
          (b', update_rows fails now results rows))
