-- ===== src/Epss/Complete.antt =====
-- The update of the EPSS scores from the table to the service and back (backend/kev/epss.go).
use seagles.Common.{
  ℕ, ◌≡◌, ◌∙◌, sym, refl, inl, inr, Bool, true, false, Option, none, some, List, [], ◌∷◌, arith,
  map, ◌==◌, if◌then◌else◌, Bool-cases, Option-cases, any, All, length, nat_beq,
}
use mathlib.Core.Path.{subst}
use seagles.Dict.{lookup}
use seagles.Text.{Text, text_eq, text_beq_iff}
use seagles.Breaker.{Breaker, Times}
use seagles.Epss.{
  EpssScore, Vulnerability, open_cve, set_score, select_cves, batches, fetch_epss_scores,
  update_rows, update_epss_scores,
}
use seagles.Epss.Batches.{batches_cover}
use seagles.Epss.Updated.{scored, none_scored, update_rows-map}
use seagles.Breaker.Up.{IsUp}
use seagles.Epss.Fetched.{Has, Served, fetch_loop-Completes}

module _ (api : Text → Option EpssScore) (fails : Text → Bool) (now : ℕ) where
  -- The row with the score that the service knows; a statement that fails leaves the row.
  abbrev pub fresh : Vulnerability → Vulnerability
  fresh v = elim (open_cve v) [
    | none ↦ v
    | some cve ↦
        if fails cve then v else (elim (api cve) [ none ↦ v | some s ↦ set_score now cve s v ])
  ]

  found :
      (r : List (Text × EpssScore)) (c : Text) (xs : List Text)
      → any (λ x. x == c) xs ≡ true
      → All (Has api r) xs
      → Has api r c
  found r c [] h a = absurd (ground (arith, h))
  found r c (x ∷ xs) h a = elim (Bool-cases (x == c)) [
    | inl k ↦ subst (Has api r) ((text_beq_iff x c).0 k) a.0
    | inr k ↦ found r c xs (ground (arith, h, k)) a.1
  ]

  row_fresh :
      (r : List (Text × EpssScore)) (v : Vulnerability)
      → ((c : Text) → open_cve v ≡ some c → Has api r c)
      → scored fails now r v ≡ fresh v
  row_fresh r v h = elim (Option-cases (open_cve v)) [
    | inl e ↦ rw (scored, fresh, e) refl
    | inr (c, e) ↦ rw (scored, fresh, e, h c e) refl
  ]

  select-new :
      (v : Vulnerability) (vs : List Vulnerability) (c : Text)
      → open_cve v ≡ some c
      → any (λ x. x == c) (select_cves vs) ≡ false
      → select_cves (v ∷ vs) ≡ c ∷ select_cves vs
  unfolding select_cves
  select-new v vs c e k = rw (select_cves, e, k) refl

  select-old :
      (v : Vulnerability) (vs : List Vulnerability) (c : Text)
      → open_cve v ≡ some c
      → any (λ x. x == c) (select_cves vs) ≡ true
      → select_cves (v ∷ vs) ≡ select_cves vs
  unfolding select_cves
  select-old v vs c e k = rw (select_cves, e, k) refl

  select-none :
      (v : Vulnerability) (vs : List Vulnerability)
      → open_cve v ≡ none
      → select_cves (v ∷ vs) ≡ select_cves vs
  unfolding select_cves
  select-none v vs e = rw (select_cves, e) refl

  select-Has :
      (r : List (Text × EpssScore)) (v : Vulnerability) (vs : List Vulnerability)
      → All (Has api r) (select_cves (v ∷ vs))
      → ((c : Text) → open_cve v ≡ some c → Has api r c) × All (Has api r) (select_cves vs)
  select-Has r v vs a = elim (Option-cases (open_cve v)) [
    | inl e ↦
        ((λ c f. absurd (ground (arith, e, f))), subst (All (Has api r)) (select-none v vs e) a)
    | inr (d, e) ↦ elim (Bool-cases (any (λ x. x == d) (select_cves vs))) [
      | inl k ↦
          let rest = subst (All (Has api r)) (select-old v vs d e k) a in
          (
            (λ c f. subst (Has api r) (ground (arith, e, f)) (found r d (select_cves vs) k rest)),
            rest,
          )
      | inr k ↦
          let (h, rest) = subst (All (Has api r)) (select-new v vs d e k) a in
          ((λ c f. subst (Has api r) (ground (arith, e, f)) h), rest)
    ]
  ]

  rows_fresh :
      (r : List (Text × EpssScore)) (rows : List Vulnerability)
      → All (Has api r) (select_cves rows)
      → map (scored fails now r) rows ≡ map fresh rows
  rows_fresh r [] a = refl
  rows_fresh r (v ∷ vs) a =
      let (h, rest) = select-Has r v vs a in rw (row_fresh r v h, rows_fresh r vs rest) refl

  module _ (answer : ℕ → Text → Option Text) (unmarshal : Text → Option (List EpssScore)) where
    fetched :
        (ts : ℕ → Times) (b : Breaker) (rows : List Vulnerability)
        → IsUp b
        → Served api answer unmarshal 0 (batches (select_cves rows))
        → update_rows fails now (fetch_epss_scores answer unmarshal ts (select_cves rows) b).1 rows
          ≡ map fresh rows
    unfolding fetch_epss_scores lookup
    fetched ts b rows u d =
        let ids = select_cves rows in
        let (s, k, h) =
          fetch_loop-Completes api answer unmarshal ts 0 (batches ids) b [] u (tt, λ c. inl refl)
            d in
        let r = (fetch_epss_scores answer unmarshal ts ids b).1 in
        update_rows-map fails now r rows s.0
        ∙ rows_fresh r rows (subst (All (Has api r)) (batches_cover ids).0 h)

    empty : (ids : List Text) → nat_beq (length ids) 0 ≡ true → ids ≡ []
    empty [] e = refl
    empty (id ∷ ids) e = absurd (ground (arith, e))

    -- If the breaker is up and each request of a batch is answered with the service's scores of the
    -- batch, the update gives every open vulnerability the score that the service knows for its id,
    -- unless the statement for the id fails, and changes nothing else.
    pub update_epss_scores_complete :
        (ts : ℕ → Times) (b : Breaker) (rows : List Vulnerability)
        → IsUp b
        → Served api answer unmarshal 0 (batches (select_cves rows))
        → (update_epss_scores answer unmarshal ts fails now b rows).1 ≡ map fresh rows
    unfolding update_epss_scores
    update_epss_scores_complete ts b rows u d =
        elim (Bool-cases (nat_beq (length (select_cves rows)) 0)) [
          | inl e ↦
              rw (update_epss_scores, e)
                (sym (none_scored fails now rows)
                  ∙ rows_fresh [] rows
                      (subst (All (Has api [])) (sym (empty (select_cves rows) e)) tt))
          | inr e ↦ rw (update_epss_scores, e) (fetched ts b rows u d)
        ]
