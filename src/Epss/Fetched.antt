-- ===== src/Epss/Fetched.antt =====
-- What the scores are that the batches bring (backend/kev/epss.go).
use seagles.Common.{
  ℕ, ◌+◌, ◌≡◌, ◌⊎◌, ◌∙◌, sym, refl, ap, inl, inr, true, Option, none, some, List, [], ◌∷◌, ◌++◌,
  arith, ◌==◌, Bool-cases, any, All,
}
use mathlib.Core.Path.{subst}
use seagles.Dict.{lookup, insert, IsMap, lookup-insert, insert-IsMap}
use seagles.Text.{Text, text_eq, text_beq_iff}
use seagles.Breaker.{Breaker, Times, execute}
use seagles.Breaker.Up.{IsUp, up_call, call-IsUp}
use seagles.Epss.{EpssScore, batch_url, store_scores, fetch_batch, fetch_loop}
use seagles.Epss.Batches.{concat}

module _ (api : Text → Option EpssScore) where
  -- All scores are those of the service, and the one for an id is there.
  abbrev pub IsSound : List (Text × EpssScore) → Type 0
  IsSound results =
      IsMap results × ((c : Text) → (lookup c results ≡ none) ⊎ (lookup c results ≡ api c))

  abbrev pub Has : List (Text × EpssScore) → Text → Type 0
  Has results c = lookup c results ≡ api c

  insert_new :
      (s : EpssScore) (results : List (Text × EpssScore)) (c : Text)
      → api s.cve ≡ some s
      → (s.cve == c) ≡ true
      → Has (insert s.cve s results) c
  insert_new s results c e h =
      lookup-insert s.cve c s results ∙ rw h (sym e ∙ ap api ((text_beq_iff s.cve c).0 h))

  insert-Has :
      (s : EpssScore) (results : List (Text × EpssScore)) (c : Text)
      → api s.cve ≡ some s
      → Has results c
      → Has (insert s.cve s results) c
  insert-Has s results c e h = elim (Bool-cases (s.cve == c)) [
    | inl k ↦ insert_new s results c e k
    | inr k ↦ lookup-insert s.cve c s results ∙ rw k h
  ]

  store-Has :
      (ss : List EpssScore) (results : List (Text × EpssScore)) (c : Text)
      → All (λ s. api s.cve ≡ some s) ss
      → (any (λ s. s.cve == c) ss ≡ true) ⊎ Has results c
      → Has (store_scores ss results) c
  unfolding store_scores
  store-Has [] results c a (inl h) = absurd (ground (arith, h))
  store-Has [] results c a (inr h) = h
  store-Has (s ∷ ss) results c a (inr h) =
      store-Has ss (insert s.cve s results) c a.1 (inr (insert-Has s results c a.0 h))
  store-Has (s ∷ ss) results c a (inl h) = elim (Bool-cases (s.cve == c)) [
    | inl k ↦ store-Has ss (insert s.cve s results) c a.1 (inr (insert_new s results c a.0 k))
    | inr k ↦ store-Has ss (insert s.cve s results) c a.1 (inl (ground (arith, h, k)))
  ]

  insert-IsSound :
      (s : EpssScore) (results : List (Text × EpssScore))
      → api s.cve ≡ some s
      → IsSound results
      → IsSound (insert s.cve s results)
  insert-IsSound s results e (m, f) = (
    insert-IsMap s.cve s results m,
    λ c. elim (Bool-cases (s.cve == c)) [
      | inl k ↦ inr (insert_new s results c e k)
      | inr k ↦ elim (f c) [
        | inl n ↦ inl (lookup-insert s.cve c s results ∙ rw k n)
        | inr h ↦ inr (insert-Has s results c e h)
      ]
    ],
  )

  store-IsSound :
      (ss : List EpssScore) (results : List (Text × EpssScore))
      → All (λ s. api s.cve ≡ some s) ss
      → IsSound results
      → IsSound (store_scores ss results)
  unfolding store_scores
  store-IsSound [] results a i = i
  store-IsSound (s ∷ ss) results a i =
      store-IsSound ss (insert s.cve s results) a.1 (insert-IsSound s results a.0 i)

  -- The scores that come for a batch are the service's, and there is one for each id of the batch
  -- that the service knows.
  abbrev pub IsAnswer : List Text → List EpssScore → Type 0
  IsAnswer batch ss =
      All (λ s. api s.cve ≡ some s) ss
      × All (λ c. (api c ≡ none) ⊎ (any (λ s. s.cve == c) ss ≡ true)) batch

  batch-Has :
      (batch : List Text) (ss : List EpssScore) (results : List (Text × EpssScore))
      → All (λ s. api s.cve ≡ some s) ss
      → All (λ c. (api c ≡ none) ⊎ (any (λ s. s.cve == c) ss ≡ true)) batch
      → IsSound results
      → All (Has (store_scores ss results)) batch
  batch-Has [] ss results a k i = tt
  batch-Has (c ∷ batch) ss results a k i = (one k.0, batch-Has batch ss results a k.1 i)
    where
      unknown :
          (lookup c results ≡ none) ⊎ (lookup c results ≡ api c) → api c ≡ none → Has results c
      unknown (inl m) n = m ∙ sym n
      unknown (inr h) n = h

      one : (api c ≡ none) ⊎ (any (λ s. s.cve == c) ss ≡ true) → Has (store_scores ss results) c
      one (inl n) = store-Has ss results c a (inr (unknown (i.1 c) n))
      one (inr h) = store-Has ss results c a (inl h)

  module _ (answer : ℕ → Text → Option Text) (unmarshal : Text → Option (List EpssScore)) where
    -- Every request, from the i-th on, is answered.
    abbrev pub Served : ℕ → List (List Text) → Type 0
    Served i [] = Unit
    Served i (batch ∷ rest) =
        ((body : Text) × (ss : List EpssScore) × (answer i (batch_url batch) ≡ some body)
          × (unmarshal body ≡ some ss)
          × IsAnswer batch ss)
        × Served (i + 1) rest

    abbrev pub Completes : List (Text × EpssScore) → List (Text × EpssScore) → List Text → Type 0
    Completes before after ids =
        IsSound after × ((c : Text) → Has before c → Has after c) × All (Has after) ids

    all-append :
        (r : List (Text × EpssScore)) (xs ys : List Text)
        → All (Has r) xs
        → All (Has r) ys
        → All (Has r) (xs ++ ys)
    all-append r [] ys a b = b
    all-append r (x ∷ xs) ys a b = (a.0, all-append r xs ys a.1 b)

    all_later :
        (r r' : List (Text × EpssScore)) (xs : List Text)
        → ((c : Text) → Has r c → Has r' c)
        → All (Has r) xs
        → All (Has r') xs
    all_later r r' [] k a = tt
    all_later r r' (x ∷ xs) k a = (k x a.0, all_later r r' xs k a.1)

    batch_stored :
        (i : ℕ) (batch : List Text) (results : List (Text × EpssScore)) (body : Text)
        (ss : List EpssScore)
        → answer i (batch_url batch) ≡ some body
        → unmarshal body ≡ some ss
        → fetch_batch answer unmarshal i batch results ≡ (store_scores ss results, none)
    unfolding fetch_batch
    batch_stored i batch results body ss e f = rw (fetch_batch, e, f) refl

    pub fetch_loop-Completes :
        (ts : ℕ → Times) (i : ℕ) (bs : List (List Text)) (b : Breaker)
        (results : List (Text × EpssScore))
        → IsUp b
        → IsSound results
        → Served i bs
        → Completes results (fetch_loop answer unmarshal ts i bs b results).1 (concat bs)
    unfolding fetch_loop
    fetch_loop-Completes ts i [] b results u s d = (s, (λ c h. h), tt)
    fetch_loop-Completes ts i (batch ∷ rest) b results u s ((body, ss, e, f, a), d) =
        let fn = fetch_batch answer unmarshal i batch in
        let stored = batch_stored i batch results body ss e f in
        let fine = ap (λ x. x.1) stored in
        let x = execute fn (ts i) b results in
        let made = (up_call fn (ts i) b results u fine).1 ∙ ap (λ x. x.0) stored in
        let sound = subst IsSound (sym made) (store-IsSound ss results a.0 s) in
        let (s', k, h) =
          fetch_loop-Completes ts (i + 1) rest x.0 x.1 (call-IsUp fn (ts i) b results u fine) sound
            d in
        let after = (fetch_loop answer unmarshal ts (i + 1) rest x.0 x.1).1 in
        let has =
          subst (λ r. All (Has r) batch) (sym made) (batch-Has batch ss results a.0 a.1 s) in
        (
          s',
          (λ c j. k c (subst (λ r. Has r c) (sym made) (store-Has ss results c a.0 (inr j)))),
          all-append after batch (concat rest) (all_later x.1 after batch k has) h,
        )
