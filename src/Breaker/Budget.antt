-- ===== src/Breaker/Budget.antt =====
-- How often a failing dependency is called (backend/breaker/breaker.go).
use seagles.Common.{ℕ, ◌+◌, ◌-◌, ◌≤◌, ◌≡◌, ◌≢◌, Option, none, arith, List, [], ◌∷◌, All}
use seagles.Breaker.{
  Breaker, State, state_closed, state_open, Times, Gate, refused, admitted, enter, leave, execute,
}
use seagles.Breaker.Sequential.{Inv}

abbrev gate_calls : Gate → ℕ
gate_calls refused = 0
gate_calls (admitted p) = 1

-- The calls lie between `start` and the end of one reset timeout after it.
abbrev pub InWindow : ℕ → ℕ → Times → Type 0
InWindow start timeout ts = (ts.entry ≤ start + timeout) × (start ≤ ts.locked) × (start ≤ ts.exit)

module _ {ℓ κ} {W : Type ℓ} {E : Type κ} (fn : W → W × Option E) where
  -- How many of a sequence of `Execute`s reach `fn`.
  unfoldable pub calls : List Times → Breaker → W → ℕ
  calls [] b w = 0
  calls (ts ∷ tss) b w =
      gate_calls (enter ts.entry ts.locked b).1
      + calls tss (execute fn ts b w).0 (execute fn ts b w).1

abbrev spare_of : State → Breaker → ℕ
spare_of state_closed b = b.max_failures - b.failures
spare_of _ b = 0

record Outage (start timeout : ℕ) (b : Breaker) : Type 0 where
  inv : Inv b
  window : b.reset_timeout ≡ timeout
  capped : b.failures ≤ b.max_failures
  recent : b.state ≡ state_open → start ≤ b.last_failure

module _ {ℓ κ} {W : Type ℓ} {E : Type κ} (fn : W → W × Option E) where
  step_Outage :
      (start timeout : ℕ) (ts : Times) (b : Breaker) (w : W)
      → (fn w).1 ≢ none
      → InWindow start timeout ts
      → Outage start timeout b
      → Outage start timeout (execute fn ts b w).0
  unfolding execute enter leave
  step_Outage start timeout ts b w f i o = ground arith

  step_spare :
      (start timeout : ℕ) (ts : Times) (b : Breaker) (w : W)
      → (fn w).1 ≢ none
      → InWindow start timeout ts
      → Outage start timeout b
      → let b' = (execute fn ts b w).0 in
        gate_calls (enter ts.entry ts.locked b).1 + spare_of b'.state b' ≤ spare_of b.state b
  unfolding execute enter leave
  step_spare start timeout ts b w f i o = ground arith

  calls-le-spare :
      (start timeout : ℕ) (tss : List Times) (b : Breaker) (w : W)
      → ((v : W) → (fn v).1 ≢ none)
      → All (InWindow start timeout) tss
      → Outage start timeout b
      → calls fn tss b w ≤ spare_of b.state b
  unfolding calls
  calls-le-spare start timeout [] b w f i o = omega arith
  calls-le-spare start timeout (ts ∷ tss) b w f i o = omega (
    arith,
    step_spare start timeout ts b w (f w) i.0 o,
    calls-le-spare start timeout tss (execute fn ts b w).0 (execute fn ts b w).1 f i.1
        (step_Outage start timeout ts b w (f w) i.0 o),
  )

  -- From a closed breaker that satisfies its invariant, a dependency that always fails is called
  -- at most `maxFailures` times by `Execute`s that lie within one reset timeout, however many of
  -- them are made one after the other.
  pub calls-le-max_failures :
      (start : ℕ) (tss : List Times) (b : Breaker) (w : W)
      → ((v : W) → (fn v).1 ≢ none)
      → All (InWindow start b.reset_timeout) tss
      → Inv b
      → b.state ≡ state_closed
      → calls fn tss b w ≤ b.max_failures
  calls-le-max_failures start tss b w f i v c =
      ground (arith, calls-le-spare start b.reset_timeout tss b w f i opening)
    where
      opening : Outage start b.reset_timeout b
      opening = ground arith
