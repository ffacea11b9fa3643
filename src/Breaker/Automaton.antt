-- ===== src/Breaker/Automaton.antt =====
-- The two-phase automaton that a circuit breaker promises, and `Execute` as an implementation of it
-- (backend/breaker/breaker.go).
use seagles.Common.{ℕ, ◌+◌, ◌^◌, ◌<◌, ◌≡◌, Option, none, some, arith, ltb, leb, if◌then◌else◌}
use seagles.Breaker.{
  Breaker, State, state_closed, Times, Error, err_circuit_open, enter, leave, execute, wrap,
}
use seagles.Breaker.Sequential.{Inv}
use seagles.Clock.{since}

-- `up n`: calls go through, and the last `n` of them failed. `down t`: calls are refused since a
-- failure at `t`.
pub data Phase : Type 0 where
  up down : ℕ → Phase

abbrev phase_of : State → Breaker → Phase
phase_of state_closed b = up b.failures
phase_of _ b = down b.last_failure

abbrev pub phase : Breaker → Phase
phase b = phase_of b.state b

abbrev after_failure : ℕ → ℕ → Phase → Phase
after_failure limit now (up n) = if leb limit (n + 1) then down now else up (n + 1)
after_failure limit now (down t) = down now

abbrev is_up : ℕ → ℕ → Phase → Option ℕ
is_up timeout now (up n) = some n
is_up timeout now (down t) = if ltb timeout (since now t) then some 0 else none

abbrev pub spec_step {ℓ} : {E : Type ℓ} → ℕ → ℕ → Option E → Phase → Phase
spec_step limit now none s = up 0
spec_step limit now (some e) s = after_failure limit now s

-- A call by the automaton: refused with nothing done, or made, with a transition on its outcome.
abbrev pub spec_execute {ℓ κ} :
    {W : Type ℓ} {E : Type κ}
    → ℕ
    → ℕ
    → (W → W × Option E)
    → Times
    → Phase
    → W
    → Phase × W × Option (Error E)
spec_execute limit timeout fn ts s w = elim (is_up timeout ts.entry s) [
  | none ↦ (s, w, some err_circuit_open)
  | some _ ↦ (spec_step limit ts.exit (fn w).1 s, (fn w).0, wrap (fn w).1)
]

-- A breaker that satisfies its invariant behaves as the automaton: the same phase afterwards, the
-- same effects of `fn` (none where the call is refused) and the same error returned, if one more
-- failure still fits the `int32` counter.
pub execute_refines {ℓ κ} :
    {W : Type ℓ} {E : Type κ} (fn : W → W × Option E) (ts : Times) (b : Breaker) (w : W)
    → Inv b
    → b.failures + 1 < 2 ^ 31
    → let (b', w', e) = execute fn ts b w in
      (phase b', w', e) ≡ spec_execute b.max_failures b.reset_timeout fn ts (phase b) w
unfolding execute enter leave
execute_refines fn ts b w v h = ground arith
