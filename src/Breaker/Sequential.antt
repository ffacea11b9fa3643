-- ===== src/Breaker/Sequential.antt =====
-- `Execute` called by one goroutine at a time (backend/breaker/breaker.go).
use seagles.Common.{◌+◌, ◌^◌, ◌≤◌, ◌<◌, ◌≡◌, ◌≢◌, Option, arith}
use seagles.Breaker.{
  Breaker, Options, state_closed, state_half_open, state_open, Times, new, enter, leave, execute,
  reset,
}

-- What holds between two calls.
pub record Inv (b : Breaker) : Type 0 where
  pub max_pos : 0 < b.max_failures
  pub max_small : b.max_failures < 2 ^ 31
  pub idle : b.probing ≡ 0
  pub settled : b.state ≢ state_half_open
  pub closed_below : b.state ≡ state_closed → b.failures < b.max_failures
  pub open_above : b.state ≡ state_open → b.max_failures ≤ b.failures

-- A new breaker satisfies the invariant, whatever the options, as long as the failure limit fits
-- an `int32`.
pub new-Inv : (opts : Options) → (new opts).max_failures < 2 ^ 31 → Inv (new opts)
unfolding new
new-Inv opts h = ground arith

pub reset-Inv : (b : Breaker) → Inv b → Inv (reset b)
unfolding reset
reset-Inv b v = ground arith

-- Between two sequential calls the breaker is never half-open and holds no probe slot, it is
-- closed only below the failure limit and open only at or above it; `Execute` keeps this, if one
-- more failure still fits the `int32` counter.
pub execute-Inv {ℓ κ} :
    {W : Type ℓ} {E : Type κ} (fn : W → W × Option E) (ts : Times) (b : Breaker) (w : W)
    → Inv b
    → b.failures + 1 < 2 ^ 31
    → Inv (execute fn ts b w).0
unfolding execute enter leave
execute-Inv fn ts b w v h = ground arith
