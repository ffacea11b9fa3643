-- ===== src/Breaker/Up.antt =====
-- Calls that succeed through a breaker that is closed (backend/breaker/breaker.go).
use seagles.Common.{◌≡◌, Option, none, arith}
use seagles.Breaker.{Breaker, Times, state_closed, execute, enter, leave}
use seagles.Breaker.Sequential.{Inv, execute-Inv}

-- A breaker that lets the next calls through.
abbrev pub IsUp : Breaker → Type 0
IsUp b = Inv b × (b.state ≡ state_closed)

pub up_call {ℓ κ} :
    {W : Type ℓ} {E : Type κ} (fn : W → W × Option E) (ts : Times) (b : Breaker) (w : W)
    → IsUp b
    → (fn w).1 ≡ none
    → ((execute fn ts b w).0.state ≡ state_closed) × ((execute fn ts b w).1 ≡ (fn w).0)
unfolding execute enter leave
up_call fn ts b w (v, s) h = ground (arith, v.closed_below s)

pub call-IsUp {ℓ κ} :
    {W : Type ℓ} {E : Type κ} (fn : W → W × Option E) (ts : Times) (b : Breaker) (w : W)
    → IsUp b
    → (fn w).1 ≡ none
    → IsUp (execute fn ts b w).0
call-IsUp fn ts b w (v, s) h = (
  execute-Inv fn ts b w v (omega (arith, v.closed_below s, v.max_small)),
  (up_call fn ts b w (v, s) h).0,
)

-- Where the function succeeds no error is returned.
pub up_call_error {ℓ κ} :
    {W : Type ℓ} {E : Type κ} (fn : W → W × Option E) (ts : Times) (b : Breaker) (w : W)
    → IsUp b
    → (fn w).1 ≡ none
    → (execute fn ts b w).2 ≡ none
unfolding execute enter leave
up_call_error fn ts b w (v, s) h = ground (arith, v.closed_below s)
