-- ===== src/Breaker/HalfOpen.antt =====
-- What the half-open state lets through, and a probe slot that is not given back
-- (backend/breaker/breaker.go).
use seagles.Common.{ℕ, ◌+◌, ◌^◌, ◌<◌, ◌≡◌, ◌≢◌, false, true, some, arith}
use seagles.Breaker.{Breaker, state_half_open, state_open, refused, admitted, enter, leave}
use seagles.Clock.{since}

-- In the half-open state every call is let through: `Execute` gates the open state only.
pub half_open_admits :
    (now now' : ℕ) (b : Breaker)
    → b.state ≡ state_half_open
    → enter now now' b ≡ (b, admitted false)
unfolding enter
half_open_admits now now' b h = ground arith

-- The probe of an open breaker whose failure counter is at least two below the limit, as after a
-- late success has reset it, leaves the breaker half-open, not open, when it fails: calls are then
-- let through again without a limit.
pub failed_probe_half_open {ℓ} :
    {E : Type ℓ} (now later : ℕ) (b : Breaker) (e : E)
    → b.state ≡ state_open
    → b.probing ≡ 0
    → b.reset_timeout < since now b.last_failure
    → b.failures + 1 < b.max_failures
    → b.max_failures < 2 ^ 31
    → let b' = leave later true (some e) (enter now now b).0 in
      (b'.state ≡ state_half_open) × ((t t' : ℕ) → enter t t' b' ≡ (b', admitted false))
unfolding enter leave
failed_probe_half_open now later b e o p t f m =
    (ground arith, λ u u'. half_open_admits u u' _ (ground arith))

-- While the state is open and the probe slot is taken every call is refused, and changes nothing: if
-- no call is left that would give the slot back, the breaker stays open for ever.
pub taken_slot_refuses :
    (now now' : ℕ) (b : Breaker)
    → b.state ≡ state_open
    → b.probing ≢ 0
    → enter now now' b ≡ (b, refused)
unfolding enter
taken_slot_refuses now now' b o p = ground (arith, o, p)
