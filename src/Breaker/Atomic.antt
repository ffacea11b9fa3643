-- ===== src/Breaker/Atomic.antt =====
-- `Execute` of backend/breaker/breaker.go, one atomic operation after the other. Each load, store,
-- addition and swap is a step, and so are taking and releasing the mutex and the call of `fn`;
-- `setState` loads the old state and then stores the new one, with the callback at the store.
use seagles.Common.{ℕ, zero, suc, ◌+◌, Bool, true, false, ltb, nat_beq, if◌then◌else◌}
use seagles.Breaker.{
  Breaker, State, state_closed, state_half_open, state_open, is_state, set_state, int32, int32_ge,
  Times,
}
use seagles.Clock.{since}

-- The breaker and its mutex.
pub record Shared : Type 0 where
  pub breaker : Breaker
  pub locked : Bool

-- Where a call of `setState` returns to.
pub data Caller : Type 0 where
  to_probe : Caller
  to_trip : Bool → Caller
  to_fail to_pass : Caller

-- The operation that a call of `Execute` does next. The flag is `wasHalfOpen`, the one of `release`
-- is followed by whether `fn` failed; `returned` says whether the call was refused.
pub data Pc : Type 0 where
  load_state load_last_failure swap_probing : Pc
  load_old : State → Caller → Pc
  store_state : State → State → Caller → Pc
  lock load_failures load_closed store_trip unlock_refused unlock call_fn : Bool → Pc
  release : Bool → Bool → Pc
  add_failure store_failure load_limit : Pc
  load_half_open clear_failures : Pc
  returned : Bool → Pc

abbrev pub resume : Caller → Pc
resume to_probe = lock true
resume (to_trip h) = store_trip h
resume to_fail = returned false
resume to_pass = clear_failures

abbrev pub at_breaker : (Breaker → Breaker) → Shared → Shared
at_breaker f s = record s { breaker = f s.breaker }

-- The callback gets the state that was loaded, not the one that the store replaces.
abbrev pub store_over : State → State → Breaker → Breaker
store_over old new b = set_state new (record b { state = old })

-- One operation; `fails` is how `fn` ends, should this be its call.
unfoldable pub step : Times → (fails : Bool) → Pc → Shared → Shared × Pc
unfolding set_state
step ts fails load_state s =
    (s, if is_state s.breaker.state state_open then load_last_failure else lock false)
step ts fails load_last_failure s = (
  s,
  if ltb s.breaker.reset_timeout (since ts.entry s.breaker.last_failure)
      then swap_probing
      else returned true,
)
step ts fails swap_probing s =
    if nat_beq s.breaker.probing 0
    then (at_breaker (λ b. record b { probing = 1 }) s, load_old state_half_open to_probe)
    else (s, returned true)
step ts fails (load_old new k) s = (s, store_state s.breaker.state new k)
step ts fails (store_state old new k) s = (at_breaker (store_over old new) s, resume k)
step ts fails (lock h) s =
    if s.locked then (s, lock h) else (record s { locked = true }, load_failures h)
step ts fails (load_failures h) s = (
  s,
  if int32_ge s.breaker.failures (int32 s.breaker.max_failures) then load_closed h else unlock h,
)
step ts fails (load_closed h) s =
    (s, if is_state s.breaker.state state_closed then load_old state_open (to_trip h) else unlock h)
step ts fails (store_trip h) s =
    (at_breaker (λ b. record b { last_failure = ts.locked }) s, unlock_refused h)
step ts fails (unlock_refused h) s = (record s { locked = false }, returned true)
step ts fails (unlock h) s = (record s { locked = false }, call_fn h)
step ts fails (call_fn h) s = (s, release h fails)
step ts fails (release h e) s = (
  if h then at_breaker (λ b. record b { probing = 0 }) s else s,
  if e then add_failure else load_half_open,
)
step ts fails add_failure s =
    (at_breaker (λ b. record b { failures = int32 (b.failures + 1) }) s, store_failure)
step ts fails store_failure s =
    (at_breaker (λ b. record b { last_failure = ts.exit }) s, load_limit)
step ts fails load_limit s = (
  s,
  if int32_ge s.breaker.failures (int32 s.breaker.max_failures)
      then load_old state_open to_fail
      else returned false,
)
step ts fails load_half_open s = (
  s,
  if is_state s.breaker.state state_half_open
      then load_old state_closed to_pass
      else clear_failures,
)
step ts fails clear_failures s = (at_breaker (λ b. record b { failures = 0 }) s, returned false)
step ts fails (returned r) s = (s, returned r)

-- A number of operations of one call.
unfoldable pub run : Times → (fails : Bool) → ℕ → Shared × Pc → Shared × Pc
unfolding step
run ts fails zero x = x
run ts fails (suc n) (s, pc) = run ts fails n (step ts fails pc s)
