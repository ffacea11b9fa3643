-- ===== src/Breaker.antt =====
-- backend/breaker/breaker.go. `enter` is `Execute` up to the call of `fn`, `leave` is the rest of
-- it after the call, both of one call that no other one disturbs; Atomic has the single operations
-- of calls that run at the same time. Each clock reading is an argument. An `int32` is its bit pattern. The breaker's
-- name is left out: it is only handed to the callback, whose calls are recorded in `notified`.
pub mod Sequential
pub mod Automaton
pub mod Budget
pub mod Up
pub mod Atomic
pub mod Alone
pub mod Concurrent
pub mod HalfOpen
use seagles.Common.{
  ℕ, ◌+◌, ◌*◌, ◌^◌, ◌%◌, Bool, true, false, not, ◌&&◌, Option, none, some, List, [], ◌∷◌, ltb, leb,
  nat_beq, if◌then◌else◌,
}
use seagles.Common.Int.{ℤ, pos, negsuc}
use seagles.Clock.{since, second}

pub data State : Type 0 where
  state_closed state_half_open state_open : State

abbrev pub is_state : State → State → Bool
is_state state_closed state_closed = true
is_state state_half_open state_half_open = true
is_state state_open state_open = true
is_state _ _ = false

pub record Breaker : Type 0 where
  pub max_failures : ℕ
  pub reset_timeout : ℕ
  pub failures : ℕ
  pub last_failure : ℕ
  pub state : State
  pub probing : ℕ
  pub listening : Bool
  pub notified : List (State × State)

pub record Options : Type 0 where
  pub max_failures : ℤ
  pub reset_timeout : ℤ
  pub listening : Bool

abbrev pub int32 : ℕ → ℕ
int32 n = n % 2 ^ 32

-- Signed `a >= b` on bit patterns.
abbrev pub int32_ge : ℕ → ℕ → Bool
int32_ge a b = leb (int32 (b + 2 ^ 31)) (int32 (a + 2 ^ 31))

abbrev positive_or : ℕ → ℤ → ℕ
positive_or d (pos n) = if nat_beq n 0 then d else n
positive_or d (negsuc n) = d

unfoldable pub new : Options → Breaker
new opts = record {
  max_failures = positive_or 5 opts.max_failures;
  reset_timeout = positive_or (30 * second) opts.reset_timeout;
  failures = 0;
  last_failure = 0;
  state = state_closed;
  probing = 0;
  listening = opts.listening;
  notified = [];
}

unfoldable pub set_state : State → Breaker → Breaker
set_state s b = record b {
  state = s;
  notified =
      if b.listening && not (is_state b.state s) then (b.state, s) ∷ b.notified else b.notified;
}

-- What the first part of `Execute` decides; the flag is `wasHalfOpen`.
pub data Gate : Type 0 where
  refused : Gate
  admitted : Bool → Gate

-- The section under the mutex.
unfoldable pub check_failures : ℕ → Bool → Breaker → Breaker × Gate
unfolding set_state
check_failures now was_half_open b =
    if int32_ge b.failures (int32 b.max_failures) && is_state b.state state_closed
    then (record (set_state state_open b) { last_failure = now }, refused)
    else (b, admitted was_half_open)

-- The two times are those of `time.Since` and of `time.Now` under the mutex.
unfoldable pub enter : ℕ → ℕ → Breaker → Breaker × Gate
unfolding check_failures set_state
enter now now' b =
    if is_state b.state state_open
    then (if ltb b.reset_timeout (since now b.last_failure)
        then (if nat_beq b.probing 0
            then check_failures now' true (set_state state_half_open (record b { probing = 1 }))
            else (b, refused))
        else (b, refused))
    else check_failures now' false b

abbrev pub release_probe : Bool → Breaker → Breaker
release_probe was_half_open b = if was_half_open then record b { probing = 0 } else b

unfoldable pub fail_call : ℕ → Breaker → Breaker
unfolding set_state
fail_call now b =
    let b' = record b { failures = int32 (b.failures + 1); last_failure = now } in
    if int32_ge b'.failures (int32 b'.max_failures) then set_state state_open b' else b'

unfoldable pub pass_call : Breaker → Breaker
unfolding set_state
pass_call b =
    let b' = if is_state b.state state_half_open then set_state state_closed b else b in
    record b' { failures = 0 }

unfoldable pub leave {ℓ} : {E : Type ℓ} → ℕ → Bool → Option E → Breaker → Breaker
unfolding fail_call pass_call
leave now was_half_open none b = pass_call (release_probe was_half_open b)
leave now was_half_open (some e) b = fail_call now (release_probe was_half_open b)

pub data Error {ℓ} (E : Type ℓ) : Type ℓ where
  err_circuit_open : Error E
  from_fn : E → Error E

abbrev pub wrap {ℓ} : {E : Type ℓ} → Option E → Option (Error E)
wrap none = none
wrap (some e) = some (from_fn e)

-- The clock readings of one `Execute`, in the order in which they are taken.
pub record Times : Type 0 where
  pub entry : ℕ
  pub locked : ℕ
  pub exit : ℕ

-- `fn` acts on a state `W` of its own; the breaker is not touched while it runs.
unfoldable pub execute {ℓ κ} :
    {W : Type ℓ} {E : Type κ} (fn : W → W × Option E)
    → Times
    → Breaker
    → W
    → Breaker × W × Option (Error E)
execute fn ts b w =
    let (b', gate) = enter ts.entry ts.locked b in
    elim gate [
      | refused ↦ (b', w, some err_circuit_open)
      | admitted was_half_open ↦
          let (w', e) = fn w in (leave ts.exit was_half_open e b', w', wrap e)
    ]

unfoldable pub reset : Breaker → Breaker
unfolding set_state
reset b = record (set_state state_closed (record b { failures = 0; probing = 0 })) {
  last_failure = 0;
}
