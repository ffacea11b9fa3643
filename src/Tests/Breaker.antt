-- ===== src/Tests/Breaker.antt =====
-- A breaker that trips (backend/breaker/breaker.go).
use seagles.Common.{false, ◌++◌, ℕ, suc, ◌≤◌, ◌≡◌, refl, Bool, true, Option, some, [], ◌∷◌, arith}
use seagles.Breaker.{
  set_state, Breaker, state_closed, state_half_open, state_open, Times, enter, leave, execute,
}
use seagles.Breaker.Sequential.{Inv}
use seagles.Breaker.Automaton.{phase, spec_execute, execute_refines}
use seagles.Breaker.Budget.{calls, calls-le-max_failures}
use seagles.Breaker.Atomic.{
  Shared, load_state, load_old, swap_probing, to_probe, release, returned, step, run,
}
use seagles.Breaker.Alone.{outcome, is_refusal, execute_alone}
use seagles.Breaker.Concurrent.{System, move, here, next, OneProbe, Reach-OneProbe}

abbrev pub closed_at : ℕ → ℕ → Breaker
closed_at limit n = record {
  max_failures = limit;
  reset_timeout = 10;
  failures = n;
  last_failure = 0;
  state = state_closed;
  probing = 0;
  listening = true;
  notified = [];
}

abbrev open_at : ℕ → ℕ → Breaker
open_at limit n = record (closed_at limit n) { last_failure = 5; state = state_open }

-- A dependency that counts its calls and always fails.
abbrev fails : ℕ → ℕ × Option Bool
fails w = (suc w, some true)

abbrev pub at_time : ℕ → Times
at_time t = record { entry = t; locked = t; exit = t }

closed_Inv : Inv (closed_at 2 1)
closed_Inv = ground arith

fresh_Inv : Inv (closed_at 2 0)
fresh_Inv = ground arith

execute_refines_example :
    let (b', w', e) = execute fails (at_time 3) (closed_at 2 1) 0 in
    (phase b', w', e) ≡ spec_execute 2 10 fails (at_time 3) (phase (closed_at 2 1)) 0
execute_refines_example =
    execute_refines fails (at_time 3) (closed_at 2 1) 0 closed_Inv (omega arith)

calls-le-max_failures_example :
    calls fails (at_time 3 ∷ at_time 4 ∷ at_time 5 ∷ []) (closed_at 2 0) 0 ≤ 2
calls-le-max_failures_example =
    calls-le-max_failures fails 0 (at_time 3 ∷ at_time 4 ∷ at_time 5 ∷ []) (closed_at 2 0) 0
      (λ v. ground arith) (ground arith) fresh_Inv refl

-- The third call is refused.
calls_run : calls fails (at_time 3 ∷ at_time 4 ∷ at_time 5 ∷ []) (closed_at 2 0) 0 ≡ 2
unfolding calls execute enter leave
calls_run = refl

abbrev unlocked : Breaker → Shared
unlocked b = record { breaker = b; locked = false }

execute_alone_example :
    (n : ℕ) × (run (at_time 20) true n (unlocked (open_at 2 2), load_state) ≡ (
      let (b', w', e) = execute (outcome true) (at_time 20) (open_at 2 2) true in
      (unlocked b', returned (is_refusal e))))
execute_alone_example = execute_alone (at_time 20) true (open_at 2 2) true

-- What a number of operations of one of two calls does to the breaker and to them.
abbrev first : (fails : Bool) → ℕ → System → System
first fails n s = elim s.calls [
  | [] ↦ s
  | p ∷ rest ↦
      let (shared, p') = run (at_time 20) fails n (s.shared, p) in
      record { shared = shared; calls = p' ∷ rest }
]

abbrev turn : System → System
turn s = elim s.calls [ [] ↦ s | p ∷ rest ↦ record s { calls = rest ++ (p ∷ []) } ]

-- A late call passes beside a probe: it sets the state to closed and has not yet cleared the
-- failures when the probe looks at them, so that the probe is refused and keeps the slot.
abbrev late : System
late = record { shared = unlocked (open_at 2 2); calls = load_state ∷ release false false ∷ [] }

abbrev leaked : System
leaked = first false 1 (turn (first false 9 (turn (first false 4 (turn (first false 5 late))))))

slot_leaks :
    (leaked.calls ≡ returned false ∷ returned true ∷ [])
    × (leaked.shared.breaker.state ≡ state_open)
    × (leaked.shared.breaker.probing ≡ 1)
unfolding run step set_state
slot_leaks = (refl, refl, refl)

-- Two calls that are both about to take the probe slot: the first one gets it.
abbrev rivals : System
rivals = record { shared = unlocked (open_at 2 0); calls = swap_probing ∷ swap_probing ∷ [] }

abbrev taken : Shared
taken = (step (at_time 20) true swap_probing rivals.shared).0

Reach-OneProbe_example :
    OneProbe
      (record { shared = taken; calls = load_old state_half_open to_probe ∷ returned true ∷ [] })
unfolding step
Reach-OneProbe_example =
    Reach-OneProbe (record { held = omega arith; single = omega arith; exclusive = refl })
      (next (next here (move rivals (at_time 20) true [] (swap_probing ∷ []) swap_probing refl)) (
        move
          (record { shared = taken; calls = load_old state_half_open to_probe ∷ swap_probing ∷ [] })
          (at_time 20) true (load_old state_half_open to_probe ∷ []) [] swap_probing refl))
