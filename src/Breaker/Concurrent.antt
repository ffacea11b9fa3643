-- ===== src/Breaker/Concurrent.antt =====
-- `Execute` called by many goroutines (backend/breaker/breaker.go): the single operations of
-- different calls interleave in any order.
use seagles.Common.{ℕ, ◌+◌, ◌≤◌, ◌≡◌, ap, Bool, List, [], ◌∷◌, ◌++◌, arith, if◌then◌else◌}
use seagles.Breaker.{Times}
use seagles.Breaker.Atomic.{
  Shared, Pc, Caller, to_probe, to_trip, to_fail, to_pass, load_state, load_last_failure,
  swap_probing, load_old, store_state, lock, load_failures, load_closed, store_trip, unlock_refused,
  unlock, call_fn, release, add_failure, store_failure, load_limit, load_half_open, clear_failures,
  returned, step,
}

-- The calls of `Execute` that have been started.
pub record System : Type 0 where
  pub shared : Shared
  pub calls : List Pc

-- A call is started, or any one of those that have been started does its next operation.
pub data Step : System → System → Type 0 where
  start : (s : System) → Step s (record s { calls = load_state ∷ s.calls })
  move :
      (s : System) (ts : Times) (fails : Bool) (before after : List Pc) (pc : Pc)
      → s.calls ≡ before ++ (pc ∷ after)
      → Step s (record {
        shared = (step ts fails pc s.shared).0;
        calls = before ++ ((step ts fails pc s.shared).1 ∷ after);
      })

pub data Reach (s : System) : System → Type 0 where
  here : Reach s s
  next : {t u : System} → Reach s t → Step t u → Reach s u

abbrev flag : Bool → ℕ
flag h = if h then 1 else 0

abbrev caller_holds : Caller → ℕ
caller_holds to_probe = 1
caller_holds (to_trip h) = flag h
caller_holds _ = 0

-- Whether a call holds the probe slot: from its swap to its release or return.
abbrev pub holds : Pc → ℕ
holds (load_old new k) = caller_holds k
holds (store_state old new k) = caller_holds k
holds (lock h) = flag h
holds (load_failures h) = flag h
holds (load_closed h) = flag h
holds (store_trip h) = flag h
holds (unlock_refused h) = flag h
holds (unlock h) = flag h
holds (call_fn h) = flag h
holds (release h e) = flag h
holds _ = 0

-- Whether a call is in the section under the mutex.
abbrev pub inside : Pc → ℕ
inside (load_old new (to_trip h)) = 1
inside (store_state old new (to_trip h)) = 1
inside (load_failures h) = 1
inside (load_closed h) = 1
inside (store_trip h) = 1
inside (unlock_refused h) = 1
inside (unlock h) = 1
inside _ = 0

abbrev pub total : (Pc → ℕ) → List Pc → ℕ
total w [] = 0
total w (pc ∷ pcs) = w pc + total w pcs

total-middle :
    (w : Pc → ℕ) (before : List Pc) (pc : Pc) (after : List Pc)
    → total w (before ++ (pc ∷ after)) ≡ w pc + total w (before ++ after)
total-middle w [] pc after = omega arith
total-middle w (p ∷ ps) pc after = omega (arith, total-middle w ps pc after)

pub record OneProbe (s : System) : Type 0 where
  pub held : total holds s.calls ≤ s.shared.breaker.probing
  pub single : s.shared.breaker.probing ≤ 1
  pub exclusive : total inside s.calls ≡ flag s.shared.locked

-- One operation, beside calls that hold the slot `n` times and are `m` in the section.
step-OneProbe :
    (ts : Times) (fails : Bool) (pc : Pc) (s : Shared) (n m : ℕ)
    → holds pc + n ≤ s.breaker.probing
    → s.breaker.probing ≤ 1
    → inside pc + m ≡ flag s.locked
    → let (s', pc') = step ts fails pc s in
      (holds pc' + n ≤ s'.breaker.probing)
      × (s'.breaker.probing ≤ 1)
      × (inside pc' + m ≡ flag s'.locked)
unfolding step
step-OneProbe ts fails load_state s n m h k l = ground arith
step-OneProbe ts fails load_last_failure s n m h k l = ground arith
step-OneProbe ts fails swap_probing s n m h k l = ground arith
step-OneProbe ts fails (load_old new to_probe) s n m h k l = ground arith
step-OneProbe ts fails (load_old new (to_trip b)) s n m h k l = ground arith
step-OneProbe ts fails (load_old new to_fail) s n m h k l = ground arith
step-OneProbe ts fails (load_old new to_pass) s n m h k l = ground arith
step-OneProbe ts fails (store_state old new to_probe) s n m h k l = ground arith
step-OneProbe ts fails (store_state old new (to_trip b)) s n m h k l = ground arith
step-OneProbe ts fails (store_state old new to_fail) s n m h k l = ground arith
step-OneProbe ts fails (store_state old new to_pass) s n m h k l = ground arith
step-OneProbe ts fails (lock b) s n m h k l = ground arith
step-OneProbe ts fails (load_failures b) s n m h k l = ground arith
step-OneProbe ts fails (load_closed b) s n m h k l = ground arith
step-OneProbe ts fails (store_trip b) s n m h k l = ground arith
step-OneProbe ts fails (unlock_refused b) s n m h k l = ground arith
step-OneProbe ts fails (unlock b) s n m h k l = ground arith
step-OneProbe ts fails (call_fn b) s n m h k l = ground arith
step-OneProbe ts fails (release b e) s n m h k l = ground arith
step-OneProbe ts fails add_failure s n m h k l = ground arith
step-OneProbe ts fails store_failure s n m h k l = ground arith
step-OneProbe ts fails load_limit s n m h k l = ground arith
step-OneProbe ts fails load_half_open s n m h k l = ground arith
step-OneProbe ts fails clear_failures s n m h k l = ground arith
step-OneProbe ts fails (returned r) s n m h k l = ground arith

Step-OneProbe : {s t : System} → Step s t → OneProbe s → OneProbe t
Step-OneProbe (start s) v = record {
  held = ground (arith, v.held);
  single = v.single;
  exclusive = ground (arith, v.exclusive);
}
Step-OneProbe (move s ts fails before after pc q) v =
    let rest = before ++ after in
    let (h, k, l) =
      step-OneProbe ts fails pc s.shared (total holds rest) (total inside rest)
        (omega (arith, total-middle holds before pc after, ap (total holds) q, v.held)) v.single
        (omega (arith, total-middle inside before pc after, ap (total inside) q, v.exclusive)) in
    let pc' = (step ts fails pc s.shared).1 in
    record {
      held = omega (arith, h, total-middle holds before pc' after);
      single = k;
      exclusive = omega (arith, l, total-middle inside before pc' after);
    }

-- Whatever the interleaving of the single operations of any number of calls, as long as `Reset` is
-- not called: at most one call holds the half-open probe slot, the slot is taken as long as one
-- does, and at most one call is in the section under the mutex, exactly when that is locked.
pub Reach-OneProbe : {s t : System} → OneProbe s → Reach s t → OneProbe t
Reach-OneProbe v here = v
Reach-OneProbe v (next r st) = Step-OneProbe st (Reach-OneProbe v r)
