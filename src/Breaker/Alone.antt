-- ===== src/Breaker/Alone.antt =====
-- A call of `Execute` that no other call disturbs (backend/breaker/breaker.go): its single operations
-- come to what `enter` and `leave` do at once.
use seagles.Common.{
  ℕ, zero, suc, refl, ap, ◌∙◌, ltb, nat_beq, ◌≡◌, Bool, true, false, Option, none, some, arith,
  if◌then◌else◌, Bool-cases, inl, inr,
}
use seagles.Breaker.{
  Breaker, Times, Gate, state_closed, state_half_open, state_open, is_state, int32, int32_ge,
  set_state, check_failures, enter, leave, admitted, refused, Error, err_circuit_open, execute,
}
use seagles.Clock.{since}
use seagles.Breaker.Atomic.{Shared, Pc, load_state, lock, call_fn, release, returned, step, run}

abbrev unlocked : Breaker → Shared
unlocked b = record { breaker = b; locked = false }

abbrev gate_pc : Gate → Pc
gate_pc refused = returned true
gate_pc (admitted h) = call_fn h

abbrev error_of : Bool → Option Bool
error_of fails = if fails then some true else none

leave_part :
    (ts : Times) (fails h : Bool) (b : Breaker)
    → run ts fails 7 (unlocked b, release h fails)
      ≡ (unlocked (leave ts.exit h (error_of fails) b), returned false)
unfolding run step leave
leave_part ts true h b = ground arith
leave_part ts false h b = ground arith

-- What the section under the mutex does.
locked_part :
    (ts : Times) (fails h : Bool) (b : Breaker)
    → (n : ℕ) × (run ts fails n (unlocked b, lock h)
        ≡ (unlocked (check_failures ts.locked h b).0, gate_pc (check_failures ts.locked h b).1))
unfolding run step check_failures
locked_part ts fails h b = elim (Bool-cases (int32_ge b.failures (int32 b.max_failures))) [
  | inr e ↦ (3, ground (arith, e))
  | inl e ↦ elim (Bool-cases (is_state b.state state_closed)) [
    | inl c ↦ (7, ground (arith, e, c))
    | inr c ↦ (4, ground (arith, e, c))
  ]
]

-- What a call does up to the call of `fn`, or up to its return if it is refused.
enter_part :
    (ts : Times) (fails : Bool) (b : Breaker)
    → (n : ℕ) × (run ts fails n (unlocked b, load_state)
        ≡ (unlocked (enter ts.entry ts.locked b).0, gate_pc (enter ts.entry ts.locked b).1))
unfolding run step enter
enter_part ts fails b = elim (Bool-cases (is_state b.state state_open)) [
  | inr o ↦ let (n, e) = locked_part ts fails false b in (suc n, ground (arith, o, e))
  | inl o ↦ elim (Bool-cases (ltb b.reset_timeout (since ts.entry b.last_failure))) [
    | inr t ↦ (2, ground (arith, o, t))
    | inl t ↦ elim (Bool-cases (nat_beq b.probing 0)) [
      | inr p ↦ (3, ground (arith, o, t, p))
      | inl p ↦
          let (n, e) =
            locked_part ts fails true (set_state state_half_open (record b { probing = 1 })) in
          (suc (suc (suc (suc (suc n)))), ground (arith, o, t, p, e))
    ]
  ]
]

abbrev plus : ℕ → ℕ → ℕ
plus zero n = n
plus (suc m) n = suc (plus m n)

run-plus :
    (ts : Times) (fails : Bool) (m n : ℕ) (x : Shared × Pc)
    → run ts fails (plus m n) x ≡ run ts fails n (run ts fails m x)
unfolding run
run-plus ts fails zero n x = refl
run-plus ts fails (suc m) n (s, pc) = run-plus ts fails m n (step ts fails pc s)

-- A function that fails or does not, and has no state.
abbrev pub outcome : Bool → Bool → Bool × Option Bool
outcome fails w = (w, error_of fails)

abbrev pub is_refusal : Option (Error Bool) → Bool
is_refusal (some err_circuit_open) = true
is_refusal _ = false

abbrev executed : Bool → Times → Breaker → Bool → Shared × Pc
executed fails ts b w =
    let (b', w', e) = execute (outcome fails) ts b w in (unlocked b', returned (is_refusal e))

after_gate :
    (ts : Times) (fails : Bool) (b : Breaker) (w : Bool) (g : Gate)
    → (enter ts.entry ts.locked b).1 ≡ g
    → (n : ℕ) × (run ts fails n (unlocked (enter ts.entry ts.locked b).0, gate_pc g)
        ≡ executed fails ts b w)
unfolding execute
after_gate ts fails b w refused e = (0, unfold run in rw (execute, e) refl)
after_gate ts true b w (admitted h) e =
    (8, unfold run step in leave_part ts true h _ ∙ rw (execute, e) refl)
after_gate ts false b w (admitted h) e =
    (8, unfold run step in leave_part ts false h _ ∙ rw (execute, e) refl)

-- If no other call disturbs it, a call of `Execute` returns after finitely many operations, with the
-- mutex free, and has then done what `execute` does at once, the refusal included.
pub execute_alone :
    (ts : Times) (fails : Bool) (b : Breaker) (w : Bool)
    → (n : ℕ) × (run ts fails n (unlocked b, load_state) ≡ executed fails ts b w)
execute_alone ts fails b w =
    let (m, e) = enter_part ts fails b in
    let (n, f) = after_gate ts fails b w (enter ts.entry ts.locked b).1 refl in
    (plus m n, run-plus ts fails m n (unlocked b, load_state) ∙ (ap (run ts fails n) e ∙ f))
