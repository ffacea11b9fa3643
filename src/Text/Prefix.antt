-- ===== src/Text/Prefix.antt =====
-- What the tests for a prefix and a suffix decide.
use seagles.Common.{
  ℕ, ◌≡◌, refl, ap, true, false, some, [], ◌∷◌, ◌++◌, arith, nat_beq_iff, length, length-append,
  Bool-cases, inl, inr, Option-cases,
}
use seagles.Text.{Text, text_beq, text_beq_iff, has_prefix, strip_suffix}

pub has_prefix_sound : (s p : Text) → has_prefix s p ≡ true → (r : Text) × (s ≡ p ++ r)
unfolding has_prefix
has_prefix_sound s [] h = (s, refl)
has_prefix_sound [] (c ∷ p) h = cc
has_prefix_sound (d ∷ s) (c ∷ p) h =
    let (r, e) = has_prefix_sound s p (ground arith) in (r, ground (arith, e, nat_beq_iff d c))

pub has_prefix-append : (p r : Text) → has_prefix (p ++ r) p ≡ true
unfolding has_prefix
has_prefix-append [] r = refl
has_prefix-append (c ∷ p) r = ground (arith, has_prefix-append p r, nat_beq_iff c c)

pub strip_suffix_sound : (s p r : Text) → strip_suffix s p ≡ some r → s ≡ r ++ p
unfolding strip_suffix
strip_suffix_sound [] p r h = ground (arith, text_beq_iff [] p)
strip_suffix_sound (c ∷ s) p r h = elim (Bool-cases (text_beq (c ∷ s) p)) [
  | inl e ↦ ground (arith, e, text_beq_iff (c ∷ s) p)
  | inr e ↦ elim (Option-cases (strip_suffix s p)) [
    | inl f ↦ ground (arith, e, f)
    | inr (q, f) ↦ ground (arith, e, f, strip_suffix_sound s p q f)
  ]
]

longer_ne : (c : ℕ) (r p : Text) → text_beq (c ∷ (r ++ p)) p ≡ false
longer_ne c r p = elim (Bool-cases (text_beq (c ∷ (r ++ p)) p)) [
  | inl e ↦
      absurd (omega (arith, ap length ((text_beq_iff (c ∷ (r ++ p)) p).0 e), length-append r p))
  | inr e ↦ e
]

pub strip_suffix-append : (r p : Text) → strip_suffix (r ++ p) p ≡ some r
unfolding strip_suffix
strip_suffix-append [] [] = refl
strip_suffix-append [] (c ∷ p) = ground (arith, text_beq_iff (c ∷ p) (c ∷ p))
strip_suffix-append (c ∷ r) p = ground (arith, longer_ne c r p, strip_suffix-append r p)
