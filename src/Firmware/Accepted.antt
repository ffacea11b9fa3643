-- ===== src/Firmware/Accepted.antt =====
-- Which uploads `ValidateFirmwareFile` lets through (backend/middleware/sanitize.go).
use seagles.Common.{
  ℕ, zero, suc, ◌≤◌, ◌≡◌, ◌⊎◌, ◌∙◌, sym, inl, inr, refl, ap, Bool, true, false, ◌||◌, List, [], ◌∷◌,
  ◌++◌, arith, ltb, nat_beq, nat_beq_iff, ◌==◌, length, take, drop, any, Bool-cases,
}
use seagles.Text.{Text, text_eq, text_beq_iff, to_lower}
use seagles.Firmware.{
  Magic, firmware_magic_bytes, valid_exts, ext_loop, filepath_ext, has_magic, is_valid_ext,
  has_known_magic, valid, max_file_size, validate_firmware_file, unknown_magic, empty_file,
  too_large, invalid_extension,
}
use mathlib.Core.Path.{subst}
use mathlib.Core.List.{
  reverse, reverse_aux, reverse_aux-eq, reverse-reverse, Mem, mem-cons_self, mem-cons_of_mem,
}

abbrev pub is_separator : ℕ → Bool
is_separator c = nat_beq c 46 || (nat_beq c 47 || nat_beq c 92)

-- The name is a front, a dot and an extension without dots and slashes.
abbrev pub Extends : Text → Text → Type 0
Extends filename ext =
    (front rest : Text) × (ext ≡ 46 ∷ rest)
    × (any is_separator rest ≡ false)
    × (filename ≡ front ++ ext)

loop_step :
    (c : ℕ) (r p : Text)
    → ((nat_beq c 46 ≡ true) × (ext_loop (c ∷ r) p ≡ 46 ∷ p))
      ⊎ (ext_loop (c ∷ r) p ≡ [])
      ⊎ ((is_separator c ≡ false) × (ext_loop (c ∷ r) p ≡ ext_loop r (c ∷ p)))
unfolding ext_loop
loop_step c r p = ground (arith, nat_beq_iff c 46)

ext_loop-Extends :
    (r p : Text)
    → any is_separator p ≡ false
    → (ext_loop r p ≡ []) ⊎ Extends (reverse_aux r p) (ext_loop r p)
ext_loop-Extends [] p h = inl (unfold ext_loop in refl)
ext_loop-Extends (c ∷ r) p h = elim (loop_step c r p) [
  | inl (e, f) ↦
      inr (reverse r, p, f, h, ground (arith, f, nat_beq_iff c 46, reverse_aux-eq r (c ∷ p)))
  | inr (inl f) ↦ inl f
  | inr (inr (e, f)) ↦ elim (ext_loop-Extends r (c ∷ p) (ground (arith, e, h))) [
    | inl g ↦ inl (f ∙ g)
    | inr (front, rest, g, n, i) ↦ inr (front, rest, f ∙ g, n, cc (f, i))
  ]
]

ext-Extends :
    (filename : Text) → (filepath_ext filename ≡ []) ⊎ Extends filename (filepath_ext filename)
unfolding filepath_ext
ext-Extends filename = elim (ext_loop-Extends (reverse filename) [] refl) [
  | inl e ↦ inl e
  | inr (front, rest, g, n, i) ↦ inr (front, rest, g, n, sym (reverse-reverse filename) ∙ i)
]

take-append-drop : (n : ℕ) (xs : List ℕ) → take n xs ++ drop n xs ≡ xs
take-append-drop zero xs = refl
take-append-drop (suc n) [] = refl
take-append-drop (suc n) (x ∷ xs) = ap (λ (l : List ℕ). x ∷ l) (take-append-drop n xs)

has_magic_sound :
    (bytes : List ℕ) (m : Magic)
    → has_magic bytes m ≡ true
    → drop m.offset bytes ≡ m.magic ++ drop (length m.magic) (drop m.offset bytes)
unfolding has_magic
has_magic_sound bytes m h = cc (
  take-append-drop (length m.magic) (drop m.offset bytes),
  (text_beq_iff (take (length m.magic) (drop m.offset bytes)) m.magic).0 (ground (arith, h)),
)

any_sound {ℓ} :
    {A : Type ℓ} (p : A → Bool) (xs : List A) → any p xs ≡ true → (x : A) × Mem x xs × (p x ≡ true)
any_sound p [] h = cc
any_sound p (x ∷ xs) h = elim (Bool-cases (p x)) [
  | inl e ↦ (x, mem-cons_self, e)
  | inr e ↦ let (y, m, f) = any_sound p xs (ground (arith, e, h)) in (y, mem-cons_of_mem x m, f)
]

beq_zero : (n : ℕ) → nat_beq n 0 ≡ false → 1 ≤ n
beq_zero n h = ground arith

ltb-ge : (m n : ℕ) → ltb m n ≡ false → n ≤ m
ltb-ge m n h = ground arith

emptied :
    (filename : Text) (bytes : List ℕ)
    → nat_beq (length bytes) 0 ≡ true
    → validate_firmware_file filename bytes ≡ empty_file
unfolding validate_firmware_file
emptied filename bytes e = rw e

oversized :
    (filename : Text) (bytes : List ℕ)
    → nat_beq (length bytes) 0 ≡ false
    → ltb max_file_size (length bytes) ≡ true
    → validate_firmware_file filename bytes ≡ too_large
unfolding validate_firmware_file
oversized filename bytes e f = rw (e, f)

unlisted :
    (filename : Text) (bytes : List ℕ)
    → nat_beq (length bytes) 0 ≡ false
    → ltb max_file_size (length bytes) ≡ false
    → is_valid_ext (to_lower (filepath_ext filename)) ≡ false
    → validate_firmware_file filename bytes ≡ invalid_extension (to_lower (filepath_ext filename))
unfolding validate_firmware_file
unlisted filename bytes e f g = rw (e, f, g)

unknown :
    (filename : Text) (bytes : List ℕ)
    → nat_beq (length bytes) 0 ≡ false
    → ltb max_file_size (length bytes) ≡ false
    → is_valid_ext (to_lower (filepath_ext filename)) ≡ true
    → has_known_magic bytes ≡ false
    → validate_firmware_file filename bytes ≡ unknown_magic
unfolding validate_firmware_file
unknown filename bytes e f g i = rw (e, f, g, i)

checks_passed :
    (filename : Text) (bytes : List ℕ)
    → validate_firmware_file filename bytes ≡ valid
    → (1 ≤ length bytes)
      × (length bytes ≤ max_file_size)
      × (is_valid_ext (to_lower (filepath_ext filename)) ≡ true)
      × (has_known_magic bytes ≡ true)
unfolding validate_firmware_file
checks_passed filename bytes h = elim (Bool-cases (nat_beq (length bytes) 0)) [
  | inl e ↦ cc (h, emptied filename bytes e)
  | inr e ↦ elim (Bool-cases (ltb max_file_size (length bytes))) [
    | inl f ↦ cc (h, oversized filename bytes e f)
    | inr f ↦ elim (Bool-cases (is_valid_ext (to_lower (filepath_ext filename)))) [
      | inl g ↦ elim (Bool-cases (has_known_magic bytes)) [
        | inl i ↦ (beq_zero (length bytes) e, ltb-ge max_file_size (length bytes) f, g, i)
        | inr i ↦ cc (h, unknown filename bytes e f g i)
      ]
      | inr g ↦ cc (h, unlisted filename bytes e f g)
    ]
  ]
]

nothing_listed : is_valid_ext (to_lower []) ≡ false
unfolding is_valid_ext to_lower
nothing_listed = refl

listed-Extends :
    (filename : Text)
    → is_valid_ext (to_lower (filepath_ext filename)) ≡ true
    → Extends filename (filepath_ext filename)
listed-Extends filename h = elim (ext-Extends filename) [
  | inl e ↦ absurd (cc (e, h, nothing_listed))
  | inr x ↦ x
]

-- A file passes only if it is nonempty and no larger than the bound, its name ends in a dot and an
-- extension without dots and slashes that is, in lower case, on the list, and its content has one
-- of the known signatures at its place.
pub validate_firmware_file_sound :
    (filename : Text) (bytes : List ℕ)
    → validate_firmware_file filename bytes ≡ valid
    → (1 ≤ length bytes)
      × (length bytes ≤ max_file_size)
      × Extends filename (filepath_ext filename)
      × Mem (to_lower (filepath_ext filename)) valid_exts
      × (m : Magic) × (rest : List ℕ) × Mem m firmware_magic_bytes
      × (drop m.offset bytes ≡ m.magic ++ rest)
unfolding is_valid_ext has_known_magic
validate_firmware_file_sound filename bytes h =
    let (l, u, listed, signed) = checks_passed filename bytes h in
    let (e, me, eq) = any_sound (λ e. e == to_lower (filepath_ext filename)) valid_exts listed in
    let (m, mm, has) = any_sound (has_magic bytes) firmware_magic_bytes signed in
    (
      l,
      u,
      listed-Extends filename listed,
      subst (λ x. Mem x valid_exts) ((text_beq_iff e (to_lower (filepath_ext filename))).0 eq) me,
      m,
      drop (length m.magic) (drop m.offset bytes),
      mm,
      has_magic_sound bytes m has,
    )
