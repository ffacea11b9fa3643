-- ===== src/Scanner/Validate/Shape.antt =====
-- Which texts reach the command line of nmap (backend/scanner/nmap.go).
use seagles.Common.{
  ℕ, ◌+◌, ◌-◌, ◌*◌, ◌≤◌, ◌≡◌, ◌⊎◌, refl, Bool, true, false, ◌||◌, none, some, List, [], ◌∷◌,
  nat_beq, length, all, arith, Bool-cases, Option-cases, inl, inr, nat_beq_iff,
}
use seagles.Text.{Text, codes, contains, split, onto_head}
use seagles.Scanner.Validate.{
  ok, is_digit, digits_value, number, atoi, within, cidr_parts, is_dotted_quad, sanitize_cidr,
  sanitize_ip,
}

-- The bytes of a number, which may have a sign.
abbrev pub is_number_byte : ℕ → Bool
is_number_byte c = is_digit c || (nat_beq c b'+' || nat_beq c b'-')

abbrev pub is_cidr_byte : ℕ → Bool
is_cidr_byte c = is_number_byte c || (nat_beq c b'.' || nat_beq c b'/')

digits_bytes : (n m : ℕ) (s : Text) → digits_value n s ≡ some m → all is_number_byte s ≡ true
unfolding digits_value
digits_bytes n m [] h = refl
digits_bytes n m (c ∷ s) h = elim (Bool-cases (is_digit c)) [
  | inl e ↦ ground (arith, e, h, digits_bytes (n * 10 + (c - b'0')) m s (ground (arith, h, e)))
  | inr e ↦ absurd (ground (arith, h, e))
]

number_bytes : (s : Text) → (number s ≡ none) ⊎ (all is_number_byte s ≡ true)
unfolding number
number_bytes [] = inl refl
number_bytes (c ∷ s) = elim (Option-cases (digits_value 0 (c ∷ s))) [
  | inl e ↦ inl e
  | inr (m, e) ↦ inr (digits_bytes 0 m (c ∷ s) e)
]

within_bytes : (bound : ℕ) (s : Text) → within bound (atoi s) ≡ true → all is_number_byte s ≡ true
unfolding atoi
within_bytes bound [] h = refl
within_bytes bound (c ∷ s) h = ground (arith, h, number_bytes s, number_bytes (c ∷ s))

onto_head-all :
    (p : ℕ → Bool) (c : ℕ) (ps : List Text)
    → all (all p) (onto_head c ps) ≡ true
    → (p c ≡ true) × (all (all p) ps ≡ true)
onto_head-all p c [] h = ground (arith, h)
onto_head-all p c (x ∷ ps) h = ground (arith, h)

split_bytes :
    (p q : ℕ → Bool) (sep : ℕ) (s : Text)
    → q sep ≡ true
    → ((c : ℕ) → p c ≡ true → q c ≡ true)
    → all (all p) (split sep s) ≡ true
    → all q s ≡ true
unfolding split
split_bytes p q sep [] k i h = refl
split_bytes p q sep (c ∷ s) k i h = elim (Bool-cases (nat_beq c sep)) [
  | inl e ↦ ground (arith, e, k, h, nat_beq_iff c sep, split_bytes p q sep s k i)
  | inr e ↦ ground (arith, e, k, h, i c, split_bytes p q sep s k i, onto_head-all p c (split sep s))
]

parts_bytes :
    (ps : List Text) → all (λ p. within 255 (atoi p)) ps ≡ true → all (all is_number_byte) ps ≡ true
parts_bytes [] h = refl
parts_bytes (p ∷ ps) h = ground (arith, h, within_bytes 255 p, parts_bytes ps)

-- The bytes of four numbers with dots between them.
abbrev pub is_quad_byte : ℕ → Bool
is_quad_byte c = is_number_byte c || nat_beq c b'.'

quad_bytes : (s : Text) → is_dotted_quad s ≡ true → all is_quad_byte s ≡ true
unfolding is_dotted_quad
quad_bytes s h =
    split_bytes is_number_byte is_quad_byte b'.' s refl (λ c e. ground (arith, e))
      (parts_bytes (split b'.' s) (ground (arith, h)))

-- An address that is let through and has no colon has nothing but digits, signs and dots in it, and
-- at most 45 bytes: nothing that a shell would read, whatever the parser of IPv6 addresses accepts.
pub sanitize_ip_bytes :
    (parse_ip : Text → Bool) (ip : Text)
    → sanitize_ip parse_ip ip ≡ ok
    → contains ip (codes ":") ≡ false
    → (all is_quad_byte ip ≡ true) × (length ip ≤ 45)
unfolding sanitize_ip
sanitize_ip_bytes parse_ip ip h c = (quad_bytes ip (ground (arith, h, c)), ground (arith, h))

number_quad : (s : Text) → all is_number_byte s ≡ true → all is_quad_byte s ≡ true
number_quad [] h = refl
number_quad (c ∷ s) h = ground (arith, h, number_quad s)

cidr_parts_bytes : (ps : List Text) → cidr_parts ps ≡ ok → all (all is_quad_byte) ps ≡ true
cidr_parts_bytes [] h = refl
cidr_parts_bytes (a ∷ []) h = absurd (ground (arith, h))
cidr_parts_bytes (a ∷ p ∷ []) h = ground (arith, h, quad_bytes a, within_bytes 32 p, number_quad p)
cidr_parts_bytes (a ∷ p ∷ q ∷ ps) h = absurd (ground (arith, h))

-- A network that is let through has nothing but digits, signs, dots and slashes in it, and at most
-- 50 bytes.
pub sanitize_cidr_bytes :
    (cidr : Text) → sanitize_cidr cidr ≡ ok → (all is_cidr_byte cidr ≡ true) × (length cidr ≤ 50)
unfolding sanitize_cidr
sanitize_cidr_bytes cidr h = (
  split_bytes is_quad_byte is_cidr_byte b'/' cidr refl (λ c e. ground (arith, e))
      (cidr_parts_bytes (split b'/' cidr) (ground (arith, h))),
  ground (arith, h),
)
