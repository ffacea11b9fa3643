-- ===== src/Scanner/Validate.antt =====
-- backend/scanner/nmap.go: what is let through to the command line of nmap. `net.ParseIP` is an
-- argument.
pub mod Shape
use seagles.Common.{
  ℕ, zero, suc, ◌+◌, ◌-◌, ◌*◌, Bool, true, false, not, ◌&&◌, ◌||◌, Option, none, some, List, [],
  ◌∷◌, ltb, leb, nat_beq, if◌then◌else◌, length, any, all,
}
use seagles.Common.Int.{ℤ, pos, negsuc}
use seagles.Text.{Text, codes, contains, split}

pub data Verdict : Type 0 where
  ok err_invalid_cidr err_invalid_ip err_suspicious : Verdict

abbrev pub suspicious_patterns : List Text
suspicious_patterns =
    codes "`"
    ∷ codes "$("
    ∷ codes ";"
    ∷ codes "|"
    ∷ codes "&&"
    ∷ codes "||"
    ∷ (10 ∷ [])
    ∷ (13 ∷ [])
    ∷ codes ">"
    ∷ codes "<"
    ∷ codes ".."
    ∷ []

unfoldable pub is_suspicious : Text → Bool
is_suspicious s = any (contains s) suspicious_patterns

abbrev pub is_digit : ℕ → Bool
is_digit c = leb b'0' c && leb c b'9'

-- strconv.Atoi: an optional sign and at least one digit. A number too large for an `int` is an
-- error there and is refused here by the bounds that follow.
unfoldable pub digits_value : ℕ → Text → Option ℕ
digits_value n [] = some n
digits_value n (c ∷ s) =
    let rest = digits_value (n * 10 + (c - b'0')) s in if is_digit c then rest else none

unfoldable pub number : Text → Option ℕ
number [] = none
number (c ∷ s) = digits_value 0 (c ∷ s)

abbrev negate : ℕ → ℤ
negate zero = pos 0
negate (suc n) = negsuc n

abbrev positive : Option ℕ → Option ℤ
positive none = none
positive (some n) = some (pos n)

abbrev negative : Option ℕ → Option ℤ
negative none = none
negative (some n) = some (negate n)

unfoldable pub atoi : Text → Option ℤ
unfolding number
atoi [] = none
atoi (c ∷ s) =
    if nat_beq c b'-'
    then negative (number s)
    else (if nat_beq c b'+' then positive (number s) else positive (number (c ∷ s)))

-- `err != nil || n < 0 || n > bound`, negated
abbrev pub within : ℕ → Option ℤ → Bool
within bound none = false
within bound (some (pos n)) = leb n bound
within bound (some (negsuc n)) = false

unfoldable pub is_dotted_quad : Text → Bool
unfolding atoi
is_dotted_quad s =
    let parts = split b'.' s in nat_beq (length parts) 4 && all (λ p. within 255 (atoi p)) parts

abbrev pub cidr_parts : List Text → Verdict
cidr_parts (address ∷ prefix ∷ []) =
    if is_dotted_quad address && within 32 (atoi prefix) then ok else err_invalid_cidr
cidr_parts _ = err_invalid_cidr

unfoldable pub sanitize_cidr : Text → Verdict
sanitize_cidr cidr =
    if ltb 50 (length cidr)
    then err_invalid_cidr
    else (if is_suspicious cidr then err_suspicious else cidr_parts (split b'/' cidr))

unfoldable pub sanitize_ip : (Text → Bool) → Text → Verdict
sanitize_ip parse_ip ip =
    if ltb 45 (length ip)
    then err_invalid_ip
    else (if is_suspicious ip
        then err_suspicious
        else (if contains ip (codes ":")
            then (if parse_ip ip then ok else err_invalid_ip)
            else (if is_dotted_quad ip then ok else err_invalid_ip)))
