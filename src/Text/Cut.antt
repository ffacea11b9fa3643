-- ===== src/Text/Cut.antt =====
-- `strings.SplitN` on a text that was put together from two parts.
use seagles.Common.{ℕ, ◌≡◌, false, some, [], ◌∷◌, ◌++◌, arith, ◌==◌, nat_eq, All, nat_beq_iff}
use seagles.Text.{Text, cut}

pub cut-append :
    (sep : ℕ) (a b : Text)
    → All (λ c. (c == sep) ≡ false) a
    → cut sep (a ++ (sep ∷ b)) ≡ some (a, b)
unfolding cut
cut-append sep [] b h = ground (arith, nat_beq_iff sep sep)
cut-append sep (c ∷ a) b h = ground (arith, cut-append sep a b h.1)
