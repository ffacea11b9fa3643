-- ===== src/Sanitize/Strings.antt =====
-- What sanitising does to one string (`sanitizeValue` of backend/middleware/sanitize.go).
use seagles.Common.{◌≡◌, refl, Bool, true, false, List, [], ◌∷◌, arith, nat_beq, any, all}
use seagles.Text.{Text, has_prefix, contains, to_lower}
use seagles.Sanitize.{
  XssConfig, tag_patterns, has_tag, has_dangerous_content, is_special, strip_special,
  sanitize_string,
}

strip_special_clean : (s : Text) → any is_special (strip_special s) ≡ false
unfolding strip_special
strip_special_clean [] = refl
strip_special_clean (c ∷ s) = ground (arith, strip_special_clean s)

strip_special_id : (s : Text) → any is_special s ≡ false → strip_special s ≡ s
unfolding strip_special
strip_special_id [] h = refl
strip_special_id (c ∷ s) h = ground (arith, strip_special_id s)

pub sanitize_string_idem :
    (cfg : XssConfig) (s : Text)
    → sanitize_string cfg (sanitize_string cfg s) ≡ sanitize_string cfg s
unfolding sanitize_string
sanitize_string_idem cfg s =
    ground (arith, strip_special_id (strip_special s) (strip_special_clean s))

-- Only a string that has one of the five characters can be changed by stripping.
pub strip_special_fixed : (s : Text) → strip_special s ≡ s → any is_special s ≡ false
strip_special_fixed s h = ground (arith, strip_special_clean s)

opens_tag : Text → Bool
opens_tag [] = false
opens_tag (c ∷ p) = nat_beq c 60

no_prefix :
    (s p : Text) → opens_tag p ≡ true → any is_special s ≡ false → has_prefix (to_lower s) p ≡ false
unfolding opens_tag has_prefix to_lower is_special
no_prefix s [] o h = cc
no_prefix [] (c ∷ p) o h = refl
no_prefix (d ∷ s) (c ∷ p) o h = ground arith

no_tag :
    (s p : Text) → opens_tag p ≡ true → any is_special s ≡ false → contains (to_lower s) p ≡ false
unfolding contains to_lower
no_tag [] p o h = no_prefix [] p o h
no_tag (d ∷ s) p o h = ground (arith, no_prefix (d ∷ s) p o h, no_tag s p o)

no_tags :
    (s : Text) (ps : List Text)
    → all opens_tag ps ≡ true
    → any is_special s ≡ false
    → any (contains (to_lower s)) ps ≡ false
no_tags s [] o h = refl
no_tags s (p ∷ ps) o h = ground (arith, no_tag s p, no_tags s ps)

no_special-no_tag : (s : Text) → any is_special s ≡ false → has_tag s ≡ false
unfolding has_tag opens_tag
no_special-no_tag s h = no_tags s tag_patterns refl h

pub sanitize_string-no_tag :
    (cfg : XssConfig) (s : Text)
    → cfg.strip_scripts ≡ true
    → has_tag (sanitize_string cfg s) ≡ false
unfolding sanitize_string has_dangerous_content
sanitize_string-no_tag cfg s on =
    ground (arith, no_special-no_tag (strip_special s) (strip_special_clean s))

pub sanitize_string_plain :
    (cfg : XssConfig) (s : Text) → any is_special s ≡ false → sanitize_string cfg s ≡ s
unfolding sanitize_string
sanitize_string_plain cfg s h = ground (arith, strip_special_id s h)
