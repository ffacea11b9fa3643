-- ===== src/Sanitize/Values.antt =====
-- What sanitising does to a decoded body (`sanitizeValue` of backend/middleware/sanitize.go).
use seagles.Common.{◌≡◌, refl, ap, Bool, true, ◌&&◌, [], arith, any, not, not}
use seagles.Text.{Text}
use seagles.Sanitize.{
  XssConfig, Value, Items, Fields, null, boolean, number, string, array, object, nil, item, end,
  field, has_tag, is_special, sanitize_value, sanitize_items, sanitize_fields,
}
use seagles.Sanitize.Strings.{sanitize_string_idem, sanitize_string-no_tag, sanitize_string_plain}

-- A test of every string of a value, the keys of objects not among them.
unfoldable mutual
  pub each_string : (Text → Bool) → Value → Bool
  each_string p null = true
  each_string p (boolean b) = true
  each_string p (number n) = true
  each_string p (string s) = p s
  each_string p (array xs) = each_string_items p xs
  each_string p (object fs) = each_string_fields p fs

  pub each_string_items : (Text → Bool) → Items → Bool
  each_string_items p nil = true
  each_string_items p (item x xs) = each_string p x && each_string_items p xs

  pub each_string_fields : (Text → Bool) → Fields → Bool
  each_string_fields p end = true
  each_string_fields p (field k x fs) = each_string p x && each_string_fields p fs

-- A value with its strings taken out: what is left are the shape, the keys, numbers and Booleans.
unfoldable mutual
  pub skeleton : Value → Value
  skeleton null = null
  skeleton (boolean b) = boolean b
  skeleton (number n) = number n
  skeleton (string s) = string []
  skeleton (array xs) = array (skeleton_items xs)
  skeleton (object fs) = object (skeleton_fields fs)

  pub skeleton_items : Items → Items
  skeleton_items nil = nil
  skeleton_items (item x xs) = item (skeleton x) (skeleton_items xs)

  pub skeleton_fields : Fields → Fields
  skeleton_fields end = end
  skeleton_fields (field k x fs) = field k (skeleton x) (skeleton_fields fs)

mutual
  unfolding sanitize_value

  idem :
      (cfg : XssConfig) (v : Value)
      → sanitize_value cfg (sanitize_value cfg v) ≡ sanitize_value cfg v
  idem cfg null = refl
  idem cfg (boolean b) = refl
  idem cfg (number n) = refl
  idem cfg (string s) = ap string (sanitize_string_idem cfg s)
  idem cfg (array xs) = ap array (idem_items cfg xs)
  idem cfg (object fs) = ap object (idem_fields cfg fs)

  idem_items :
      (cfg : XssConfig) (xs : Items)
      → sanitize_items cfg (sanitize_items cfg xs) ≡ sanitize_items cfg xs
  idem_items cfg nil = refl
  idem_items cfg (item x xs) = cc (idem cfg x, idem_items cfg xs)

  idem_fields :
      (cfg : XssConfig) (fs : Fields)
      → sanitize_fields cfg (sanitize_fields cfg fs) ≡ sanitize_fields cfg fs
  idem_fields cfg end = refl
  idem_fields cfg (field k x fs) = cc (idem cfg x, idem_fields cfg fs)

mutual
  unfolding sanitize_value skeleton

  keeps : (cfg : XssConfig) (v : Value) → skeleton (sanitize_value cfg v) ≡ skeleton v
  keeps cfg null = refl
  keeps cfg (boolean b) = refl
  keeps cfg (number n) = refl
  keeps cfg (string s) = refl
  keeps cfg (array xs) = ap array (keeps_items cfg xs)
  keeps cfg (object fs) = ap object (keeps_fields cfg fs)

  keeps_items :
      (cfg : XssConfig) (xs : Items) → skeleton_items (sanitize_items cfg xs) ≡ skeleton_items xs
  keeps_items cfg nil = refl
  keeps_items cfg (item x xs) = cc (keeps cfg x, keeps_items cfg xs)

  keeps_fields :
      (cfg : XssConfig) (fs : Fields)
      → skeleton_fields (sanitize_fields cfg fs) ≡ skeleton_fields fs
  keeps_fields cfg end = refl
  keeps_fields cfg (field k x fs) = cc (keeps cfg x, keeps_fields cfg fs)

-- A string that cannot open an element.
unfoldable pub is_clean : Text → Bool
is_clean s = not (has_tag s)

mutual
  unfolding sanitize_value each_string is_clean

  cleans :
      (cfg : XssConfig) (v : Value)
      → cfg.strip_scripts ≡ true
      → each_string is_clean (sanitize_value cfg v) ≡ true
  cleans cfg null on = refl
  cleans cfg (boolean b) on = refl
  cleans cfg (number n) on = refl
  cleans cfg (string s) on = ap not (sanitize_string-no_tag cfg s on)
  cleans cfg (array xs) on = cleans_items cfg xs on
  cleans cfg (object fs) on = cleans_fields cfg fs on

  cleans_items :
      (cfg : XssConfig) (xs : Items)
      → cfg.strip_scripts ≡ true
      → each_string_items is_clean (sanitize_items cfg xs) ≡ true
  cleans_items cfg nil on = refl
  cleans_items cfg (item x xs) on = ground (arith, cleans cfg x on, cleans_items cfg xs on)

  cleans_fields :
      (cfg : XssConfig) (fs : Fields)
      → cfg.strip_scripts ≡ true
      → each_string_fields is_clean (sanitize_fields cfg fs) ≡ true
  cleans_fields cfg end on = refl
  cleans_fields cfg (field k x fs) on = ground (arith, cleans cfg x on, cleans_fields cfg fs on)

-- A string without any of the characters < > " ' and &.
unfoldable pub is_plain : Text → Bool
is_plain s = not (any is_special s)

mutual
  unfolding sanitize_value each_string is_plain

  inert : (cfg : XssConfig) (v : Value) → each_string is_plain v ≡ true → sanitize_value cfg v ≡ v
  inert cfg null h = refl
  inert cfg (boolean b) h = refl
  inert cfg (number n) h = refl
  inert cfg (string s) h = ap string (sanitize_string_plain cfg s (ground arith))
  inert cfg (array xs) h = ap array (inert_items cfg xs h)
  inert cfg (object fs) h = ap object (inert_fields cfg fs h)

  inert_items :
      (cfg : XssConfig) (xs : Items)
      → each_string_items is_plain xs ≡ true
      → sanitize_items cfg xs ≡ xs
  inert_items cfg nil h = refl
  inert_items cfg (item x xs) h = cc (inert cfg x (ground arith), inert_items cfg xs (ground arith))

  inert_fields :
      (cfg : XssConfig) (fs : Fields)
      → each_string_fields is_plain fs ≡ true
      → sanitize_fields cfg fs ≡ fs
  inert_fields cfg end h = refl
  inert_fields cfg (field k x fs) h =
      cc (inert cfg x (ground arith), inert_fields cfg fs (ground arith))

-- Sanitising a decoded body a second time changes nothing, and sanitising it once keeps its shape,
-- the keys of its objects, its numbers and its Booleans.
pub sanitize_value_stable :
    (cfg : XssConfig) (v : Value)
    → (sanitize_value cfg (sanitize_value cfg v) ≡ sanitize_value cfg v)
      × (skeleton (sanitize_value cfg v) ≡ skeleton v)
sanitize_value_stable cfg v = (idem cfg v, keeps cfg v)

-- Sanitising keeps all but the strings.
pub sanitize_value_keeps :
    (cfg : XssConfig) (v : Value) → skeleton (sanitize_value cfg v) ≡ skeleton v
sanitize_value_keeps cfg v = keeps cfg v

pub sanitize_value_cleans :
    (cfg : XssConfig) (v : Value)
    → cfg.strip_scripts ≡ true
    → each_string is_clean (sanitize_value cfg v) ≡ true
sanitize_value_cleans cfg v on = cleans cfg v on

-- A body none of whose strings has one of the characters < > " ' and & is handed on as it is,
-- whatever patterns of scripts it has in it.
pub sanitize_value_inert :
    (cfg : XssConfig) (v : Value) → each_string is_plain v ≡ true → sanitize_value cfg v ≡ v
sanitize_value_inert cfg v h = inert cfg v h
