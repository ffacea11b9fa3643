-- ===== src/Sanitize.antt =====
-- backend/middleware/sanitize.go, the first part: `SanitizeInput` over a decoded JSON body. The
-- package encoding/json is an argument; a float64 is its bit pattern, and case mapping is that of
-- ASCII text.
pub mod Strings
pub mod Values
pub mod Bodies
use seagles.Common.{
  ℕ, ◌*◌, Bool, true, false, ◌&&◌, ◌||◌, Option, none, some, List, [], ◌∷◌, nat_beq, ◌==◌,
  if◌then◌else◌, take, any,
}
use seagles.Text.{Text, codes, text_eq, contains, to_lower, trim_space}

pub record XssConfig : Type 0 where
  pub strip_html : Bool
  pub strip_scripts : Bool
  pub max_body_length : ℕ

abbrev pub default_xss_config : XssConfig
default_xss_config = record { strip_html = true; strip_scripts = true; max_body_length = 1048576 }

-- The patterns of `dangerousHTML` that open or close an element, and the others.
abbrev pub tag_patterns : List Text
tag_patterns =
    codes "<script"
    ∷ codes "</script"
    ∷ codes "<iframe"
    ∷ codes "</iframe"
    ∷ codes "<object"
    ∷ codes "</object"
    ∷ codes "<embed"
    ∷ codes "</embed"
    ∷ codes "<svg"
    ∷ codes "<math"
    ∷ codes "<form"
    ∷ codes "</form"
    ∷ []

abbrev pub script_patterns : List Text
script_patterns =
    codes "onerror="
    ∷ codes "onload="
    ∷ codes "onclick="
    ∷ codes "onmouseover="
    ∷ codes "javascript:"
    ∷ codes "data:text/html"
    ∷ codes "vbscript:"
    ∷ []

-- A test for any of the patterns: their order does not matter.
unfoldable pub has_tag : Text → Bool
has_tag s = any (contains (to_lower s)) tag_patterns

unfoldable pub has_script : Text → Bool
has_script s = any (contains (to_lower s)) script_patterns

unfoldable pub has_dangerous_content : Text → Bool
unfolding has_tag has_script
has_dangerous_content s = has_tag s || has_script s

-- The characters < > " ' and &.
unfoldable pub is_special : ℕ → Bool
is_special c = nat_beq c 60 || (nat_beq c 62 || (nat_beq c 34 || (nat_beq c 39 || nat_beq c 38)))

unfoldable pub strip_special : Text → Text
unfolding is_special
strip_special [] = []
strip_special (c ∷ s) = let rest = strip_special s in if is_special c then rest else c ∷ rest

unfoldable pub sanitize_string : XssConfig → Text → Text
unfolding has_dangerous_content strip_special
sanitize_string cfg s = if cfg.strip_scripts && has_dangerous_content s then strip_special s else s

-- What json.Unmarshal puts into an `interface{}`.
mutual
  pub data Value : Type 0 where
    null : Value
    boolean : Bool → Value
    number : ℕ → Value
    string : Text → Value
    array : Items → Value
    object : Fields → Value

  pub data Items : Type 0 where
    nil : Items
    item : Value → Items → Items

  pub data Fields : Type 0 where
    end : Fields
    field : Text → Value → Fields → Fields

unfoldable mutual
  pub sanitize_value : XssConfig → Value → Value
  sanitize_value cfg null = null
  sanitize_value cfg (boolean b) = boolean b
  sanitize_value cfg (number n) = number n
  sanitize_value cfg (string s) = string (sanitize_string cfg s)
  sanitize_value cfg (array xs) = array (sanitize_items cfg xs)
  sanitize_value cfg (object fs) = object (sanitize_fields cfg fs)

  pub sanitize_items : XssConfig → Items → Items
  sanitize_items cfg nil = nil
  sanitize_items cfg (item x xs) = item (sanitize_value cfg x) (sanitize_items cfg xs)

  pub sanitize_fields : XssConfig → Fields → Fields
  sanitize_fields cfg end = end
  sanitize_fields cfg (field k x fs) = field k (sanitize_value cfg x) (sanitize_fields cfg fs)

-- `body` is `none` where reading it fails.
pub record Request : Type 0 where
  pub content_type : Text
  pub method : Text
  pub body : Option Text

-- `next` carries the body that the handlers read.
pub data Outcome : Type 0 where
  next : Option Text → Outcome
  bad_request : Outcome

abbrev pub takes_no_body : Text → Bool
takes_no_body m =
    m == codes "GET" || (m == codes "HEAD" || (m == codes "OPTIONS" || m == codes "DELETE"))

-- json.Unmarshal and json.Marshal
module _ (unmarshal : Text → Option Value) (marshal : Value → Option Text) where
  abbrev marshal_or : Text → Value → Text
  marshal_or body v = elim (marshal v) [ none ↦ body | some t ↦ t ]

  unfoldable pub sanitize_json : XssConfig → Text → Outcome
  sanitize_json cfg body = elim (unmarshal body) [
    | none ↦ bad_request
    | some raw ↦
        if cfg.strip_scripts || cfg.strip_html
        then next (some (marshal_or body (sanitize_value cfg raw)))
        else next (some body)
  ]

  unfoldable pub sanitize_body : XssConfig → Text → Outcome
  unfolding sanitize_json
  sanitize_body cfg body =
      if trim_space body == [] then next (some body) else sanitize_json cfg body

  unfoldable pub sanitize_input : XssConfig → Request → Outcome
  unfolding sanitize_body
  sanitize_input cfg r =
      if contains r.content_type (codes "application/json")
      then (if takes_no_body r.method then next r.body else (elim r.body [
        | none ↦ bad_request
        | some b ↦ sanitize_body cfg (take cfg.max_body_length b)
      ]))
      else next r.body
