-- ===== src/Sanitize/Bodies.antt =====
-- What body `SanitizeInput` hands on (backend/middleware/sanitize.go).
use seagles.Common.{
  ◌≡◌, ◌⊎◌, inl, inr, true, false, Option, some, [], arith, take, ◌==◌, Option-cases, Bool-cases,
}
use seagles.Text.{Text, codes, contains, text_eq, text_beq_iff, trim_space}
use seagles.Sanitize.{
  XssConfig, Value, Request, next, takes_no_body, sanitize_json, sanitize_body, sanitize_input,
  sanitize_value,
}
use seagles.Sanitize.Values.{
  each_string, is_clean, skeleton, sanitize_value_cleans, sanitize_value_keeps,
}

module _ (unmarshal : Text → Option Value) (marshal : Value → Option Text)
    (marshals : (v : Value) → (t : Text) × (marshal v ≡ some t)) where
  -- The body encodes a value that has the shape, the keys, the numbers and the Booleans of the one
  -- decoded from the raw body, and no string value of which matches a pattern of an element.
  abbrev pub Cleaned : Text → Text → Type 0
  Cleaned raw body =
      (u : Value) × (v : Value) × (unmarshal raw ≡ some u)
      × (skeleton v ≡ skeleton u)
      × (each_string is_clean v ≡ true)
      × (marshal v ≡ some body)

  json_cleans :
      (cfg : XssConfig) (raw body : Text)
      → cfg.strip_scripts ≡ true
      → sanitize_json unmarshal marshal cfg raw ≡ next (some body)
      → Cleaned raw body
  unfolding sanitize_json
  json_cleans cfg raw body on h = elim (Option-cases (unmarshal raw)) [
    | inl e ↦ ground (arith, e)
    | inr (v, e) ↦ (
      v,
      sanitize_value cfg v,
      e,
      sanitize_value_keeps cfg v,
      sanitize_value_cleans cfg v on,
      let (t, f) = marshals (sanitize_value cfg v) in ground (arith, e, f),
    )
  ]

  body_cleans :
      (cfg : XssConfig) (raw body : Text)
      → cfg.strip_scripts ≡ true
      → sanitize_body unmarshal marshal cfg raw ≡ next (some body)
      → (trim_space body ≡ []) ⊎ Cleaned raw body
  unfolding sanitize_body
  body_cleans cfg raw body on h = elim (Bool-cases (trim_space raw == [])) [
    | inl e ↦ inl (ground (arith, e, text_beq_iff (trim_space raw) []))
    | inr e ↦ inr (json_cleans cfg raw body on (ground (arith, e)))
  ]

  -- If scripts are stripped, a JSON request of another method than GET, HEAD, OPTIONS and DELETE
  -- reaches the handlers with a body that is blank, or that encodes a value with the shape, keys,
  -- numbers and Booleans of the value decoded from the request's body (its first MaxBodyLength
  -- bytes), in which no string value, keys of objects apart, contains one of the twelve patterns of
  -- `dangerousHTML` that open or close an element, in any case of the letters. That encoding a value
  -- never fails is assumed.
  pub sanitize_input_cleans :
      (cfg : XssConfig) (r : Request) (body : Text)
      → cfg.strip_scripts ≡ true
      → contains r.content_type (codes "application/json") ≡ true
      → takes_no_body r.method ≡ false
      → sanitize_input unmarshal marshal cfg r ≡ next (some body)
      → (trim_space body ≡ [])
        ⊎ ((raw : Text) × (r.body ≡ some raw) × Cleaned (take cfg.max_body_length raw) body)
  unfolding sanitize_input
  sanitize_input_cleans cfg r body on json other h = elim (Option-cases r.body) [
    | inl e ↦ ground (arith, e)
    | inr (b, e) ↦ elim (body_cleans cfg (take cfg.max_body_length b) body on (ground (arith, e))) [
      | inl blank ↦ inl blank
      | inr cleaned ↦ inr (b, e, cleaned)
    ]
  ]
