-- ===== src/Csrf.antt =====
-- backend/middleware/csrf.go. `hash` stands for the SHA-256 digest in hexadecimal; the fresh random
-- token and the clock are arguments.
pub mod SingleUse
use seagles.Common.{
  ℕ, ◌+◌, ◌*◌, Bool, true, false, not, ◌||◌, Option, none, some, List, [], ◌∷◌, ltb, ◌==◌,
  if◌then◌else◌,
}
use seagles.Clock.{hour}
use seagles.Dict.{lookup, insert, delete, retain}
use seagles.Text.{Text, codes, text_eq, has_prefix}

-- The expiry time of each token that was handed out, by its hash.
pub record CsrfStore : Type 0 where
  pub tokens : List (Text × ℕ)
  pub max_age : ℕ

unfoldable pub global_csrf : CsrfStore
global_csrf = record { tokens = []; max_age = 24 * hour }

-- One round of `purgeExpiredCSRFTokens`.
unfoldable pub purge : ℕ → CsrfStore → CsrfStore
purge now s = record s { tokens = retain (λ expiry. not (ltb expiry now)) s.tokens }

pub record Request : Type 0 where
  pub authorization : Text
  pub method : Text
  pub csrf_token : Text

-- `pass` carries the new token of the response.
pub data Outcome : Type 0 where
  pass : Text → Outcome
  token_required : Outcome
  token_invalid : Outcome

abbrev pub is_safe_method : Text → Bool
is_safe_method m = m == codes "GET" || (m == codes "HEAD" || m == codes "OPTIONS")

module _ (hash : Text → Text) where
  unfoldable pub set_csrf_token : Text → ℕ → CsrfStore → CsrfStore
  set_csrf_token token now s = record s { tokens = insert (hash token) (now + s.max_age) s.tokens }

  unfoldable pub validate_csrf_token : Text → ℕ → CsrfStore → CsrfStore × Bool
  validate_csrf_token token now s = elim (lookup (hash token) s.tokens) [
    | none ↦ (s, false)
    | some expiry ↦ (record s { tokens = delete (hash token) s.tokens }, not (ltb expiry now))
  ]

  abbrev refresh : Text → ℕ → CsrfStore → CsrfStore × Outcome
  refresh fresh now s = (set_csrf_token fresh now s, pass fresh)

  abbrev after_check : Text → ℕ → CsrfStore × Bool → CsrfStore × Outcome
  after_check fresh now (s, true) = refresh fresh now s
  after_check fresh now (s, false) = (s, token_invalid)

  unfoldable pub csrf_middleware : Request → Text → ℕ → CsrfStore → CsrfStore × Outcome
  csrf_middleware r fresh now s =
      if has_prefix r.authorization (codes "Bearer ")
      then refresh fresh now s
      else (if is_safe_method r.method
          then refresh fresh now s
          else (if r.csrf_token == []
              then (s, token_required)
              else after_check fresh now (validate_csrf_token r.csrf_token now s)))
