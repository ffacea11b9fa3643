-- ===== src/Router.antt =====
-- backend/api/router.go: the middlewares in the order in which a request passes them, up to the
-- handler of a protected route, with `RateLimitMiddleware` of backend/middleware/ratelimit.go. The
-- headers that are only written, the request log, the metrics and the audit log decide nothing and
-- are left out. One clock reading serves the whole request.
pub mod Reached
use seagles.Common.{
  ℕ, Bool, true, false, not, Option, none, some, List, [], ◌∷◌, ltb, leb, ◌==◌, if◌then◌else◌,
}
use seagles.Common.Int.{ℤ, pos, negsuc}
use seagles.Text.{Text, codes, text_eq}
use seagles.Blacklist.{TokenBlacklist}
use seagles.Csrf as C
use seagles.Csrf.{CsrfStore, csrf_middleware}
use seagles.RateLimit.{RateLimiter, allow}
use seagles.Sanitize as S
use seagles.Sanitize.{default_xss_config, sanitize_input}
use seagles.Auth.Tokens.{Codec}
use seagles.Auth.Middleware as A
use seagles.Auth.Middleware.{
  Context, text, ◌>=>◌, auth_middleware, require_password_change, require_role,
}

-- `content_length` is -1 for a body of unknown length.
pub record HttpRequest : Type 0 where
  pub method : Text
  pub path : Text
  pub client_ip : Text
  pub authorization : Text
  pub csrf_token : Text
  pub content_type : Text
  pub content_length : ℤ
  pub request_id : Text
  pub body : Option Text

-- What the requests share.
pub record Shared : Type 0 where
  pub csrf : CsrfStore
  pub limiter : RateLimiter

pub data Passage : Type 0 where
  refused : ℕ → Passage
  passed : Option Text → Passage

abbrev pub csrf_part : HttpRequest → C.Request
csrf_part r = record {
  authorization = r.authorization;
  method = r.method;
  csrf_token = r.csrf_token;
}

abbrev pub sanitize_part : HttpRequest → S.Request
sanitize_part r = record { content_type = r.content_type; method = r.method; body = r.body }

abbrev pub auth_part : HttpRequest → A.Request
auth_part r = record { authorization = r.authorization; path = r.path }

abbrev pub max_content_length : ℕ
max_content_length = 104857600

abbrev pub is_too_large : ℤ → Bool
is_too_large (pos n) = ltb max_content_length n
is_too_large (negsuc n) = false

abbrev pub passage : S.Outcome → Passage
passage (S.next body) = passed body
passage S.bad_request = refused 400

-- The rate limiter has no user yet: its key is that of the address.
unfoldable pub limit_and_sanitize :
    (Text → Option S.Value) → (S.Value → Option Text) → HttpRequest → ℕ → Shared → Shared × Passage
limit_and_sanitize unmarshal marshal r now s =
    let (limiter', verdict) = allow r.client_ip [] r.method r.path now s.limiter in
    (
      record s { limiter = limiter' },
      if verdict.allowed
          then passage (sanitize_input unmarshal marshal default_xss_config (sanitize_part r))
          else refused 429,
    )

-- The middlewares that every request passes.
unfoldable pub global_chain :
    (hash : Text → Text)
    → (unmarshal : Text → Option S.Value) → (marshal : S.Value → Option Text) → HttpRequest
    → (fresh : Text) → (now : ℕ) → Shared
    → Shared × Passage
unfolding limit_and_sanitize
global_chain hash unmarshal marshal r fresh now s =
    let (csrf', outcome) = csrf_middleware hash (csrf_part r) fresh now s.csrf in
    let s' = record s { csrf = csrf' } in
    let rest = limit_and_sanitize unmarshal marshal r now s' in
    if r.method == codes "OPTIONS" then (s, refused 204) else (elim outcome [
      | C.token_required ↦ (s', refused 403)
      | C.token_invalid ↦ (s', refused 403)
      | C.pass token ↦ if is_too_large r.content_length then (s', refused 413) else rest
    ])

-- The role that a protected route asks for, if it asks for one.
unfoldable pub require : Option Text → Context → A.Outcome
require none ctx = A.next ctx
require (some role) ctx = require_role role ctx

-- The middlewares of the protected group and of one of its routes.
unfoldable pub protected_chain :
    Codec → ℕ → TokenBlacklist → HttpRequest → Option Text → Context → A.Outcome
unfolding require
protected_chain c now blacklist r role =
    auth_middleware c now blacklist (auth_part r)
    >=> require_password_change (auth_part r)
    >=> require role

-- How a request for a protected route ends: with a status, a panic that gin recovers from, or the
-- handler with its context and body.
pub data Ending : Type 0 where
  answered : ℕ → Ending
  panicked : Ending
  reached : Context → Option Text → Ending

abbrev pub ending : A.Outcome → Option Text → Ending
ending (A.next ctx) body = reached ctx body
ending (A.abort status) body = answered status
ending A.panic body = panicked

abbrev pub start : HttpRequest → Context
start r = (codes "request_id", text r.request_id) ∷ []

abbrev pub enter_group :
    Codec → ℕ → TokenBlacklist → HttpRequest → Option Text → Shared × Passage → Shared × Ending
enter_group c now blacklist r role (s, refused status) = (s, answered status)
enter_group c now blacklist r role (s, passed body) =
    (s, ending (protected_chain c now blacklist r role (start r)) body)

unfoldable pub serve_protected :
    (hash : Text → Text)
    → (unmarshal : Text → Option S.Value) → (marshal : S.Value → Option Text) → Codec
    → TokenBlacklist
    → HttpRequest
    → Option Text
    → (fresh : Text) → (now : ℕ) → Shared
    → Shared × Ending
unfolding global_chain protected_chain
serve_protected hash unmarshal marshal c blacklist r role fresh now s =
    enter_group c now blacklist r role (global_chain hash unmarshal marshal r fresh now s)
