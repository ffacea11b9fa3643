-- ===== src/Router/Reached.antt =====
-- What a request for a protected route has passed when its handler runs (backend/api/router.go).
use seagles.Common.{
  ℕ, ◌≡◌, ◌∙◌, sym, refl, inl, inr, true, false, Option, none, some, [], arith, ◌==◌, Bool-cases,
  Option-cases,
}
use mathlib.Core.Path.{subst}
use seagles.Text.{Text, codes, text_eq}
use seagles.Blacklist.{TokenBlacklist}
use seagles.Csrf as C
use seagles.Csrf.{csrf_middleware}
use seagles.RateLimit.{allow}
use seagles.Sanitize as S
use seagles.Sanitize.{default_xss_config, sanitize_input}
use seagles.Auth.{User}
use seagles.Auth.Tokens.{Codec, Result, ok, err, validate_access_token}
use seagles.Auth.Middleware as A
use seagles.Auth.Middleware.{
  Context, Outcome, next, abort, panic, ◌>=>◌, bearer_token, set_user, auth_middleware, as_user,
  may_reach, require_password_change, require_role,
}
use seagles.Router.{
  HttpRequest, Shared, Passage, refused, passed, csrf_part, sanitize_part, auth_part, is_too_large,
  passage, limit_and_sanitize, global_chain, require, protected_chain, reached, ending, start,
  enter_group, serve_protected,
}

seq-next :
    (f g : Context → Outcome) (ctx ctx' : Context) (o : Outcome)
    → f ctx ≡ o
    → (f >=> g) ctx ≡ next ctx'
    → (m : Context) × (f ctx ≡ next m) × (g m ≡ next ctx')
seq-next f g ctx ctx' (next m) e h = (m, e, ground (arith, e, h))
seq-next f g ctx ctx' (abort status) e h = absurd (ground (arith, e, h))
seq-next f g ctx ctx' panic e h = absurd (ground (arith, e, h))

-- The password gate hands on the context that it gets.
gate-same :
    (r : A.Request) (ctx ctx' : Context) → require_password_change r ctx ≡ next ctx' → ctx' ≡ ctx
unfolding require_password_change
gate-same r ctx ctx' h = ground arith

role-same : (role : Option Text) (ctx ctx' : Context) → require role ctx ≡ next ctx' → ctx' ≡ ctx
unfolding require require_role
role-same none ctx ctx' h = ground arith
role-same (some role) ctx ctx' h = ground arith

module _ (c : Codec) (now : ℕ) (blacklist : TokenBlacklist) where
  abbrev pub Authentic : HttpRequest → Context → Type 0
  Authentic r ctx =
      (token : Text) × (u : User) × (bearer_token r.authorization ≡ some token)
      × (validate_access_token c token now blacklist ≡ ok u)
      × (ctx ≡ set_user u (start r))

  auth-next :
      (r : HttpRequest) (ctx : Context)
      → auth_middleware c now blacklist (auth_part r) (start r) ≡ next ctx
      → Authentic r ctx
  unfolding auth_middleware
  auth-next r ctx h = elim (Bool-cases (r.authorization == [])) [
    | inl e ↦ absurd (ground (arith, e, h))
    | inr e ↦ elim (Option-cases (bearer_token r.authorization)) [
      | inl f ↦ absurd (ground (arith, e, f, h))
      | inr (token, f) ↦ checked token f e (validate_access_token c token now blacklist) refl
    ]
  ]
    where
      checked :
          (token : Text)
          → bearer_token r.authorization ≡ some token
          → (r.authorization == []) ≡ false
          → (v : Result User) → validate_access_token c token now blacklist ≡ v
          → Authentic r ctx
      checked token f e (ok u) v = (token, u, f, v, ground (arith, e, f, v, h))
      checked token f e (err x) v = absurd (ground (arith, e, f, v, h))

  protected-next :
      (r : HttpRequest) (role : Option Text) (ctx : Context)
      → protected_chain c now blacklist r role (start r) ≡ next ctx
      → Authentic r ctx × (require role ctx ≡ next ctx)
  unfolding protected_chain
  protected-next r role ctx h =
      let gate = require_password_change (auth_part r) in
      let auth = auth_middleware c now blacklist (auth_part r) in
      let (m, e, f) = seq-next (auth >=> gate) (require role) (start r) ctx _ refl h in
      let (n, i, j) = seq-next auth gate (start r) m _ refl e in
      let same = role-same role m ctx f ∙ gate-same (auth_part r) n m j in
      (
        subst (Authentic r) (sym same) (auth-next r n i),
        subst (λ x. require role x ≡ next ctx) (sym (role-same role m ctx f)) f,
      )

module _ (hash : Text → Text) (unmarshal : Text → Option S.Value) (marshal : S.Value → Option Text)
    (fresh : Text) (now : ℕ) where
  -- What the middlewares of every request have checked when the body is handed on.
  abbrev pub Cleared : HttpRequest → Shared → Option Text → Type 0
  Cleared r s body =
      ((r.method == codes "OPTIONS") ≡ false)
      × (token : Text) × ((csrf_middleware hash (csrf_part r) fresh now s.csrf).1 ≡ C.pass token)
      × (is_too_large r.content_length ≡ false)
      × ((allow r.client_ip [] r.method r.path now s.limiter).1.allowed ≡ true)
      × (sanitize_input unmarshal marshal default_xss_config (sanitize_part r) ≡ S.next body)

  limited :
      (r : HttpRequest) (s : Shared) (body : Option Text)
      → (limit_and_sanitize unmarshal marshal r now s).1 ≡ passed body
      → ((allow r.client_ip [] r.method r.path now s.limiter).1.allowed ≡ true)
        × (sanitize_input unmarshal marshal default_xss_config (sanitize_part r) ≡ S.next body)
  unfolding limit_and_sanitize
  limited r s body h =
      elim (Bool-cases (allow r.client_ip [] r.method r.path now s.limiter).1.allowed) [
        | inl a ↦ (a, sanitized _ refl (ground (arith, a, h)))
        | inr a ↦ absurd (ground (arith, a, h))
      ]
    where
      sanitized :
          (o : S.Outcome)
          → sanitize_input unmarshal marshal default_xss_config (sanitize_part r) ≡ o
          → passage o ≡ passed body
          → sanitize_input unmarshal marshal default_xss_config (sanitize_part r) ≡ S.next body
      sanitized (S.next b) e k = e ∙ ground (arith, k)
      sanitized S.bad_request e k = absurd (ground (arith, k))

  global-passed :
      (r : HttpRequest) (s : Shared) (body : Option Text)
      → (global_chain hash unmarshal marshal r fresh now s).1 ≡ passed body
      → Cleared r s body
  unfolding global_chain
  global-passed r s body h = elim (Bool-cases (r.method == codes "OPTIONS")) [
    | inl e ↦ absurd (ground (arith, e, h))
    | inr e ↦ tested e _ refl
  ]
    where
      tested :
          (r.method == codes "OPTIONS") ≡ false
          → (o : C.Outcome) → (csrf_middleware hash (csrf_part r) fresh now s.csrf).1 ≡ o
          → Cleared r s body
      tested e C.token_required f = absurd (ground (arith, e, f, h))
      tested e C.token_invalid f = absurd (ground (arith, e, f, h))
      tested e (C.pass token) f = elim (Bool-cases (is_too_large r.content_length)) [
        | inl g ↦ absurd (ground (arith, e, f, g, h))
        | inr g ↦
            let (a, b) =
              limited r
                (record s { csrf = (csrf_middleware hash (csrf_part r) fresh now s.csrf).0 }) body
                (ground (arith, e, f, g, h)) in
            (e, token, f, g, a, b)
      ]

  module _ (c : Codec) (blacklist : TokenBlacklist) where
    entered :
        (r : HttpRequest) (role : Option Text) (ctx : Context) (body : Option Text)
        (x : Shared × Passage)
        → (enter_group c now blacklist r role x).1 ≡ reached ctx body
        → (x.1 ≡ passed body) × (protected_chain c now blacklist r role (start r) ≡ next ctx)
    entered r role ctx body (s, refused status) h = absurd (ground (arith, h))
    entered r role ctx body (s, passed b) h = through _ refl h
      where
        through :
            (o : Outcome)
            → protected_chain c now blacklist r role (start r) ≡ o
            → ending o b ≡ reached ctx body
            → (passed b ≡ passed body)
              × (protected_chain c now blacklist r role (start r) ≡ next ctx)
        through (next m) e k = (ground (arith, k), e ∙ ground (arith, k))
        through (abort status) e k = absurd (ground (arith, k))
        through panic e k = absurd (ground (arith, k))

    -- The handler of a protected route runs only for a request that is no OPTIONS request, has
    -- passed the CSRF check, is not too large and is within the rate limit; its body is what the
    -- sanitiser hands on, its authorization carries an access token that is valid and not
    -- revoked, the context names the token's user and nothing else but the request's id, and that
    -- user meets the route's requirement of a role.
    pub protected_reached :
        (r : HttpRequest) (role : Option Text) (s : Shared) (ctx : Context) (body : Option Text)
        → (serve_protected hash unmarshal marshal c blacklist r role fresh now s).1
          ≡ reached ctx body
        → Cleared r s body × Authentic c now blacklist r ctx × (require role ctx ≡ next ctx)
    unfolding serve_protected
    protected_reached r role s ctx body h =
        let (p, q) =
          entered r role ctx body (global_chain hash unmarshal marshal r fresh now s) h in
        let (authentic, allowed) = protected-next c now blacklist r role ctx q in
        (global-passed r s body p, authentic, allowed)
