-- ===== src/Auth/Middleware/Gate.antt =====
-- The gate for accounts that must change their password (backend/auth/auth.go), behind
-- `AuthMiddleware` as backend/api/router.go chains them.
use seagles.Common.{
  ℕ, ◌≡◌, refl, ◌⊎◌, inl, inr, some, [], arith, ◌==◌, if◌then◌else◌, Bool-cases, Option-cases,
}
use seagles.Dict.{lookup, lookup-insert}
use seagles.Text.{codes, text_eq}
use seagles.Auth.{User}
use seagles.Auth.Tokens.{Codec, Result, ok, err, TokenError, validate_access_token}
use seagles.Auth.Middleware.{
  user, user_pointer, Context, Request, next, abort, ◌>=>◌, bearer_token, set_user, auth_middleware,
  may_reach, require_password_change,
}
use seagles.Blacklist.{TokenBlacklist}

-- Where the context holds a `User` as a value, the gate does what it is for: a request is refused
-- with 403 exactly if the user must change the password and the path is not one of the four that
-- are needed for it.
pub gate_on_value :
    (r : Request) (ctx : Context) (u : User)
    → lookup (codes "user") ctx ≡ some (user u)
    → require_password_change r ctx ≡ (
        if u.must_change_password
        then (if may_reach r.path then next ctx else abort 403)
        else next ctx)
unfolding require_password_change
gate_on_value r ctx u e = ground (arith, e)

stored_user :
    (u : User) (ctx : Context) → lookup (codes "user") (set_user u ctx) ≡ some (user_pointer u)
unfolding set_user
stored_user u ctx = simp lookup-insert

passes_pointer :
    (r : Request) (ctx : Context) (u : User)
    → lookup (codes "user") ctx ≡ some (user_pointer u)
    → require_password_change r ctx ≡ next ctx
unfolding require_password_change
passes_pointer r ctx u e = ground (arith, e)

pub Result-cases {ℓ} :
    {A : Type ℓ} (r : Result A) → ((a : A) × (r ≡ ok a)) ⊎ ((e : TokenError) × (r ≡ err e))
Result-cases (ok a) = inl (a, refl)
Result-cases (err e) = inr (e, refl)

module _ (c : Codec) (now : ℕ) (blacklist : TokenBlacklist) (r : Request) (ctx : Context) where
  -- What `AuthMiddleware` hands on is the context with the user of an accepted token set.
  auth_cases :
      ((status : ℕ) × (auth_middleware c now blacklist r ctx ≡ abort status))
      ⊎ ((u : User) × (auth_middleware c now blacklist r ctx ≡ next (set_user u ctx)))
  unfolding auth_middleware
  auth_cases = elim (Bool-cases (r.authorization == [])) [
    | inl e ↦ inl (401, ground (arith, e))
    | inr e ↦ elim (Option-cases (bearer_token r.authorization)) [
      | inl f ↦ inl (401, ground (arith, e, f))
      | inr (token, f) ↦ elim (Result-cases (validate_access_token c token now blacklist)) [
        | inl (u, g) ↦ inr (u, ground (arith, e, f, g))
        | inr (x, g) ↦ inl (401, ground (arith, e, f, g))
      ]
    ]
  ]

  -- Behind `AuthMiddleware` the gate never refuses anything: the chain of the two behaves as
  -- `AuthMiddleware` alone, at every request and for every user, since the context holds a pointer
  -- to the user and the gate looks for a value.
  pub gate_inert :
      (auth_middleware c now blacklist r >=> require_password_change r) ctx
      ≡ auth_middleware c now blacklist r ctx
  gate_inert = elim auth_cases [
    | inl (status, e) ↦ ground (arith, e)
    | inr (u, e) ↦ ground (arith, e, passes_pointer r (set_user u ctx) u (stored_user u ctx))
  ]
