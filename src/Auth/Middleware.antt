-- ===== src/Auth/Middleware.antt =====
-- The request context of gin and the middlewares of backend/auth/auth.go that read and write it.
pub mod Gate
pub mod Access
use seagles.Common.{
  ℕ, Bool, true, false, not, ◌||◌, Option, none, some, List, [], ◌∷◌, ◌==◌, if◌then◌else◌, ltb,
}
use seagles.Dict.{lookup, insert, is_some}
use seagles.Text.{Text, codes, text_eq, cut, to_lower}
use seagles.Auth.{User}
use seagles.Auth.Tokens.{Codec, ok, err, validate_access_token}
use seagles.Auth.Roles.{role_hierarchy, min_level, has_permission}
use seagles.Blacklist.{TokenBlacklist}

-- A value of the context with its dynamic type: a `User`, a pointer to one, or a `string`.
pub data Value : Type 0 where
  user : User → Value
  user_pointer : User → Value
  text : Text → Value

abbrev pub Context : Type 0
Context = List (Text × Value)

pub record Request : Type 0 where
  pub authorization : Text
  pub path : Text

-- A middleware hands on to the next handler, answers with a status, or panics.
pub data Outcome : Type 0 where
  next : Context → Outcome
  abort : ℕ → Outcome
  panic : Outcome

infixl 5 ◌>=>◌
abbrev pub ◌>=>◌ : (Context → Outcome) → (Context → Outcome) → Context → Outcome
(f >=> g) ctx = elim (f ctx) [ next ctx' ↦ g ctx' | abort status ↦ abort status | panic ↦ panic ]

unfoldable pub bearer_token : Text → Option Text
bearer_token header = elim (cut 32 header) [
  | none ↦ none
  | some (scheme, token) ↦ if to_lower scheme == codes "bearer" then some token else none
]

unfoldable pub set_user : User → Context → Context
set_user u ctx = insert (codes "token_id") (text u.token_id) (
    insert (codes "user_role") (text u.role) (
      insert (codes "username") (text u.username)
        (insert (codes "user_id") (text u.id) (insert (codes "user") (user_pointer u) ctx))))

module _ (c : Codec) (now : ℕ) (blacklist : TokenBlacklist) (r : Request) where
  unfoldable pub auth_middleware : Context → Outcome
  auth_middleware ctx =
      if r.authorization == [] then abort 401 else (elim (bearer_token r.authorization) [
        | none ↦ abort 401
        | some token ↦ elim (validate_access_token c token now blacklist) [
          | ok u ↦ next (set_user u ctx)
          | err e ↦ abort 401
        ]
      ])

allowed_paths : List Text
allowed_paths =
    codes "/api/v1/auth/change-password"
    ∷ codes "/api/v1/auth/me"
    ∷ codes "/api/v1/auth/logout"
    ∷ codes "/api/v1/auth/permissions"
    ∷ []

abbrev pub member : Text → List Text → Bool
member t [] = false
member t (x ∷ xs) = x == t || member t xs

unfoldable pub may_reach : Text → Bool
unfolding allowed_paths
may_reach path = member path allowed_paths

-- `user.(User)`
abbrev pub as_user : Value → Option User
as_user (user u) = some u
as_user (user_pointer u) = none
as_user (text t) = none

unfoldable pub require_password_change : Request → Context → Outcome
require_password_change r ctx = elim (lookup (codes "user") ctx) [
  | none ↦ next ctx
  | some v ↦ elim (as_user v) [
    | none ↦ next ctx
    | some u ↦
        if not u.must_change_password
        then next ctx
        else (if may_reach r.path then next ctx else abort 403)
  ]
]

-- `role.(string)`, which panics at another type.
unfoldable pub require_role : Text → Context → Outcome
require_role min_role ctx = elim (lookup (codes "user_role") ctx) [
  | none ↦ abort 403
  | some (text role) ↦ elim (lookup role role_hierarchy) [
    | none ↦ abort 403
    | some level ↦ if ltb level (min_level min_role) then abort 403 else next ctx
  ]
  | some _ ↦ panic
]

abbrev pub admin_only : Context → Outcome
admin_only = require_role (codes "admin")

unfoldable pub require_permission : Text → Context → Outcome
require_permission permission ctx = elim (lookup (codes "user_role") ctx) [
  | none ↦ abort 403
  | some (text role) ↦ if has_permission role permission then next ctx else abort 403
  | some _ ↦ panic
]
