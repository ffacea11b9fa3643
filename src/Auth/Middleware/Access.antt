-- ===== src/Auth/Middleware/Access.antt =====
-- Which roles pass `RequireRole` (backend/auth/auth.go).
use seagles.Common.{
  ℕ, ◌≤◌, ◌<◌, ◌≡◌, ◌⊎◌, ◌↔◌, inl, inr, some, arith, Option-cases, Bool-cases, ltb,
}
use seagles.Dict.{lookup}
use seagles.Text.{Text, codes, text_eq}
use seagles.Auth.Roles.{role_hierarchy, min_level}
use seagles.Auth.Middleware.{text, Context, next, abort, require_role}

module _ (ctx : Context) (role : Text) (e : lookup (codes "user_role") ctx ≡ some (text role)) where
  role_cases :
      (min_role : Text)
      → ((require_role min_role ctx ≡ abort 403)
          × ((n : ℕ) → lookup role role_hierarchy ≡ some n → n < min_level min_role))
        ⊎ ((n : ℕ) × (require_role min_role ctx ≡ next ctx)
            × (lookup role role_hierarchy ≡ some n)
            × (min_level min_role ≤ n))
  unfolding require_role
  role_cases min_role = elim (Option-cases (lookup role role_hierarchy)) [
    | inl f ↦ inl (ground (arith, e, f), λ n g. ground (arith, f, g))
    | inr (level, f) ↦ elim (Bool-cases (ltb level (min_level min_role))) [
      | inl g ↦ inl (ground (arith, e, f, g), λ n h. ground (arith, f, g, h))
      | inr g ↦ inr (level, ground (arith, e, f, g), f, ground (arith, g))
    ]
  ]

  -- A request whose role the context knows passes exactly if the role is in the hierarchy, at or
  -- above the level that is required; otherwise it is refused with 403.
  pub require_role_iff :
      (min_role : Text)
      → ((require_role min_role ctx ≡ next ctx)
          ↔ ((n : ℕ) × (lookup role role_hierarchy ≡ some n) × (min_level min_role ≤ n)))
        × ((require_role min_role ctx ≡ next ctx) ⊎ (require_role min_role ctx ≡ abort 403))
  require_role_iff min_role = elim (role_cases min_role) [
    | inl (refused, low) ↦ (
      (λ h. ground (arith, h, refused), λ (n, f, g). absurd (omega (arith, low n f, g))),
      inr refused,
    )
    | inr (n, passed, f, g) ↦ ((λ h. (n, f, g), λ x. passed), inl passed)
  ]

  -- Who passes a requirement passes every weaker one.
  pub require_role_mono :
      (min_role weaker : Text)
      → min_level weaker ≤ min_level min_role
      → require_role min_role ctx ≡ next ctx
      → require_role weaker ctx ≡ next ctx
  require_role_mono min_role weaker h p =
      let (n, f, g) = (require_role_iff min_role).0.0 p in
      (require_role_iff weaker).0.1 (n, f, omega (arith, g, h))
