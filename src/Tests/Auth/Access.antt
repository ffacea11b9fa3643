-- ===== src/Tests/Auth/Access.antt =====
-- Who gets through: tokens, the password gate, roles and permissions (backend/auth).
use seagles.Common.{◌+◌, ◌*◌, ◌≡◌, ◌≢◌, ◌↔◌, refl, true, some, List, [], ◌∷◌, ◌++◌, arith}
use seagles.Clock.{hour, second}
use seagles.Dict.{lookup}
use seagles.Text.{Text, codes, text_eq, strip_suffix}
use seagles.Auth.Tokens.{ok, validate_access_token}
use seagles.Auth.Tokens.RoundTrip.{validate-generate}
use seagles.Auth.Tokens.Revocation.{revoked_forever}
use seagles.Auth.Roles.{
  role_permissions, has_permission, any_grants, entry_grants, operator_permissions,
}
use seagles.Auth.Roles.Permissions.{Grants, Some, has_permission_iff}
use seagles.Auth.Middleware.{
  text, ◌>=>◌, Request, Context, auth_middleware, require_password_change,
}
use seagles.Auth.Middleware.Gate.{gate_inert}
use seagles.Blacklist.{TokenBlacklist, add, is_blacklisted}
use seagles.Blacklist.Revoked.{adds, cleans, apply_all}
use seagles.Tests.Auth.Codec.{codec, codec-IsCodec, ann, jti, issued, claims, token, token_made}

abbrev pub nothing : TokenBlacklist
nothing = record { entries = []; max_ttl = 24 * hour }

abbrev request : Request
request = record { authorization = codes "Bearer " ++ token; path = codes "/api/v1/devices" }

gate_inert_example :
    (auth_middleware codec issued nothing request >=> require_password_change request) []
    ≡ auth_middleware codec issued nothing request []
gate_inert_example = gate_inert codec issued nothing request []

revoked_forever_example :
    validate_access_token codec token (issued + 5 * hour) (
      apply_all
        (adds (codes "j2") (issued + 2 * hour) ∷ cleans (issued + 3 * hour) ∷ [])
        (add jti (issued + hour) nothing))
    ≢ ok ann
revoked_forever_example =
    revoked_forever codec codec-IsCodec ann jti token claims issued (issued + hour)
      (issued + 5 * hour) (adds (codes "j2") (issued + 2 * hour) ∷ cleans (issued + 3 * hour) ∷ [])
      nothing ann token_made tt refl (omega arith) (omega arith)
      ((omega arith, omega arith), (omega arith, tt))

validate-generate_example :
    validate_access_token codec token (issued + second) nothing
    ≡ ok (record ann { email = []; token_id = jti })
validate-generate_example =
    validate-generate codec codec-IsCodec ann jti issued (issued + second) token claims nothing
      (ground arith) (ground arith) token_made (omega arith) (unfold is_blacklisted lookup in refl)

has_permission_iff_example : (has_permission (codes "operator") (codes "devices:view") ≡ true) ↔ (
    (ps : List Text) × (lookup (codes "operator") role_permissions ≡ some ps)
    × Some (Grants (codes "devices:view")) ps)
has_permission_iff_example = has_permission_iff (codes "operator") (codes "devices:view")

operator_views : has_permission (codes "operator") (codes "devices:view") ≡ true
unfolding has_permission role_permissions lookup any_grants entry_grants operator_permissions
    strip_suffix
operator_views = refl

abbrev context : Context
context = (codes "user_role", text (codes "operator")) ∷ []
