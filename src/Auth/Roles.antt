-- ===== src/Auth/Roles.antt =====
-- The role tables of backend/auth/auth.go.
pub mod Permissions
use seagles.Common.{
  ℕ, Bool, true, false, ◌||◌, Option, none, some, List, [], ◌∷◌, ◌++◌, ◌==◌, if◌then◌else◌,
}
use seagles.Dict.{lookup}
use seagles.Text.{Text, codes, text_eq, has_prefix, strip_suffix}

abbrev pub viewer : Text
viewer = codes "viewer"

abbrev pub auditor : Text
auditor = codes "auditor"

abbrev pub operator : Text
operator = codes "operator"

abbrev pub admin : Text
admin = codes "admin"

unfoldable pub role_hierarchy : List (Text × ℕ)
role_hierarchy = (viewer, 0) ∷ (auditor, 1) ∷ (operator, 2) ∷ (admin, 3) ∷ []

unfoldable pub viewer_permissions : List Text
viewer_permissions =
    codes "devices:list"
    ∷ codes "devices:view"
    ∷ codes "scans:list"
    ∷ codes "scans:view"
    ∷ codes "vulnerabilities:list"
    ∷ codes "vulnerabilities:view"
    ∷ codes "alerts:list"
    ∷ codes "alerts:view"
    ∷ codes "firmware:list"
    ∷ codes "firmware:view"
    ∷ codes "stats:view"
    ∷ codes "kev:view"
    ∷ codes "safelists:list"
    ∷ codes "safelists:view"
    ∷ codes "webhooks:list"
    ∷ codes "webhooks:view"
    ∷ codes "users:list"
    ∷ codes "users:view"
    ∷ codes "scan-profiles:list"
    ∷ codes "scan-scopes:list"
    ∷ []

unfoldable pub auditor_permissions : List Text
auditor_permissions =
    codes "devices:list"
    ∷ codes "devices:view"
    ∷ codes "scans:list"
    ∷ codes "scans:view"
    ∷ codes "vulnerabilities:list"
    ∷ codes "vulnerabilities:view"
    ∷ codes "alerts:list"
    ∷ codes "alerts:list_all"
    ∷ codes "firmware:list"
    ∷ codes "firmware:view"
    ∷ codes "stats:view"
    ∷ codes "kev:view"
    ∷ codes "safelists:list"
    ∷ codes "webhooks:list"
    ∷ codes "users:list"
    ∷ codes "scan-profiles:list"
    ∷ codes "scan-scopes:list"
    ∷ codes "audit:view"
    ∷ []

unfoldable pub operator_permissions : List Text
operator_permissions =
    codes "devices:list"
    ∷ codes "devices:view"
    ∷ codes "devices:scan"
    ∷ codes "devices:delete"
    ∷ codes "scans:list"
    ∷ codes "scans:view"
    ∷ codes "scans:create"
    ∷ codes "vulnerabilities:list"
    ∷ codes "vulnerabilities:view"
    ∷ codes "vulnerabilities:resolve"
    ∷ codes "alerts:list"
    ∷ codes "alerts:ack"
    ∷ codes "alerts:dismiss"
    ∷ codes "firmware:list"
    ∷ codes "firmware:view"
    ∷ codes "firmware:upload"
    ∷ codes "firmware:analyze"
    ∷ codes "stats:view"
    ∷ codes "kev:view"
    ∷ codes "safelists:list"
    ∷ codes "safelists:view"
    ∷ codes "safelists:create"
    ∷ codes "safelists:delete"
    ∷ codes "webhooks:list"
    ∷ codes "webhooks:view"
    ∷ codes "webhooks:create"
    ∷ codes "webhooks:delete"
    ∷ codes "webhooks:test"
    ∷ codes "users:list"
    ∷ codes "users:view"
    ∷ codes "scan-profiles:list"
    ∷ codes "scan-scopes:list"
    ∷ codes "scan-scopes:create"
    ∷ codes "scan-scopes:delete"
    ∷ codes "audit:view"
    ∷ []

unfoldable pub admin_permissions : List Text
admin_permissions =
    codes "devices:*"
    ∷ codes "scans:*"
    ∷ codes "vulnerabilities:*"
    ∷ codes "alerts:*"
    ∷ codes "firmware:*"
    ∷ codes "stats:*"
    ∷ codes "kev:*"
    ∷ codes "safelists:*"
    ∷ codes "webhooks:*"
    ∷ codes "users:*"
    ∷ codes "scan-profiles:*"
    ∷ codes "scan-scopes:*"
    ∷ codes "audit:*"
    ∷ codes "admin:*"
    ∷ []

unfoldable pub role_permissions : List (Text × List Text)
role_permissions =
    (viewer, viewer_permissions)
    ∷ (auditor, auditor_permissions)
    ∷ (operator, operator_permissions)
    ∷ (admin, admin_permissions)
    ∷ []

abbrev pub wildcard : Text
wildcard = codes ":*"

abbrev pub colon : Text
colon = codes ":"

-- One entry of a role's list against the permission that is asked for.
unfoldable pub entry_grants : Text → Text → Bool
entry_grants p permission = p == permission || (elim (strip_suffix p wildcard) [
  | none ↦ false
  | some resource ↦ has_prefix permission (resource ++ colon)
])

unfoldable pub any_grants : Text → List Text → Bool
any_grants permission [] = false
any_grants permission (p ∷ ps) = entry_grants p permission || any_grants permission ps

unfoldable pub has_permission : Text → Text → Bool
has_permission role permission = elim (lookup role role_permissions) [
  | none ↦ false
  | some perms ↦ any_grants permission perms
]

abbrev level_of : Option ℕ → ℕ
level_of none = 0
level_of (some n) = n

-- `minLevel` of `RequireRole`: an unknown role counts as a viewer.
unfoldable pub min_level : Text → ℕ
min_level min_role = elim (lookup min_role role_hierarchy) [
  | none ↦ level_of (lookup viewer role_hierarchy)
  | some n ↦ n
]
