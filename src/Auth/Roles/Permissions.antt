-- ===== src/Auth/Roles/Permissions.antt =====
-- What `HasPermission` of backend/auth/auth.go decides.
use seagles.Common.{
  ◌≡◌, refl, ◌∙◌, ◌↔◌, ◌⊎◌, inl, inr, Bool, true, not, ◌&&◌, some, List, [], ◌∷◌, ◌++◌, arith, ◌==◌,
  Bool-cases, Option-cases, all,
}
use mathlib.Core.List.{append_assoc}
use seagles.Dict.{lookup, is_some}
use seagles.Text.{Text, text_eq, text_beq_iff, has_prefix, strip_suffix}
use seagles.Text.Prefix.{
  has_prefix_sound, has_prefix-append, strip_suffix_sound, strip_suffix-append,
}
use seagles.Auth.Roles.{
  admin, role_permissions, wildcard, colon, entry_grants, any_grants, has_permission,
  viewer_permissions, auditor_permissions, operator_permissions, admin_permissions,
}

-- An entry grants a permission by naming it, or as the wildcard of its resource.
pub data Grants (permission : Text) : Text → Type 0 where
  exact : {p : Text} → p ≡ permission → Grants permission p
  under :
      {p : Text} (resource action : Text)
      → p ≡ resource ++ wildcard
      → permission ≡ resource ++ (colon ++ action)
      → Grants permission p

abbrev pub Some : (Text → Type 0) → List Text → Type 0
Some P [] = ⊥
Some P (x ∷ xs) = P x ⊎ Some P xs

entry_sound : (p permission : Text) → entry_grants p permission ≡ true → Grants permission p
unfolding entry_grants
entry_sound p permission h = elim (Bool-cases (p == permission)) [
  | inl e ↦ exact ((text_beq_iff p permission).0 e)
  | inr e ↦ elim (Option-cases (strip_suffix p wildcard)) [
    | inl f ↦ absurd (ground (arith, h, e, f))
    | inr (resource, f) ↦
        let (action, g) =
          has_prefix_sound permission (resource ++ colon) (ground (arith, h, e, f)) in
        under resource action (strip_suffix_sound p wildcard resource f)
          (g ∙ append_assoc resource colon action)
  ]
]

entry_complete : (p permission : Text) → Grants permission p → entry_grants p permission ≡ true
unfolding entry_grants
entry_complete p permission (exact e) = ground (arith, text_beq_iff p permission)
entry_complete p permission (under resource action e f) = ground (
  arith,
  e,
  strip_suffix-append resource wildcard,
  f,
  append_assoc resource colon action,
  has_prefix-append (resource ++ colon) action,
)

any_sound :
    (permission : Text) (ps : List Text)
    → any_grants permission ps ≡ true
    → Some (Grants permission) ps
unfolding any_grants
any_sound permission [] h = cc
any_sound permission (p ∷ ps) h = elim (Bool-cases (entry_grants p permission)) [
  | inl e ↦ inl (entry_sound p permission e)
  | inr e ↦ inr (any_sound permission ps (ground (arith, h, e)))
]

any_complete :
    (permission : Text) (ps : List Text)
    → Some (Grants permission) ps
    → any_grants permission ps ≡ true
unfolding any_grants
any_complete permission [] h = absurd h
any_complete permission (p ∷ ps) (inl g) = ground (arith, entry_complete p permission g)
any_complete permission (p ∷ ps) (inr s) = ground (arith, any_complete permission ps s)

-- A role has a permission exactly if the role is in the table and an entry of its list names the
-- permission or is the wildcard of a resource that the permission's name begins with, before a colon.
pub has_permission_iff :
    (role permission : Text)
    → (has_permission role permission ≡ true)
      ↔ ((ps : List Text) × (lookup role role_permissions ≡ some ps) × Some (Grants permission) ps)
unfolding has_permission
has_permission_iff role permission = (there, back)
  where
    there :
        has_permission role permission ≡ true
        → (ps : List Text) × (lookup role role_permissions ≡ some ps) × Some (Grants permission) ps
    there h = elim (Option-cases (lookup role role_permissions)) [
      | inl e ↦ absurd (ground (arith, h, e))
      | inr (ps, e) ↦ (ps, e, any_sound permission ps (ground (arith, h, e)))
    ]

    back :
        (ps : List Text) × (lookup role role_permissions ≡ some ps) × Some (Grants permission) ps
        → has_permission role permission ≡ true
    back (ps, e, s) = ground (arith, e, any_complete permission ps s)

-- The entries are plain names, and the administrator has each of them.
abbrev covered : List Text → Bool
covered = all (λ p. not (is_some (strip_suffix p wildcard)) && any_grants p admin_permissions)

covered_sound :
    (permission : Text) (ps : List Text)
    → covered ps ≡ true
    → any_grants permission ps ≡ true
    → any_grants permission admin_permissions ≡ true
unfolding any_grants entry_grants
covered_sound permission [] c h = cc
covered_sound permission (p ∷ ps) c h = elim (Bool-cases (p == permission)) [
  | inl e ↦ ground (arith, c, text_beq_iff p permission, e)
  | inr e ↦ covered_sound permission ps (ground (arith, c)) (ground (arith, c, h, e))
]

viewer_covered : covered viewer_permissions ≡ true
unfolding viewer_permissions admin_permissions any_grants entry_grants strip_suffix has_prefix
viewer_covered = refl

auditor_covered : covered auditor_permissions ≡ true
unfolding auditor_permissions admin_permissions any_grants entry_grants strip_suffix has_prefix
auditor_covered = refl

operator_covered : covered operator_permissions ≡ true
unfolding operator_permissions admin_permissions any_grants entry_grants strip_suffix has_prefix
operator_covered = refl

-- Every row of a table gives nothing that the administrator lacks.
abbrev Below : List (Text × List Text) → Type 0
Below [] = Unit {0}
Below ((role, ps) ∷ table) = ((covered ps ≡ true) ⊎ (ps ≡ admin_permissions)) × Below table

table_sound :
    (role permission : Text) (ps : List Text) (table : List (Text × List Text))
    → Below table
    → lookup role table ≡ some ps
    → any_grants permission ps ≡ true
    → any_grants permission admin_permissions ≡ true
unfolding lookup
table_sound role permission ps [] b e h = cc
table_sound role permission ps ((name, qs) ∷ table) b e h = elim (Bool-cases (name == role)) [
  | inl hit ↦ elim b.0 [
    | inl c ↦ covered_sound permission qs c (ground (arith, e, hit, h))
    | inr q ↦ ground (arith, e, hit, h, q)
  ]
  | inr miss ↦ table_sound role permission ps table b.1 (ground (arith, e, miss)) h
]

table-Below : Below role_permissions
unfolding role_permissions
table-Below = (inl viewer_covered, (inl auditor_covered, (inl operator_covered, (inr refl, tt))))

admin_row : lookup admin role_permissions ≡ some admin_permissions
unfolding role_permissions lookup
admin_row = refl

-- Whatever permission some role has, the administrator has too.
pub admin_has_all :
    (role permission : Text)
    → has_permission role permission ≡ true
    → has_permission admin permission ≡ true
admin_has_all role permission h =
    let (ps, e, s) = (has_permission_iff role permission).0 h in
    (has_permission_iff admin permission).1 (
      admin_permissions,
      admin_row,
      any_sound permission admin_permissions (
          table_sound role permission ps role_permissions table-Below e
            (any_complete permission ps s)),
    )
