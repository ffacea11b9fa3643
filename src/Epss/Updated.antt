-- ===== src/Epss/Updated.antt =====
-- What the update of the EPSS scores leaves in the table (backend/kev/epss.go).
use seagles.Common.{
  ℕ, ◌≡◌, ◌∙◌, sym, refl, inl, inr, Bool, none, some, List, [], ◌∷◌, arith, map, if◌then◌else◌,
  Bool-cases, Option-cases,
}
use mathlib.Core.Path.{subst}
use seagles.Dict.{lookup, IsMap}
use seagles.Text.{Text, text_eq, text_beq_iff}
use seagles.Epss.{EpssScore, Vulnerability, open_cve, set_score, update_row, update_rows}

-- A row after all updates: that of a resolved vulnerability, or one without a score, is as before.
abbrev pub scored : (Text → Bool) → ℕ → List (Text × EpssScore) → Vulnerability → Vulnerability
scored fails now scores v = elim (open_cve v) [
  | none ↦ v
  | some cve ↦
      if fails cve
      then v
      else (elim (lookup cve scores) [ none ↦ v | some s ↦ set_score now cve s v ])
]

abbrev Stepped :
    (Text → Bool) → ℕ → Text → EpssScore → List (Text × EpssScore) → Bool → Vulnerability → Type 0
Stepped fails now cve s scores b v =
    scored fails now scores (if b then v else update_row now cve s v)
    ≡ scored fails now ((cve, s) ∷ scores) v

step_row :
    (fails : Text → Bool) (now : ℕ) (cve : Text) (s : EpssScore) (scores : List (Text × EpssScore))
    (v : Vulnerability)
    → lookup cve scores ≡ none
    → Stepped fails now cve s scores (fails cve) v
unfolding update_row lookup open_cve
step_row fails now cve s scores v n = elim (Bool-cases v.is_resolved) [
  | inl r ↦ ground (arith, r)
  | inr r ↦ elim (Option-cases v.cve_id) [
    | inl e ↦ ground (arith, r, e)
    | inr (c, e) ↦ ground (arith, r, e, n, text_beq_iff c cve, text_beq_iff cve c)
  ]
]

map-same :
    {g h : Vulnerability → Vulnerability} (rows : List Vulnerability)
    → ((v : Vulnerability) → g v ≡ h v)
    → map g rows ≡ map h rows
map-same [] e = refl
map-same (v ∷ rows) e = ground (arith, e v, map-same rows e)

map-map :
    {h : Vulnerability → Vulnerability} (f g : Vulnerability → Vulnerability)
    (rows : List Vulnerability)
    → ((v : Vulnerability) → g (f v) ≡ h v)
    → map g (map f rows) ≡ map h rows
map-map f g [] e = refl
map-map f g (v ∷ rows) e = ground (arith, e v, map-map f g rows e)

unscored : (fails : Text → Bool) (now : ℕ) (v : Vulnerability) → scored fails now [] v ≡ v
unfolding lookup
unscored fails now v = ground arith

pub none_scored :
    (fails : Text → Bool) (now : ℕ) (rows : List Vulnerability)
    → map (scored fails now []) rows ≡ rows
none_scored fails now [] = refl
none_scored fails now (v ∷ rows) = ground (arith, unscored fails now v, none_scored fails now rows)

-- The statements one after the other, of which those for some ids fail, are one pass over the
-- table: each open vulnerability gets the score of its id, and the others are as before.
pub update_rows-map :
    (fails : Text → Bool) (now : ℕ) (scores : List (Text × EpssScore)) (rows : List Vulnerability)
    → IsMap scores
    → update_rows fails now scores rows ≡ map (scored fails now scores) rows
unfolding update_rows
update_rows-map fails now [] rows m = sym (none_scored fails now rows)
update_rows-map fails now ((cve, s) ∷ scores) rows m = elim (Bool-cases (fails cve)) [
  | inl f ↦
      rw (update_rows, f)
        (update_rows-map fails now scores rows m.1
          ∙ map-same rows (λ v.
            subst (λ b. Stepped fails now cve s scores b v) f
              (step_row fails now cve s scores v m.0)))
  | inr f ↦
      rw (update_rows, f)
        (update_rows-map fails now scores (map (update_row now cve s) rows) m.1
          ∙ map-map (update_row now cve s) (scored fails now scores) rows (λ v.
            subst (λ b. Stepped fails now cve s scores b v) f
              (step_row fails now cve s scores v m.0)))
]
