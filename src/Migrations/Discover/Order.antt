-- ===== src/Migrations/Discover/Order.antt =====
-- The order in which migrations are found (backend/db/db.go).
use seagles.Common.{
  ℕ, suc, length, ◌≡◌, ◌⊎◌, ◌∙◌, sym, inl, inr, refl, ap, true, false, some, List, [], ◌∷◌, arith,
  ◌==◌, if◌then◌else◌, All, Bool-cases, Option-cases,
}
use mathlib.Core.Path.{subst}
use seagles.Text.{Text, text_eq, text_beq_iff}
use seagles.Migrations.{Migration}
use seagles.Migrations.Resume.{Distinct}
use seagles.Migrations.Discover.{
  Entry, text_ltb, place, sort_by_version, is_migration, migration_of, read_migrations,
  discover_migrations,
}

text_ltb_trans : (s t u : Text) → text_ltb s t ≡ true → text_ltb t u ≡ true → text_ltb s u ≡ true
unfolding text_ltb
text_ltb_trans s t [] h k = ground arith
text_ltb_trans [] t (z ∷ u) h k = refl
text_ltb_trans (x ∷ s) [] (z ∷ u) h k = cc
text_ltb_trans (x ∷ s) (y ∷ t) (z ∷ u) h k = ground (arith, text_ltb_trans s t u)

text_ltb_total : (s t : Text) → text_ltb s t ≡ false → (s == t) ≡ false → text_ltb t s ≡ true
unfolding text_ltb
text_ltb_total [] [] h k = cc
text_ltb_total [] (y ∷ t) h k = cc
text_ltb_total (x ∷ s) [] h k = refl
text_ltb_total (x ∷ s) (y ∷ t) h k = ground (arith, text_ltb_total s t)

text_ltb_irrefl : (s : Text) → text_ltb s s ≡ false
unfolding text_ltb
text_ltb_irrefl [] = refl
text_ltb_irrefl (x ∷ s) = ground (arith, text_ltb_irrefl s)

-- Each version is below all the later ones.
abbrev pub Ascending : List Migration → Type 0
Ascending [] = Unit {0}
Ascending (m ∷ ms) = All (λ n. text_ltb m.version n.version ≡ true) ms × Ascending ms

abbrev Above : Text → List Migration → Type 0
Above v ms = All (λ n. text_ltb v n.version ≡ true) ms

abbrev Apart : Text → List Migration → Type 0
Apart v ms = All (λ n. (v == n.version) ≡ false) ms

Ascending-Distinct : (ms : List Migration) → Ascending ms → Distinct ms
Ascending-Distinct [] h = tt
Ascending-Distinct (m ∷ ms) h = (apart ms h.0, Ascending-Distinct ms h.1)
  where
    apart : (ns : List Migration) → Above m.version ns → Apart m.version ns
    apart [] k = tt
    apart (n ∷ ns) k = (
      ground (arith, k.0, text_beq_iff m.version n.version, text_ltb_irrefl m.version),
      apart ns k.1,
    )

Above-trans : (u v : Text) (ms : List Migration) → text_ltb u v ≡ true → Above v ms → Above u ms
Above-trans u v [] h k = tt
Above-trans u v (n ∷ ms) h k = (text_ltb_trans u v n.version h k.0, Above-trans u v ms h k.1)

module _ {ℓ} (P : Migration → Type ℓ) where
  place-All : (m : Migration) (ms : List Migration) → P m → All P ms → All P (place m ms)
  unfolding place
  place-All m [] p h = (p, tt)
  place-All m (n ∷ ms) p h = elim (Bool-cases (text_ltb n.version m.version)) [
    | inl e ↦ rw (place, e) (h.0, place-All m ms p h.1)
    | inr e ↦ rw (place, e) (p, h)
  ]

  sort-All : (ms : List Migration) → All P ms → All P (sort_by_version ms)
  unfolding sort_by_version
  sort-All [] h = tt
  sort-All (m ∷ ms) h = place-All m (sort_by_version ms) h.0 (sort-All ms h.1)

place-Ascending :
    (m : Migration) (ms : List Migration)
    → Apart m.version ms
    → Ascending ms
    → Ascending (place m ms)
unfolding place
place-Ascending m [] d h = (tt, tt)
place-Ascending m (n ∷ ms) d h = elim (Bool-cases (text_ltb n.version m.version)) [
  | inl e ↦
      rw (place, e)
        (
          place-All (λ x. text_ltb n.version x.version ≡ true) m ms e h.0,
          place-Ascending m ms d.1 h.1,
        )
  | inr e ↦
      let below =
        text_ltb_total n.version m.version e (
          ground
            (arith, d.0, text_beq_iff m.version n.version, text_beq_iff n.version m.version)) in
      rw (place, e) ((below, Above-trans m.version n.version ms below h.0), h)
]

sort-Ascending : (ms : List Migration) → Distinct ms → Ascending (sort_by_version ms)
unfolding sort_by_version
sort-Ascending [] d = tt
sort-Ascending (m ∷ ms) d =
    place-Ascending m (sort_by_version ms) (sort-All (λ n. (m.version == n.version) ≡ false) ms d.0)
      (sort-Ascending ms d.1)

length-place : (m : Migration) (ms : List Migration) → length (place m ms) ≡ suc (length ms)
unfolding place
length-place m [] = refl
length-place m (n ∷ ms) = ground (arith, length-place m ms)

length-sort : (ms : List Migration) → length (sort_by_version ms) ≡ length ms
unfolding sort_by_version
length-sort [] = refl
length-sort (m ∷ ms) = length-place m (sort_by_version ms) ∙ ap suc (length-sort ms)

-- The names of a directory are distinct.
abbrev pub DistinctNames : List Entry → Type 0
DistinctNames [] = Unit {0}
DistinctNames (e ∷ es) = All (λ f. (e.name == f.name) ≡ false) es × DistinctNames es

pub migrations_in : List Entry → ℕ
migrations_in [] = 0
migrations_in (e ∷ es) = if is_migration e then suc (migrations_in es) else migrations_in es

module _ (digest : Text → Text) (dir : Text) where
  -- What the loop does with one entry.
  read-cases :
      (e : Entry) (es : List Entry) (ms : List Migration)
      → read_migrations digest dir (e ∷ es) ≡ some ms
      → ((is_migration e ≡ false) × (read_migrations digest dir es ≡ some ms))
        ⊎ ((content : Text) × (rest : List Migration) × (is_migration e ≡ true)
            × (ms ≡ migration_of digest dir e content ∷ rest)
            × (read_migrations digest dir es ≡ some rest))
  unfolding read_migrations
  read-cases e es ms h = elim (Bool-cases (is_migration e)) [
    | inr i ↦ inl (i, ground (arith, i))
    | inl i ↦ elim (Option-cases e.content) [
      | inl c ↦ ground (arith, i, c)
      | inr (content, c) ↦ elim (Option-cases (read_migrations digest dir es)) [
        | inl r ↦ ground (arith, i, c, r)
        | inr (rest, r) ↦ inr (content, rest, i, ground (arith, i, c, r), r)
      ]
    ]
  ]

  read-nil : (ms : List Migration) → read_migrations digest dir [] ≡ some ms → [] ≡ ms
  unfolding read_migrations
  read-nil ms h = ground arith

  read-Apart :
      (v : Text) (es : List Entry) (ms : List Migration)
      → read_migrations digest dir es ≡ some ms
      → All (λ f. (v == f.name) ≡ false) es
      → Apart v ms
  read-Apart v [] ms h d = subst (Apart v) (read-nil ms h) tt
  read-Apart v (e ∷ es) ms h d = elim (read-cases e es ms h) [
    | inl (i, r) ↦ read-Apart v es ms r d.1
    | inr (content, rest, i, eq, r) ↦ subst (Apart v) (sym eq) (d.0, read-Apart v es rest r d.1)
  ]

  read-Distinct :
      (es : List Entry) (ms : List Migration)
      → read_migrations digest dir es ≡ some ms
      → DistinctNames es
      → Distinct ms × (length ms ≡ migrations_in es)
  unfolding migrations_in
  read-Distinct [] ms h d = subst (λ x. Distinct x × (length x ≡ 0)) (read-nil ms h) (tt, refl)
  read-Distinct (e ∷ es) ms h d = elim (read-cases e es ms h) [
    | inl (i, r) ↦ let (s, n) = read-Distinct es ms r d.1 in (s, rw i n)
    | inr (content, rest, i, eq, r) ↦
        let (s, n) = read-Distinct es rest r d.1 in
        subst (λ x. Distinct x × (length x ≡ migrations_in (e ∷ es))) (sym eq)
          ((read-Apart e.name es rest r d.0, s), rw i (ap suc n))
  ]

  -- The migrations that are found stand in the strictly ascending order of their versions, so that
  -- no two have the same one, and they are as many as the directory has files whose names end in
  -- `.sql`.
  pub discover_migrations_ordered :
      (es : List Entry) (ms : List Migration)
      → DistinctNames es
      → discover_migrations digest dir (some es) ≡ some ms
      → Ascending ms × Distinct ms × (length ms ≡ migrations_in es)
  unfolding discover_migrations
  discover_migrations_ordered es ms d h = elim (Option-cases (read_migrations digest dir es)) [
    | inl e ↦ absurd (ground (arith, e, h))
    | inr (found, e) ↦
        let (s, n) = read-Distinct es found e d in
        let sorted = sort-Ascending found s in
        subst (λ x. Ascending x × Distinct x × (length x ≡ migrations_in es)) (ground (arith, e, h))
          (sorted, Ascending-Distinct (sort_by_version found) sorted, length-sort found ∙ n)
  ]
