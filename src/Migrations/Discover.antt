-- ===== src/Migrations/Discover.antt =====
-- `DiscoverMigrations` of backend/db/db.go: the files of a directory, in the order of their names.
-- `digest` is SHA-256 in hexadecimal.
pub mod Order
use seagles.Common.{
  ℕ, Bool, true, false, not, ◌&&◌, ◌||◌, Option, none, some, List, [], ◌∷◌, ◌++◌, ltb, nat_beq,
  if◌then◌else◌,
}
use seagles.Dict.{is_some}
use seagles.Text.{Text, codes, strip_suffix}
use seagles.Migrations.{Migration}

-- `content` is none where the file cannot be read.
pub record Entry : Type 0 where
  pub name : Text
  pub is_dir : Bool
  pub content : Option Text

-- Go's `<` on strings.
unfoldable pub text_ltb : Text → Text → Bool
text_ltb s [] = false
text_ltb [] (y ∷ t) = true
text_ltb (x ∷ s) (y ∷ t) = ltb x y || (nat_beq x y && text_ltb s t)

-- sort.Slice by version
unfoldable pub place : Migration → List Migration → List Migration
unfolding text_ltb
place m [] = m ∷ []
place m (n ∷ ms) =
    let rest = place m ms in if text_ltb n.version m.version then n ∷ rest else m ∷ n ∷ ms

unfoldable pub sort_by_version : List Migration → List Migration
unfolding place
sort_by_version [] = []
sort_by_version (m ∷ ms) = place m (sort_by_version ms)

-- The entries that the loop does not pass over.
unfoldable pub is_migration : Entry → Bool
is_migration e = not e.is_dir && is_some (strip_suffix e.name (codes ".sql"))

abbrev cons_migration : Migration → Option (List Migration) → Option (List Migration)
cons_migration m none = none
cons_migration m (some ms) = some (m ∷ ms)

module _ (digest : Text → Text) (dir : Text) where
  abbrev pub migration_of : Entry → Text → Migration
  migration_of e content = record {
    version = e.name;
    path = dir ++ (codes "/" ++ e.name);
    content = content;
    checksum = digest content;
  }

  unfoldable pub read_migrations : List Entry → Option (List Migration)
  unfolding is_migration
  read_migrations [] = some []
  read_migrations (e ∷ es) =
      let rest = read_migrations es in
      if is_migration e
      then (elim e.content [
        | none ↦ none
        | some content ↦ cons_migration (migration_of e content) rest
      ])
      else rest

  -- `entries` is none where the directory cannot be read.
  unfoldable pub discover_migrations : Option (List Entry) → Option (List Migration)
  unfolding read_migrations sort_by_version
  discover_migrations none = none
  discover_migrations (some entries) = elim (read_migrations entries) [
    | none ↦ none
    | some ms ↦ some (sort_by_version ms)
  ]
