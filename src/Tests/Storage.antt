-- ===== src/Tests/Storage.antt =====
-- Runs of the migrations, and clients of the hub.
use seagles.Common.{◌≡◌, refl, false, Option, some, List, [], ◌∷◌, length}
use seagles.Text.{Text, codes, strip_suffix}
use seagles.Migrations as M
use seagles.Migrations.{Migration, run_migrations, run_pending, apply_migration}
use seagles.Migrations.Resume.{calm, Distinct, run_migrations_resumes}
use seagles.Migrations.Discover.{
  Entry, discover_migrations, migration_of, is_migration, sort_by_version, text_ltb,
}
use seagles.Migrations.Discover.Order.{Ascending, migrations_in, discover_migrations_ordered}
use seagles.Hub.{WsHub, new_hub}
use seagles.Hub.Safe as H
use seagles.Hub.Fits.{Inv, new_hub-Inv}
use seagles.Hub.Safe.{apply_all, hub_safe}

-- The schema is the list of files that were run.
abbrev exec : Text → List Text → Option (List Text)
exec t done = some (t ∷ done)

abbrev file : Text → Migration
file name = record { version = name; path = name; content = name; checksum = name }

abbrev files : List Migration
files = file (codes "1.sql") ∷ file (codes "2.sql") ∷ []

abbrev fresh : M.Db (List Text)
fresh = record { schema = []; schema_migrations = [] }

abbrev lucky : M.Faults
lucky = record { create_table = false; read_rows = false; tx = calm }

-- The second migration cannot be committed.
abbrev unlucky : M.Faults
unlucky = record {
  create_table = false;
  read_rows = false;
  tx = λ v. record { begin = false; record_row = false; commit = text_ltb (codes "1.sql") v };
}

run_migrations_resumes_example :
    run_migrations exec lucky (some files) (run_migrations exec unlucky (some files) fresh).0
    ≡ run_migrations exec lucky (some files) fresh
run_migrations_resumes_example =
    run_migrations_resumes exec unlucky lucky files fresh ((refl, tt), (tt, tt)) refl refl refl

abbrev entry : Text → Entry
entry name = record { name = name; is_dir = false; content = some name }

abbrev listing : List Entry
listing = entry (codes "2.sql") ∷ entry (codes "notes") ∷ entry (codes "1.sql") ∷ []

abbrev found : List Migration
found =
    migration_of (λ t. t) (codes "d") (entry (codes "1.sql")) (codes "1.sql")
    ∷ migration_of (λ t. t) (codes "d") (entry (codes "2.sql")) (codes "2.sql")
    ∷ []

discover_migrations_ordered_example :
    Ascending found × Distinct found × (length found ≡ migrations_in listing)
discover_migrations_ordered_example =
    discover_migrations_ordered (λ t. t) (codes "d") listing found
      ((refl, (refl, tt)), ((refl, tt), (tt, tt)))
      (unfold discover_migrations is_migration sort_by_version text_ltb strip_suffix in refl)

abbrev events : List H.Op
events =
    H.connects 1
    ∷ H.connects 2
    ∷ H.broadcasts (codes "a")
    ∷ H.unregisters 1
    ∷ H.unregisters 1
    ∷ H.broadcasts (codes "b")
    ∷ H.takes 2
    ∷ []

hub_safe_example : (h' : WsHub) × (apply_all events new_hub ≡ some h') × Inv h'
hub_safe_example = hub_safe events new_hub new_hub-Inv
