-- ===== src/Migrations.antt =====
-- backend/db/db.go: the migrations. `S` is what the SQL files act on, and `exec` is one of them run
-- inside a transaction, which either succeeds or leaves nothing behind. Which of the other
-- statements fail is an argument.
pub mod Discover
pub mod Runs
pub mod Resume
use seagles.Common.{
  ℕ, Bool, true, false, not, ◌&&◌, ◌||◌, Option, none, some, List, [], ◌∷◌, ◌++◌, ltb, nat_beq,
  ◌==◌, if◌then◌else◌,
}
use seagles.Dict.{lookup, insert, is_some}
use seagles.Text.{Text, codes, text_eq}

pub record Migration : Type 0 where
  pub version : Text
  pub path : Text
  pub content : Text
  pub checksum : Text

-- The rows of schema_migrations are keyed by their versions, the primary key.
pub record Db {ℓ} (S : Type ℓ) : Type ℓ where
  pub schema : S
  pub schema_migrations : List (Text × Text)

pub data Error : Type 0 where
  discover_failed create_table_failed read_failed : Error
  modified begin_failed exec_failed record_failed commit_failed : Text → Error

-- The statements that fail, for one migration and for a run.
pub record TxFaults : Type 0 where
  pub begin : Bool
  pub record_row : Bool
  pub commit : Bool

pub record Faults : Type 0 where
  pub create_table : Bool
  pub read_rows : Bool
  pub tx : Text → TxFaults

-- A statement that is rolled back, or a transaction that is committed.
pub data Applied {ℓ} (S : Type ℓ) : Type ℓ where
  rolled_back : Error → Applied S
  committed : Db S → Applied S

module _ {ℓ} {S : Type ℓ} (exec : Text → S → Option S) where
  -- One migration in a transaction of its own; a version that is there already breaks the primary
  -- key.
  unfoldable pub apply_migration : TxFaults → Migration → Db S → Applied S
  apply_migration f m db =
      if f.begin then rolled_back (begin_failed m.version) else (elim (exec m.content db.schema) [
        | none ↦ rolled_back (exec_failed m.version)
        | some schema' ↦
            if f.record_row || is_some (lookup m.version db.schema_migrations)
            then rolled_back (record_failed m.version)
            else (if f.commit
                then rolled_back (commit_failed m.version)
                else committed (record {
                  schema = schema';
                  schema_migrations = insert m.version m.checksum db.schema_migrations;
                }))
      ])

  -- The loop of `RunMigrations`; `applied` are the rows that were read before it.
  unfoldable pub run_pending :
      (Text → TxFaults) → List (Text × Text) → List Migration → Db S → Db S × Option Error
  unfolding apply_migration
  run_pending f applied [] db = (db, none)
  run_pending f applied (m ∷ ms) db = elim (lookup m.version applied) [
    | some prev ↦
        if prev == m.checksum then run_pending f applied ms db else (db, some (modified m.version))
    | none ↦ elim (apply_migration (f m.version) m db) [
      | rolled_back e ↦ (db, some e)
      | committed db' ↦ run_pending f applied ms db'
    ]
  ]

  -- `RunMigrations` on what `DiscoverMigrations` returns.
  unfoldable pub run_migrations : Faults → Option (List Migration) → Db S → Db S × Option Error
  unfolding run_pending
  run_migrations f none db = (db, some discover_failed)
  run_migrations f (some ms) db =
      if f.create_table
      then (db, some create_table_failed)
      else (if f.read_rows
          then (db, some read_failed)
          else run_pending f.tx db.schema_migrations ms db)
