-- ===== src/Migrations/Runs.antt =====
-- What a run of the migrations leaves in the database (backend/db/db.go).
use seagles.Common.{
  ◌≡◌, ◌⊎◌, ◌∙◌, sym, inl, inr, refl, ap, false, Option, none, some, List, [], ◌∷◌, arith, ◌==◌,
  beq_refl, All, Bool-cases, Option-cases,
}
use mathlib.Core.Path.{subst}
use seagles.Dict.{lookup, insert, lookup-insert}
use seagles.Text.{Text, text_eq, text_beq_iff}
use seagles.Migrations.{
  Migration, Db, Error, modified, create_table_failed, read_failed, TxFaults, Faults, Applied,
  rolled_back, committed, apply_migration, run_pending, run_migrations,
}

-- The first table has the rows of the second one.
abbrev pub Extends : List (Text × Text) → List (Text × Text) → Type 0
Extends new old = (v c : Text) → lookup v old ≡ some c → lookup v new ≡ some c

abbrev pub Recorded : List (Text × Text) → Migration → Type 0
Recorded rows m = lookup m.version rows ≡ some m.checksum

insert-Extends :
    (v c : Text) (rows : List (Text × Text)) → lookup v rows ≡ none → Extends (insert v c rows) rows
insert-Extends v c rows h w d e = ground (arith, lookup-insert v w c rows, text_beq_iff v w)

insert_found : (v c : Text) (rows : List (Text × Text)) → lookup v (insert v c rows) ≡ some c
insert_found v c rows = ground (arith, lookup-insert v v c rows, text_beq_iff v v)

module _ {ℓ} {S : Type ℓ} (exec : Text → S → Option S) where
  -- What a committed transaction has done.
  pub committed_rows :
      (f : TxFaults) (m : Migration) (db db' : Db S)
      → apply_migration exec f m db ≡ committed db'
      → (lookup m.version db.schema_migrations ≡ none)
        × (db'.schema_migrations ≡ insert m.version m.checksum db.schema_migrations)
  unfolding apply_migration
  committed_rows f m db db' h = elim (Option-cases (exec m.content db.schema)) [
    | inl e ↦ ground (arith, e)
    | inr (s, e) ↦ elim (Option-cases (lookup m.version db.schema_migrations)) [
      | inl g ↦ (g, ground (arith, e, g))
      | inr (c, g) ↦ absurd (ground (arith, e, g))
    ]
  ]

  abbrev pub Step :
      (Text → TxFaults) → List (Text × Text) → Migration → List Migration → Db S → Type ℓ
  Step f applied m ms db =
      ((lookup m.version applied ≡ some m.checksum)
        × (run_pending exec f applied (m ∷ ms) db ≡ run_pending exec f applied ms db))
      ⊎ ((e : Error) × (run_pending exec f applied (m ∷ ms) db ≡ (db, some e)))
      ⊎ ((db' : Db S) × (lookup m.version applied ≡ none)
          × (apply_migration exec (f m.version) m db ≡ committed db')
          × (run_pending exec f applied (m ∷ ms) db ≡ run_pending exec f applied ms db'))

  applied_step :
      (f : Text → TxFaults) (applied : List (Text × Text)) (m : Migration) (ms : List Migration)
      (db : Db S) (r : Applied S)
      → lookup m.version applied ≡ none
      → apply_migration exec (f m.version) m db ≡ r
      → Step f applied m ms db
  unfolding run_pending
  applied_step f applied m ms db (rolled_back e) n h = inr (inl (e, rw (n, h, run_pending) refl))
  applied_step f applied m ms db (committed db') n h =
      inr (inr (db', n, h, rw (n, h, run_pending) refl))

  pub step :
      (f : Text → TxFaults) (applied : List (Text × Text)) (m : Migration) (ms : List Migration)
      (db : Db S)
      → Step f applied m ms db
  unfolding run_pending
  step f applied m ms db = elim (Option-cases (lookup m.version applied)) [
    | inl n ↦ applied_step f applied m ms db _ n refl
    | inr (c, e) ↦ elim (Bool-cases (c == m.checksum)) [
      | inl g ↦ inl (e ∙ ap some ((text_beq_iff c m.checksum).0 g), rw (e, g, run_pending) refl)
      | inr g ↦ inr (inl (modified m.version, rw (e, g, run_pending) refl))
    ]
  ]

  pub committed-Extends :
      (f : TxFaults) (m : Migration) (db db' : Db S)
      → apply_migration exec f m db ≡ committed db'
      → Extends db'.schema_migrations db.schema_migrations
  committed-Extends f m db db' h v c e =
      let (n, r) = committed_rows f m db db' h in
      ap (lookup v) r ∙ insert-Extends m.version m.checksum db.schema_migrations n v c e

  pub committed-Recorded :
      (f : TxFaults) (m : Migration) (db db' : Db S)
      → apply_migration exec f m db ≡ committed db'
      → Recorded db'.schema_migrations m
  committed-Recorded f m db db' h =
      let (n, r) = committed_rows f m db db' h in
      ap (lookup m.version) r ∙ insert_found m.version m.checksum db.schema_migrations

  pub run_pending-Extends :
      (f : Text → TxFaults) (applied : List (Text × Text)) (ms : List Migration) (db : Db S)
      → Extends (run_pending exec f applied ms db).0.schema_migrations db.schema_migrations
  run_pending-Extends f applied [] db v c h = unfold run_pending in h
  run_pending-Extends f applied (m ∷ ms) db v c h = elim (step f applied m ms db) [
    | inl (e, r) ↦ rw r (run_pending-Extends f applied ms db v c h)
    | inr (inl (e, r)) ↦ rw r h
    | inr (inr (db', n, a, r)) ↦ rw r (
        run_pending-Extends f applied ms db' v c (committed-Extends (f m.version) m db db' a v c h))
  ]

  -- After a run without an error every migration is recorded, with its checksum.
  pub run_pending-Recorded :
      (f : Text → TxFaults) (applied : List (Text × Text)) (ms : List Migration) (db : Db S)
      → Extends db.schema_migrations applied
      → (run_pending exec f applied ms db).1 ≡ none
      → All (Recorded (run_pending exec f applied ms db).0.schema_migrations) ms
  run_pending-Recorded f applied [] db x h = tt
  run_pending-Recorded f applied (m ∷ ms) db x h = elim (step f applied m ms db) [
    | inl (e, r) ↦
        subst (λ (y : Db S × Option Error). All (Recorded y.0.schema_migrations) (m ∷ ms)) (sym r)
          (
            run_pending-Extends f applied ms db m.version m.checksum (x m.version m.checksum e),
            run_pending-Recorded f applied ms db x (cc (r, h)),
          )
    | inr (inl (e, r)) ↦ absurd (cc (r, h))
    | inr (inr (db', n, a, r)) ↦
        subst (λ (y : Db S × Option Error). All (Recorded y.0.schema_migrations) (m ∷ ms)) (sym r)
          (
            run_pending-Extends f applied ms db' m.version m.checksum
                (committed-Recorded (f m.version) m db db' a),
            run_pending-Recorded f applied ms db'
                (λ v c l. committed-Extends (f m.version) m db db' a v c (x v c l)) (cc (r, h)),
          )
  ]

  nothing_pending :
      (f : Text → TxFaults) (applied : List (Text × Text)) (ms : List Migration) (db : Db S)
      → All (Recorded applied) ms
      → run_pending exec f applied ms db ≡ (db, none)
  unfolding run_pending
  nothing_pending f applied [] db h = refl
  nothing_pending f applied (m ∷ ms) db h =
      rw (run_pending, h.0, beq_refl m.checksum) (nothing_pending f applied ms db h.1)

  pub starts :
      (f : Faults) (ms : List Migration) (db : Db S)
      → f.create_table ≡ false
      → f.read_rows ≡ false
      → run_migrations exec f (some ms) db ≡ run_pending exec f.tx db.schema_migrations ms db
  unfolding run_migrations
  starts f ms db a b = rw (run_migrations, a, b) refl

  -- A run returns early with an error, or is the loop.
  pub start-cases :
      (f : Faults) (ms : List Migration) (db : Db S)
      → ((e : Error) × (run_migrations exec f (some ms) db ≡ (db, some e)))
        ⊎ (run_migrations exec f (some ms) db ≡ run_pending exec f.tx db.schema_migrations ms db)
  unfolding run_migrations
  start-cases f ms db = elim (Bool-cases f.create_table) [
    | inl a ↦ inl (create_table_failed, rw (run_migrations, a) refl)
    | inr a ↦ elim (Bool-cases f.read_rows) [
      | inl b ↦ inl (read_failed, rw (run_migrations, a, b) refl)
      | inr b ↦ inr (starts f ms db a b)
    ]
  ]

  -- A run after a run without an error changes nothing and returns no error, whatever statements on
  -- the migrations themselves would fail, if the table can be created and read.
  pub second_run_idle :
      (f g : Faults) (ms : List Migration) (db : Db S)
      → g.create_table ≡ false
      → g.read_rows ≡ false
      → (run_migrations exec f (some ms) db).1 ≡ none
      → run_migrations exec g (some ms) (run_migrations exec f (some ms) db).0
        ≡ ((run_migrations exec f (some ms) db).0, none)
  second_run_idle f g ms db a b h = elim (start-cases f ms db) [
    | inl (e, r) ↦ absurd (cc (r, h))
    | inr r ↦
        let db' = (run_migrations exec f (some ms) db).0 in
        starts g ms db' a b
        ∙ nothing_pending g.tx db'.schema_migrations ms db' (
            subst (λ (y : Db S × Option Error). All (Recorded y.0.schema_migrations) ms) (sym r)
              (run_pending-Recorded f.tx db.schema_migrations ms db (λ v c l. l) (cc (r, h))))
  ]
