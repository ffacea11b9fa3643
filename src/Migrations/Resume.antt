-- ===== src/Migrations/Resume.antt =====
-- A run that failed can be repeated (backend/db/db.go).
use seagles.Common.{
  ◌≡◌, ◌⊎◌, ◌∙◌, sym, inl, inr, refl, ap, false, Option, none, some, List, [], ◌∷◌, arith, ◌==◌,
  All, Option-cases, beq_refl,
}
use mathlib.Core.Path.{subst}
use seagles.Dict.{lookup, insert, lookup-insert}
use seagles.Text.{Text, text_eq}
use seagles.Migrations.{
  Migration, Db, Error, TxFaults, Faults, Applied, rolled_back, committed, apply_migration,
  run_pending, run_migrations,
}
use seagles.Migrations.Runs.{
  Recorded, step, starts, start-cases, committed_rows, committed-Recorded, run_pending-Extends,
}

-- No two migrations have the same version, as files of one directory.
abbrev pub Distinct : List Migration → Type 0
Distinct [] = Unit {0}
Distinct (m ∷ ms) = All (λ n. (m.version == n.version) ≡ false) ms × Distinct ms

-- Two tables agree on a migration.
abbrev Agree : List (Text × Text) → List (Text × Text) → Migration → Type 0
Agree a b m = lookup m.version a ≡ lookup m.version b

abbrev pub calm : Text → TxFaults
calm v = record { begin = false; record_row = false; commit = false }

Applied-cases {ℓ} :
    {S : Type ℓ} (r : Applied S)
    → ((e : Error) × (r ≡ rolled_back e)) ⊎ ((db : Db S) × (r ≡ committed db))
Applied-cases (rolled_back e) = inl (e, refl)
Applied-cases (committed db) = inr (db, refl)

module _ {ℓ} {S : Type ℓ} (exec : Text → S → Option S) where
  applies :
      (f : Text → TxFaults) (a : List (Text × Text)) (m : Migration) (ms : List Migration)
      (db db' : Db S)
      → lookup m.version a ≡ none
      → apply_migration exec (f m.version) m db ≡ committed db'
      → run_pending exec f a (m ∷ ms) db ≡ run_pending exec f a ms db'
  unfolding run_pending
  applies f a m ms db db' n h = rw (run_pending, n, h) refl

  same_snapshot :
      (f : Text → TxFaults) (a b : List (Text × Text)) (ms : List Migration) (db : Db S)
      → All (Agree a b) ms
      → run_pending exec f a ms db ≡ run_pending exec f b ms db
  unfolding run_pending
  same_snapshot f a b [] db h = refl
  same_snapshot f a b (m ∷ ms) db h = elim (Option-cases (lookup m.version a)) [
    | inr (c, e) ↦ ground (arith, e, h.0, same_snapshot f a b ms db h.1)
    | inl e ↦ elim (Applied-cases (apply_migration exec (f m.version) m db)) [
      | inl (x, r) ↦ rw (run_pending, e, sym h.0 ∙ e, r) refl
      | inr (db', r) ↦
          applies f a m ms db db' e r
          ∙ same_snapshot f a b ms db' h.1
          ∙ sym (applies f b m ms db db' (sym h.0 ∙ e) r)
    ]
  ]

  committed-calm :
      (f : TxFaults) (m : Migration) (db db' : Db S)
      → apply_migration exec f m db ≡ committed db'
      → apply_migration exec (calm m.version) m db ≡ committed db'
  unfolding apply_migration
  committed-calm f m db db' h = elim (Option-cases (exec m.content db.schema)) [
    | inl e ↦ ground (arith, e)
    | inr (s, e) ↦ ground (arith, e)
  ]

  skips :
      (f : Text → TxFaults) (a : List (Text × Text)) (m : Migration) (ms : List Migration)
      (db : Db S)
      → Recorded a m
      → run_pending exec f a (m ∷ ms) db ≡ run_pending exec f a ms db
  unfolding run_pending
  skips f a m ms db h = rw (run_pending, h, beq_refl m.checksum) refl

  insert-Agree :
      (a rows : List (Text × Text)) (m : Migration) (ms : List Migration)
      → All (λ n. (m.version == n.version) ≡ false) ms
      → All (Agree a rows) ms
      → All (Agree a (insert m.version m.checksum rows)) ms
  insert-Agree a rows m [] d h = tt
  insert-Agree a rows m (n ∷ ms) d h = (
    h.0 ∙ ground (arith, d.0, lookup-insert m.version n.version m.checksum rows),
    insert-Agree a rows m ms d.1 h.1,
  )

  -- The calm run of all the migrations on what a run has left.
  abbrev again : Db S × Option Error → List Migration → Db S × Option Error
  again r ms = run_pending exec calm r.0.schema_migrations ms r.0

  again-Recorded :
      (f : Text → TxFaults) (a : List (Text × Text)) (m : Migration) (ms : List Migration)
      (db : Db S)
      → Recorded db.schema_migrations m
      → again (run_pending exec f a ms db) (m ∷ ms) ≡ again (run_pending exec f a ms db) ms
  again-Recorded f a m ms db h =
      skips calm _ m ms _ (run_pending-Extends exec f a ms db m.version m.checksum h)

  agreed :
      (a b c : List (Text × Text)) (ms : List Migration)
      → b ≡ c
      → All (Agree a c) ms
      → All (Agree a b) ms
  agreed a b c ms e h = subst (λ x. All (Agree a x) ms) (sym e) h

  resumes :
      (f : Text → TxFaults) (a : List (Text × Text)) (ms : List Migration) (db : Db S)
      → Distinct ms
      → All (Agree a db.schema_migrations) ms
      → again (run_pending exec f a ms db) ms ≡ run_pending exec calm a ms db
  resumes f a [] db d h = unfold run_pending in refl
  resumes f a (m ∷ ms) db d h = elim (step exec f a m ms db) [
    | inl (e, r) ↦
        ap (λ x. again x (m ∷ ms)) r
        ∙ again-Recorded f a m ms db (sym h.0 ∙ e)
        ∙ resumes f a ms db d.1 h.1
        ∙ sym (skips calm a m ms db e)
    | inr (inl (e, r)) ↦
        ap (λ x. again x (m ∷ ms)) r ∙ sym (same_snapshot calm a db.schema_migrations (m ∷ ms) db h)
    | inr (inr (db', n, c, r)) ↦
        ap (λ x. again x (m ∷ ms)) r
        ∙ again-Recorded f a m ms db' (committed-Recorded exec (f m.version) m db db' c)
        ∙ resumes f a ms db' d.1 (
            agreed a db'.schema_migrations _ ms (committed_rows exec (f m.version) m db db' c).1
              (insert-Agree a db.schema_migrations m ms d.0 h.1))
        ∙ sym (applies calm a m ms db db' n (committed-calm (f m.version) m db db' c))
  ]

  Agree-refl : (a : List (Text × Text)) (ms : List Migration) → All (Agree a a) ms
  Agree-refl a [] = tt
  Agree-refl a (m ∷ ms) = (refl, Agree-refl a ms)

  -- However the first run ends, and wherever it stops, a second run in which no statement on the
  -- bookkeeping fails gives the database, and the error if a file is at fault, that one such run
  -- would have given at once. The versions of the migrations are distinct.
  pub run_migrations_resumes :
      (f g : Faults) (ms : List Migration) (db : Db S)
      → Distinct ms
      → g.create_table ≡ false
      → g.read_rows ≡ false
      → g.tx ≡ calm
      → run_migrations exec g (some ms) (run_migrations exec f (some ms) db).0
        ≡ run_migrations exec g (some ms) db
  run_migrations_resumes f g ms db d a b c = elim (start-cases exec f ms db) [
    | inl (e, r) ↦ ap (λ (x : Db S × Option Error). run_migrations exec g (some ms) x.0) r
    | inr r ↦
        ap (λ (x : Db S × Option Error). run_migrations exec g (some ms) x.0) r
        ∙ starts exec g ms _ a b
        ∙ rw c (resumes f.tx db.schema_migrations ms db d (Agree-refl db.schema_migrations ms))
        ∙ sym (starts exec g ms db a b ∙ ap (λ x. run_pending exec x db.schema_migrations ms db) c)
  ]
