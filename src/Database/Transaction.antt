-- ===== src/Database/Transaction.antt =====
-- The transactions of engine/database.rs: `begin`, `commit`, `rollback` and the savepoints, against the
-- stack of snapshots.
use a3sql.Prelude.{
  ◌≡◌, refl, sym, ap, ◌∙◌, true, false, some, List, [], ◌∷◌, ◌++◌, ok, ok-injective, arith,
}
use a3sql.Prelude.Text.{Text}
use a3sql.Table.Defs.{Table}
use a3sql.Database.{
  Database, Snapshot, snapshot, restore, begin, commit, rollback, savepoint, is_named, newest,
  rollback_to_savepoint, forget, release_savepoint, create_table, add_table, drop_table,
  rename_table, create_view, drop_view,
}

module _ {E S : Type 0} where
  -- One statement's change of the tables and views of the database, outside the savepoint stack. An
  -- INSERT, UPDATE or DELETE puts the changed table back under its name.
  pub data Edit : Database E S → Database E S → Type 0 where
    creates :
        {db db' : Database E S} (name : Text) (t : Table E)
        → create_table name t db ≡ ok db'
        → Edit db db'
    writes : {db : Database E S} (name : Text) (t : Table E) → Edit db (add_table name t db)
    drops : {db db' : Database E S} (name : Text) → drop_table name db ≡ ok db' → Edit db db'
    renames :
        {db db' : Database E S} (old_name new_name : Text)
        → rename_table old_name new_name db ≡ ok db'
        → Edit db db'
    views :
        {db db' : Database E S} (name sql : Text) → create_view name sql db ≡ ok db' → Edit db db'
    drops_view : {db db' : Database E S} (name : Text) → drop_view name db ≡ ok db' → Edit db db'

  -- What can run between a `begin` and its end: edits, and whole transactions.
  pub data Runs : Database E S → Database E S → Type 0 where
    done : {db : Database E S} → Runs db db
    edit : {db db' db'' : Database E S} → Edit db db' → Runs db' db'' → Runs db db''
    commits :
        {db inner db' db'' : Database E S}
        → Runs (begin db) inner
        → commit inner ≡ ok db'
        → Runs db' db''
        → Runs db db''
    rolls_back :
        {db inner db'' : Database E S}
        → Runs (begin db) inner
        → Runs (rollback inner) db''
        → Runs db db''
    releases :
        {db inner db' db'' : Database E S} (name : Text)
        → Runs (savepoint name db) inner
        → release_savepoint name inner ≡ ok db'
        → Runs db' db''
        → Runs db db''
    returns :
        {db inner db' db'' : Database E S} (name : Text)
        → Runs (savepoint name db) inner
        → rollback_to_savepoint name inner ≡ ok db'
        → Runs db' db''
        → Runs db db''

  Edit-savepoints : {db db' : Database E S} → Edit db db' → db'.savepoints ≡ db.savepoints
  unfolding create_table add_table drop_table rename_table create_view drop_view
  Edit-savepoints (creates name t e) = ground arith
  Edit-savepoints (writes name t) = refl
  Edit-savepoints (drops name e) = ground arith
  Edit-savepoints (renames old_name new_name e) = ground arith
  Edit-savepoints (views name sql e) = ground arith
  Edit-savepoints (drops_view name e) = ground arith

  commit-savepoints :
      (db : Database E S) {db' : Database E S} {s : Snapshot E S} {older : List (Snapshot E S)}
      → db.savepoints ≡ s ∷ older
      → commit db ≡ ok db'
      → db'.savepoints ≡ older
  unfolding commit
  commit-savepoints db h e = ground arith

  rollback-savepoints :
      (db : Database E S) {s : Snapshot E S} {older : List (Snapshot E S)}
      → db.savepoints ≡ s ∷ older
      → rollback db ≡ restore s older db
  unfolding rollback
  rollback-savepoints db h = rw h refl

  -- No snapshot of the list has the name.
  abbrev pub NoneNamed : Text → List (Snapshot E S) → Type 0
  NoneNamed name [] = Unit
  NoneNamed name (s ∷ ss) = (is_named name s ≡ false) × NoneNamed name ss

  newest-append :
      (name : Text) (newer : List (Snapshot E S)) (s : Snapshot E S) (older : List (Snapshot E S))
      → NoneNamed name newer
      → is_named name s ≡ true
      → newest name (newer ++ (s ∷ older)) ≡ some (s, older)
  unfolding newest
  newest-append name [] s older n e = rw e refl
  newest-append name (r ∷ newer) s older n e = rw n.0 (newest-append name newer s older n.1 e)

  forget-append :
      (name : Text) (newer : List (Snapshot E S)) (s : Snapshot E S) (older : List (Snapshot E S))
      → NoneNamed name newer
      → is_named name s ≡ true
      → forget name (newer ++ (s ∷ older)) ≡ some (newer ++ older)
  unfolding forget
  forget-append name [] s older n e = rw e refl
  forget-append name (r ∷ newer) s older n e = rw (n.0, forget-append name newer s older n.1 e) refl

  is_named-snapshot :
      (name : Text) (db : Database E S) → is_named name (snapshot (some name) db) ≡ true
  is_named-snapshot name db = ground arith

  -- If no snapshot above the savepoint has its name, `rollback_to_savepoint` succeeds from a
  -- state with any snapshots above it, restores the tables and views the savepoint met and
  -- drops the savepoint and all snapshots above it.
  pub rollback_to_savepoint-savepoint :
      (name : Text) (db : Database E S) (newer : List (Snapshot E S)) (db' : Database E S)
      → NoneNamed name newer
      → db'.savepoints ≡ newer ++ (savepoint name db).savepoints
      → rollback_to_savepoint name db' ≡ ok (restore (snapshot (some name) db) db.savepoints db')
  unfolding rollback_to_savepoint savepoint
  rollback_to_savepoint-savepoint name db newer db' n h =
      let found =
        ap (newest name) h
        ∙ newest-append name newer (snapshot (some name) db) db.savepoints n
            (is_named-snapshot name db) in
      rw (rollback_to_savepoint, found) refl

  -- If no snapshot above the savepoint has its name, `release_savepoint` succeeds, drops that
  -- savepoint only, and keeps the tables, the views and the snapshots above it.
  release_savepoint-savepoint :
      (name : Text) (db : Database E S) (newer : List (Snapshot E S)) (db' : Database E S)
      → NoneNamed name newer
      → db'.savepoints ≡ newer ++ (savepoint name db).savepoints
      → release_savepoint name db' ≡ ok (record db' { savepoints = newer ++ db.savepoints })
  unfolding release_savepoint savepoint
  release_savepoint-savepoint name db newer db' n h =
      let found =
        ap (forget name) h
        ∙ forget-append name newer (snapshot (some name) db) db.savepoints n
            (is_named-snapshot name db) in
      rw (release_savepoint, found) refl

  -- Edits of tables and views and complete transactions and savepoints, nested in any way,
  -- leave the savepoint stack as it was.
  Runs-savepoints : {db db' : Database E S} → Runs db db' → db'.savepoints ≡ db.savepoints
  unfolding begin
  Runs-savepoints done = refl
  Runs-savepoints (edit e r) = Runs-savepoints r ∙ Edit-savepoints e
  Runs-savepoints (commits {inner = inner} b c r) =
      Runs-savepoints r ∙ commit-savepoints inner (Runs-savepoints b) c
  Runs-savepoints (rolls_back {inner = inner} b r) =
      Runs-savepoints r ∙ ap (λ d. d.savepoints) (rollback-savepoints inner (Runs-savepoints b))
  Runs-savepoints (releases {db = db} {inner = inner} name b c r) =
      Runs-savepoints r
      ∙ ap (λ d. d.savepoints)
          (ok-injective
            (sym c ∙ release_savepoint-savepoint name db [] inner tt (Runs-savepoints b)))
  Runs-savepoints (returns {db = db} {inner = inner} name b c r) =
      Runs-savepoints r
      ∙ ap (λ d. d.savepoints)
          (ok-injective
            (sym c ∙ rollback_to_savepoint-savepoint name db [] inner tt (Runs-savepoints b)))

  -- After `begin`, any edits of tables and views and any complete inner transactions and
  -- savepoints, `rollback` restores the tables, the views and the savepoint stack that `begin`
  -- met.
  pub rollback-begin :
      (db : Database E S) {db' : Database E S}
      → Runs (begin db) db'
      → ((rollback db').tables ≡ db.tables)
        × ((rollback db').views ≡ db.views)
        × ((rollback db').savepoints ≡ db.savepoints)
  unfolding begin
  rollback-begin db {db'} r = rw (rollback-savepoints db' (Runs-savepoints r)) (refl, refl, refl)

  -- After `begin`, any edits and any complete inner transactions and savepoints, `commit`
  -- succeeds, keeps the tables and views as they are and restores the savepoint stack that
  -- `begin` met.
  pub commit-begin :
      (db : Database E S) {db' : Database E S}
      → Runs (begin db) db'
      → commit db' ≡ ok (record db' { savepoints = db.savepoints })
  unfolding commit begin
  commit-begin db r = rw (Runs-savepoints r) refl
