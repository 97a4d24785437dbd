-- ===== src/Database.antt =====
-- engine/database.rs and its children views.rs, cursor.rs, prepared.rs: the state of the engine and the
-- operations on it. The savepoint stack is listed from the newest snapshot on. An operation that can
-- fail returns the new database or the error; on an error the source has not changed the database.
use Prim.Native.Nat.Ordering.{lt, eq, gt}
pub mod Cache
pub mod Transaction
pub mod Catalog
use a3sql.Prelude.{
  ℕ, Bool, true, false, Option, none, some, List, [], ◌∷◌, Result, ok, err, if◌then◌else◌, ite, ◌≡◌,
}
use a3sql.Prelude.Text.{Text, Text-discrete}
use a3sql.Prelude.Order.{text_compare}
use a3sql.Prelude.Dict.{Dict, find, put, drop_key, keys, has_key}
use a3sql.Error.{
  Message, no_active_transaction, savepoint_not_found, table_exists, table_missing, table_not_found,
  is_a_table, view_exists, view_missing, cursor_not_found, prepared_not_found,
}
use a3sql.Host.{Host}
use a3sql.Table.Defs.{Table}
use a3sql.Database.Cache.{LruSqlCache, new_cache, clear_cache}

pub record CursorState : Type 0 where
  pub sql : Text
  pub offset : ℕ
  pub page_size : ℕ

pub record PreparedStmt : Type 0 where
  pub sql : Text
  pub arg_count : ℕ

-- The place of a name in a sorted list: `names.sort()` compares by bytes.
unfoldable pub sort_in : Text → List Text → List Text
sort_in k [] = k ∷ []
sort_in k (j ∷ js) =
    let rest = sort_in k js in
    elim (text_compare k j) [ lt ↦ k ∷ j ∷ js | eq ↦ k ∷ j ∷ js | gt ↦ j ∷ rest ]

unfoldable pub sort_names : List Text → List Text
unfolding sort_in
sort_names [] = []
sort_names (k ∷ ks) = sort_in k (sort_names ks)

module _ (E S : Type 0) where
  pub record Snapshot : Type 0 where
    pub name : Option Text
    pub tables : Dict (Table E)
    pub views : Dict Text

  -- `S` is what `parse_sql` returns: the sqlparser crate's statements.
  pub record Database : Type 0 where
    pub tables : Dict (Table E)
    pub views : Dict Text
    pub savepoints : List Snapshot
    pub last_insert_rowid : Option Text
    pub last_changes : ℕ
    pub config : Dict Text
    pub cursors : Dict CursorState
    pub prepared : Dict PreparedStmt
    pub cache : LruSqlCache S

module _ {E S : Type 0} where
  abbrev pub new : Database E S
  new = record {
    tables = [];
    views = [];
    savepoints = [];
    last_insert_rowid = none;
    last_changes = 0;
    config = [];
    cursors = [];
    prepared = [];
    cache = new_cache;
  }

  abbrev pub snapshot : Option Text → Database E S → Snapshot E S
  snapshot name db = record { name = name; tables = db.tables; views = db.views }

  abbrev pub restore : Snapshot E S → List (Snapshot E S) → Database E S → Database E S
  restore s older db = record db { tables = s.tables; views = s.views; savepoints = older }

  unfoldable pub begin : Database E S → Database E S
  begin db = record db { savepoints = snapshot none db ∷ db.savepoints }

  unfoldable pub commit : Database E S → Result (Database E S) Message
  commit db = elim db.savepoints [
    | [] ↦ err no_active_transaction
    | ◌∷◌ s older ↦ ok (record db { savepoints = older })
  ]

  unfoldable pub rollback : Database E S → Database E S
  rollback db = elim db.savepoints [ [] ↦ db | ◌∷◌ s older ↦ restore s older db ]

  unfoldable pub savepoint : Text → Database E S → Database E S
  savepoint name db = record db { savepoints = snapshot (some name) db ∷ db.savepoints }

  abbrev pub is_named : Text → Snapshot E S → Bool
  is_named name s = elim s.name [ none ↦ false | some n ↦ ite (Text-discrete n name) true false ]

  -- `rposition`: the newest snapshot of that name, and the older ones.
  unfoldable pub newest : Text → List (Snapshot E S) → Option (Snapshot E S × List (Snapshot E S))
  newest name [] = none
  newest name (s ∷ older) =
      let rest = newest name older in if is_named name s then some (s, older) else rest

  unfoldable pub rollback_to_savepoint : Text → Database E S → Result (Database E S) Message
  unfolding newest
  rollback_to_savepoint name db = elim (newest name db.savepoints) [
    | none ↦ err (savepoint_not_found name)
    | some (s, older) ↦ ok (restore s older db)
  ]

  -- The stack without the newest snapshot of that name.
  unfoldable pub forget : Text → List (Snapshot E S) → Option (List (Snapshot E S))
  forget name [] = none
  forget name (s ∷ older) =
      let rest = forget name older in
      if is_named name s
      then some older
      else elim rest [ none ↦ none | some kept ↦ some (s ∷ kept) ]

  unfoldable pub release_savepoint : Text → Database E S → Result (Database E S) Message
  unfolding forget
  release_savepoint name db = elim (forget name db.savepoints) [
    | none ↦ err (savepoint_not_found name)
    | some kept ↦ ok (record db { savepoints = kept })
  ]

  unfoldable pub in_transaction : Database E S → Bool
  in_transaction db = elim db.savepoints [ [] ↦ false | ◌∷◌ s older ↦ true ]

  unfoldable pub has_table : Text → Database E S → Bool
  has_table name db = has_key name db.tables

  unfoldable pub create_table : Text → Table E → Database E S → Result (Database E S) Message
  create_table name table db =
      if has_key name db.tables
      then err (table_exists name)
      else ok (record db { tables = put name table db.tables })

  unfoldable pub add_table : Text → Table E → Database E S → Database E S
  add_table name table db = record db { tables = put name table db.tables }

  unfoldable pub drop_table : Text → Database E S → Result (Database E S) Message
  drop_table name db = elim (find name db.tables) [
    | none ↦ err (table_missing name)
    | some t ↦ ok (record db { tables = drop_key name db.tables })
  ]

  unfoldable pub get_table : Text → Database E S → Result (Table E) Message
  get_table name db = elim (find name db.tables) [ none ↦ err (table_missing name) | some t ↦ ok t ]

  unfoldable pub table_names : Database E S → List Text
  unfolding sort_names
  table_names db = sort_names (keys db.tables)

  unfoldable pub rename_table : Text → Text → Database E S → Result (Database E S) Message
  rename_table old_name new_name db = elim (find old_name db.tables) [
    | none ↦ err (table_not_found old_name)
    | some t ↦ ok (record db { tables = put new_name t (drop_key old_name db.tables) })
  ]

  unfoldable pub get_config : Text → Database E S → Option Text
  get_config key db = find key db.config

  unfoldable pub clear : Database E S → Database E S
  clear db = record db {
    tables = [];
    views = [];
    cursors = [];
    prepared = [];
    cache = clear_cache db.cache;
  }

  -- views.rs
  unfoldable pub create_view : Text → Text → Database E S → Result (Database E S) Message
  create_view name sql db =
      if has_key name db.tables
      then err (is_a_table name)
      else (if has_key name db.views
          then err (view_exists name)
          else ok (record db { views = put name sql db.views }))

  unfoldable pub drop_view : Text → Database E S → Result (Database E S) Message
  drop_view name db = elim (find name db.views) [
    | none ↦ err (view_missing name)
    | some sql ↦ ok (record db { views = drop_key name db.views })
  ]

  unfoldable pub get_view : Text → Database E S → Option Text
  get_view name db = find name db.views

  unfoldable pub view_names : Database E S → List Text
  unfolding sort_names
  view_names db = sort_names (keys db.views)

module _ {E S : Type 0} (host : Host E) where
  unfoldable pub set_config : Text → Text → Database E S → Database E S
  set_config key value db = record db { config = put (host.to_lowercase key) value db.config }

  -- cursor.rs
  unfoldable pub create_cursor : Text → Text → ℕ → Database E S → Database E S
  create_cursor name sql page_size db = record db {
    cursors =
        put (host.to_lowercase name) (record { sql = sql; offset = 0; page_size = page_size })
          db.cursors;
  }

  unfoldable pub drop_cursor : Text → Database E S → Result (Database E S) Message
  drop_cursor name db = elim (find (host.to_lowercase name) db.cursors) [
    | none ↦ err (cursor_not_found name)
    | some c ↦ ok (record db { cursors = drop_key (host.to_lowercase name) db.cursors })
  ]

  -- prepared.rs
  unfoldable pub prepare : Text → Text → ℕ → Database E S → Database E S
  prepare name sql arg_count db = record db {
    prepared =
        put (host.to_lowercase name) (record { sql = sql; arg_count = arg_count }) db.prepared;
  }

  unfoldable pub drop_prepared : Text → Database E S → Result (Database E S) Message
  drop_prepared name db = elim (find (host.to_lowercase name) db.prepared) [
    | none ↦ err (prepared_not_found name)
    | some p ↦ ok (record db { prepared = drop_key (host.to_lowercase name) db.prepared })
  ]
