-- ===== src/Table/Defs.antt =====
-- engine/table.rs: the table record, its construction, and the management of its keys and indices.
use a3sql.Prelude.{
  ℕ, suc, Bool, true, false, Option, none, some, List, [], ◌∷◌, ◌++◌, get_elem?, Result, ok, err,
  ◌>>=◌, ite, if◌then◌else◌,
}
use a3sql.Prelude.Int.{ℤ, pos}
use a3sql.Prelude.Map
use a3sql.Prelude.Map.{Map, Set}
use a3sql.Prelude.Text.{Text, Text-discrete}
use a3sql.Error.{
  Message, no_columns, duplicate_column, no_column_in_table, index_exists, no_such_index,
}
use a3sql.Host.{Host}
use a3sql.Value.{DbValue, Column}
use a3sql.Index
use a3sql.Index.{
  IndexType, IndexMeta, BTreeIndex, TrigramIndex, btree_new, trigram_new, btree_insert,
  btree_remove, trigram_insert, trigram_remove,
}
use a3sql.Table.Keys.{pk_key_static, unique_keys}

abbrev pub Row : Type 0
Row = List DbValue

-- engine/trigger.rs
pub record TriggerInfo : Type 0 where
  pub name : Text
  pub timing : Text
  pub event : Text
  pub body : Text

-- engine/table/schema.rs; the referential actions are sqlparser nodes.
pub record ForeignKeyInfo (E : Type 0) : Type 0 where
  pub local_column : Text
  pub foreign_table : Text
  pub foreign_column : Text
  pub on_delete : Option E
  pub on_update : Option E

pub data IndexImpl : Type 0 where
  btree : BTreeIndex → IndexImpl
  trigram : TrigramIndex → IndexImpl

pub record Table (E : Type 0) : Type 0 where
  pub name : Text
  pub columns : List (Column E)
  pub rows : List Row
  pub col_index : Map ℕ
  pub pk_set : Set
  pub pk_row_index : Map ℕ
  pub unique_set : Set
  pub indices : List (IndexMeta × IndexImpl)
  pub next_auto_inc : ℤ
  pub check_constraints : List E
  pub foreign_keys : List (ForeignKeyInfo E)
  pub triggers : List TriggerInfo

abbrev pub add_key : Option Text → Set → Set
add_key none s = s
add_key (some key) s = Map.add key s

abbrev pub insert_key : Option Text → ℕ → Map ℕ → Map ℕ
insert_key none ri m = m
insert_key (some key) ri m = Map.insert key ri m

abbrev pub empty_like : Text → IndexImpl → IndexImpl
empty_like column (btree idx) = btree (btree_new column)
empty_like column (trigram idx) = trigram (trigram_new column)

unfoldable pub has_name : Text → List (IndexMeta × IndexImpl) → Bool
has_name name [] = false
has_name name ((m, impl) ∷ indices) =
    let rest = has_name name indices in ite (Text-discrete m.name name) true rest

abbrev pub new_index : IndexType → Text → IndexImpl
new_index IndexType.btree column = btree (btree_new column)
new_index IndexType.trigram column = trigram (trigram_new column)

-- The removal of the first index of that name.
unfoldable pub remove_index :
    Text → List (IndexMeta × IndexImpl) → Option (List (IndexMeta × IndexImpl))
remove_index name [] = none
remove_index name ((m, impl) ∷ indices) =
    ite (Text-discrete m.name name) (some indices)
      (elim (remove_index name indices) [ none ↦ none | some rest ↦ some ((m, impl) ∷ rest) ])

abbrev pub btree_on : Text → IndexImpl → Option BTreeIndex
btree_on column (btree idx) = ite (Text-discrete idx.column column) (some idx) none
btree_on column (trigram idx) = none

unfoldable pub first_btree : Text → List (IndexMeta × IndexImpl) → Option BTreeIndex
first_btree column [] = none
first_btree column ((m, impl) ∷ indices) =
    let rest = first_btree column indices in
    elim (btree_on column impl) [ none ↦ rest | some idx ↦ some idx ]

module _ {E : Type 0} where
  -- The loop of `Table::new`: names to positions, from position `i` on.
  unfoldable pub index_columns : ℕ → List (Column E) → Map ℕ → Result (Map ℕ) Message
  index_columns i [] m = ok m
  index_columns i (c ∷ cs) m = elim (m c.name) [
    | some j ↦ err (duplicate_column c.name)
    | none ↦ index_columns (suc i) cs (Map.insert c.name i m)
  ]

  abbrev pub fresh : Text → List (Column E) → Map ℕ → Table E
  fresh name columns col_index = record {
    name = name;
    columns = columns;
    rows = [];
    col_index = col_index;
    pk_set = Map.no_keys;
    pk_row_index = Map.empty;
    unique_set = Map.no_keys;
    indices = [];
    next_auto_inc = pos 1;
    check_constraints = [];
    foreign_keys = [];
    triggers = [];
  }

  -- `Table::new`
  unfoldable pub new : Text → List (Column E) → Result (Table E) Message
  unfolding index_columns
  new name [] = err no_columns
  new name (c ∷ cs) = do
    col_index ← index_columns 0 (c ∷ cs) Map.empty
    ok (fresh name (c ∷ cs) col_index)

  -- The commit of a row's keys: the PRIMARY KEY's, at row `ri`, and the UNIQUE columns'.
  abbrev pub add_pk : Option Text → ℕ → Table E → Table E
  add_pk key ri t = record t {
    pk_set = add_key key t.pk_set;
    pk_row_index = insert_key key ri t.pk_row_index;
  }

  abbrev pub add_unique : List Text → Table E → Table E
  add_unique keys t = record t { unique_set = Map.add_all keys t.unique_set }

  abbrev pub without_keys : Table E → Table E
  without_keys t = record t {
    pk_set = Map.no_keys;
    pk_row_index = Map.empty;
    unique_set = Map.no_keys;
  }

  unfoldable pub drop_index : Text → Table E → Result (Table E) Message
  unfolding remove_index
  drop_index name t = elim (remove_index name t.indices) [
    | none ↦ err (no_such_index name)
    | some rest ↦ ok (record t { indices = rest })
  ]

module _ {E : Type 0} (host : Host E) where
  unfoldable pub index_insert : ℕ → DbValue → IndexImpl → IndexImpl
  index_insert row v (btree idx) = btree (btree_insert host row v idx)
  index_insert row v (trigram idx) = trigram (trigram_insert host row v idx)

  unfoldable pub index_remove : ℕ → DbValue → IndexImpl → IndexImpl
  index_remove row v (btree idx) = btree (btree_remove host row v idx)
  index_remove row v (trigram idx) = trigram (trigram_remove host row v idx)

  -- The cell of a row that an index covers. Where `row[ci]` is out of bounds, as it can be after
  -- `drop_column`, the source panics and the index here stays as it is: Table/Panics.antt has the
  -- operations with this panic as their result.
  abbrev pub index_cell : ℕ → ℕ → Row → IndexImpl → IndexImpl
  index_cell ci ri row impl = elim (get_elem? row ci) [
    | none ↦ impl
    | some v ↦ index_insert ri v impl
  ]

  -- `for (ri, row) in rows.iter().enumerate()`, from position `ri` on.
  unfoldable pub index_rows : ℕ → ℕ → List Row → IndexImpl → IndexImpl
  index_rows ci ri [] impl = impl
  index_rows ci ri (row ∷ rows) impl = index_rows ci (suc ri) rows (index_cell ci ri row impl)

  unfoldable pub rebuild_one : Map ℕ → List Row → IndexMeta × IndexImpl → IndexMeta × IndexImpl
  unfolding index_rows
  rebuild_one col_index rows (meta, impl) = (
    meta,
    elim (col_index meta.column) [
      | none ↦ empty_like meta.column impl
      | some ci ↦ index_rows ci 0 rows (empty_like meta.column impl)
    ],
  )

  -- `rebuild_indices` of row_ops.rs.
  unfoldable pub rebuild_indices :
      Map ℕ → List Row → List (IndexMeta × IndexImpl) → List (IndexMeta × IndexImpl)
  unfolding rebuild_one
  rebuild_indices col_index rows [] = []
  rebuild_indices col_index rows (i ∷ indices) =
      rebuild_one col_index rows i ∷ rebuild_indices col_index rows indices

  unfoldable pub key_rows : ℕ → List Row → Table E → Table E
  key_rows ri [] t = t
  key_rows ri (row ∷ rows) t =
      key_rows (suc ri) rows (
        add_unique (unique_keys host t.columns row)
          (add_pk (pk_key_static host t.columns row) ri t))

  unfoldable pub rebuild_index : Table E → Table E
  unfolding key_rows rebuild_indices
  rebuild_index t =
      let keyed = key_rows 0 t.rows (without_keys t) in
      record keyed { indices = rebuild_indices keyed.col_index keyed.rows keyed.indices }

  unfoldable pub create_index : Text → Text → IndexType → Table E → Result (Table E) Message
  unfolding has_name index_rows
  create_index name column index_type t = elim (t.col_index column) [
    | none ↦ err (no_column_in_table column t.name)
    | some ci ↦
        if has_name name t.indices
        then err (index_exists name)
        else let meta : IndexMeta = record {
          name = name;
          table = t.name;
          column = column;
          index_type = index_type;
        } in
          let impl = index_rows ci 0 t.rows (new_index index_type column) in
          ok (record t { indices = t.indices ++ ((meta, impl) ∷ []) })
  ]

  unfoldable pub btree_lookup : Text → DbValue → Table E → Option (List ℕ)
  unfolding first_btree
  btree_lookup column v t = elim (first_btree column t.indices) [
    | none ↦ none
    | some idx ↦ some (Index.lookup host idx v)
  ]
