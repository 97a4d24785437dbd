-- ===== src/Table/Rows.antt =====
-- engine/table/row_ops.rs: insert, replace, delete, cell update and truncation. An operation that can
-- fail returns the new table or the error; on an error the source has not changed the table yet.
use a3sql.Prelude.{
  ℕ, suc, ◌+◌, Bool, true, false, Option, none, some, List, [], ◌∷◌, ◌++◌, length, get_elem?, set,
  Result, ok, err, ◌>>=◌, ◌>>◌, ite, if◌then◌else◌, ◌==◌,
}
use a3sql.Prelude.Map
use a3sql.Prelude.Map.{Map, Set}
use a3sql.Prelude.Text.{Text, Text-discrete, to_decimal}
use a3sql.Error.{EngineError, exec, insert_arity, duplicate_key}
use a3sql.Host.{Host}
use a3sql.Value.{DbValue, Column}
use a3sql.Index.{IndexMeta}
use a3sql.Table.Coerce.{prepare, check_pk_null, coerce_value}
use a3sql.Table.Defs.{
  Table, Row, IndexImpl, index_insert, index_remove, index_cell, add_pk, add_unique, rebuild_index,
}
use a3sql.Table.Keys.{pk_key_static, unique_keys, encode_part}

-- The first of the keys that is taken already.
unfoldable pub first_taken : Set → List Text → Option Text
first_taken s [] = none
first_taken s (k ∷ ks) = let rest = first_taken s ks in if s k then some k else rest

abbrev pub delete_key : Option Text → Set → Set
delete_key none s = s
delete_key (some key) s = Map.delete key s

abbrev pub remove_key : Option Text → Map ℕ → Map ℕ
remove_key none m = m
remove_key (some key) m = Map.remove key m

abbrev pub taken : Set → Option Text → Option Text
taken s none = none
taken s (some k) = if s k then some k else none

abbrev pub refuse : Option Text → Result (Unit {0}) EngineError
refuse none = ok tt
refuse (some k) = err (duplicate_key k)

module _ {E : Type 0} where
  abbrev pub remove_pk : Option Text → Table E → Table E
  remove_pk key t = record t {
    pk_set = delete_key key t.pk_set;
    pk_row_index = remove_key key t.pk_row_index;
  }

  abbrev pub remove_unique : List Text → Table E → Table E
  remove_unique keys t = record t { unique_set = Map.delete_all keys t.unique_set }

  abbrev pub index_of_key : Table E → Option Text → Option ℕ
  index_of_key t none = none
  index_of_key t (some key) = t.pk_row_index key

module _ {E : Type 0} (host : Host E) where
  abbrev pub on_cell : Map ℕ → ℕ → Row → IndexMeta × IndexImpl → IndexMeta × IndexImpl
  on_cell col_index ri row (meta, impl) = (
    meta,
    elim (col_index meta.column) [ none ↦ impl | some ci ↦ index_cell host ci ri row impl ],
  )

  unfoldable pub update_indices_insert :
      Map ℕ → ℕ → Row → List (IndexMeta × IndexImpl) → List (IndexMeta × IndexImpl)
  update_indices_insert col_index ri row [] = []
  update_indices_insert col_index ri row (i ∷ indices) =
      on_cell col_index ri row i ∷ update_indices_insert col_index ri row indices

  -- The end of `insert`, once every check has passed.
  unfoldable pub commit_row : Row → Table E → Table E
  unfolding update_indices_insert
  commit_row row t =
      let ri = length t.rows in
      let keyed =
        add_unique (unique_keys host t.columns row)
          (add_pk (pk_key_static host t.columns row) ri t) in
      record keyed {
        rows = t.rows ++ (row ∷ []);
        indices = update_indices_insert t.col_index ri row t.indices;
      }

  -- The checks of `insert`, in their order; the row with defaults and coercions applied.
  unfoldable pub accept : Row → Table E → Result Row EngineError
  accept row t =
      if length row == length t.columns
      then (do
        row' ← prepare host t.columns row
        check_pk_null host t.columns row'
        refuse (taken t.pk_set (pk_key_static host t.columns row'))
        refuse (first_taken t.unique_set (unique_keys host t.columns row'))
        ok row')
      else err (exec (insert_arity (length t.columns) (length row)))

  unfoldable pub insert : Row → Table E → Result (Table E) EngineError
  insert row t = do row' ← accept row t; ok (commit_row row' t)

  abbrev pub off_cell : Map ℕ → ℕ → Row → IndexMeta × IndexImpl → IndexMeta × IndexImpl
  off_cell col_index ri row (meta, impl) = (
    meta,
    elim (col_index meta.column) [
      | none ↦ impl
      | some ci ↦ elim (get_elem? row ci) [ none ↦ impl | some v ↦ index_remove host ri v impl ]
    ],
  )

  unfoldable pub remove_from_indices :
      Map ℕ → ℕ → Row → List (IndexMeta × IndexImpl) → List (IndexMeta × IndexImpl)
  remove_from_indices col_index ri row [] = []
  remove_from_indices col_index ri row (i ∷ indices) =
      off_cell col_index ri row i ∷ remove_from_indices col_index ri row indices

  -- What the loop of `delete` does for a row that goes.
  abbrev pub forget_row : ℕ → Row → Table E → Table E
  forget_row old_idx row t =
      let keyed =
        remove_unique (unique_keys host t.columns row)
          (remove_pk (pk_key_static host t.columns row) t) in
      record keyed { indices = remove_from_indices t.col_index old_idx row t.indices }

  -- The loop of `delete` over the old rows, which have been taken out of the table.
  unfoldable pub delete_loop : (Row → Bool) → ℕ → List Row → Table E × ℕ → Table E × ℕ
  unfolding remove_from_indices
  delete_loop predicate old_idx [] (t, deleted) = (t, deleted)
  delete_loop predicate old_idx (row ∷ rows) (t, deleted) =
      delete_loop predicate (suc old_idx) rows (
        if predicate row
        then (forget_row old_idx row t, deleted + 1)
        else (record t { rows = t.rows ++ (row ∷ []) }, deleted))

  unfoldable pub delete : (Row → Bool) → Table E → Table E × ℕ
  unfolding delete_loop rebuild_index
  delete predicate t =
      let (t', deleted) = delete_loop predicate 0 t.rows (record t { rows = [] }, 0) in
      (rebuild_index host t', deleted)

  -- `INSERT OR REPLACE`. `none` is the panic of `self.rows[idx]` at an index out of bounds.
  abbrev pub replace_at : ℕ → Row → Table E → Option (Table E)
  replace_at idx row t = elim (get_elem? t.rows idx) [
    | none ↦ none
    | some old ↦ some (record t {
      rows = set t.rows idx row;
      unique_set =
          Map.add_all (unique_keys host t.columns row)
            (Map.delete_all (unique_keys host t.columns old) t.unique_set);
    })
  ]

  unfoldable pub replace_by_pk : Row → Table E → Option (Result (Table E × Bool) EngineError)
  replace_by_pk row t = elim (index_of_key t (pk_key_static host t.columns row)) [
    | some idx ↦ elim (replace_at idx row t) [ none ↦ none | some t' ↦ some (ok (t', true)) ]
    | none ↦ some (do t' ← insert row t; ok (t', false))
  ]

  abbrev pub recell : Text → ℕ → DbValue → DbValue → IndexMeta × IndexImpl → IndexMeta × IndexImpl
  recell column ri old v (meta, impl) = (
    meta,
    ite (Text-discrete meta.column column) (index_insert host ri v (index_remove host ri old impl))
        impl,
  )

  unfoldable pub update_indices_cell :
      Text → ℕ → DbValue → DbValue → List (IndexMeta × IndexImpl) → List (IndexMeta × IndexImpl)
  update_indices_cell column ri old v [] = []
  update_indices_cell column ri old v (i ∷ indices) =
      recell column ri old v i ∷ update_indices_cell column ri old v indices

  abbrev pub unique_key : ℕ → DbValue → Text
  unique_key col_idx v = to_decimal col_idx ++ (b'|' ∷ encode_part host v)

  abbrev pub rekey : Column E → ℕ → Row → Row → Table E → Table E
  rekey c ri old_row row t =
      if c.primary_key
      then add_pk (pk_key_static host t.columns row) ri
          (remove_pk (pk_key_static host t.columns old_row) t)
      else t

  abbrev pub rekey_unique : Column E → ℕ → DbValue → DbValue → Table E → Table E
  rekey_unique c col_idx old v t =
      if c.unique
      then record t {
        unique_set =
            Map.add (unique_key col_idx v) (Map.delete (unique_key col_idx old) t.unique_set);
      }
      else t

  -- The write of one cell whose column, row and old value are known.
  unfoldable pub write_cell : ℕ → ℕ → Column E → Row → DbValue → DbValue → Table E → Table E
  unfolding update_indices_cell
  write_cell row_idx col_idx c row old v t =
      let row' = set row col_idx v in
      let written = record t { rows = set t.rows row_idx row' } in
      let keyed = rekey_unique c col_idx old v (rekey c row_idx row row' written) in
      record keyed { indices = update_indices_cell c.name row_idx old v t.indices }

  -- The table and the old value; `none` is the panic of an index out of bounds.
  unfoldable pub update_cell : ℕ → ℕ → DbValue → Table E → Option (Table E × DbValue)
  unfolding write_cell coerce_value
  update_cell row_idx col_idx new_value t = elim (get_elem? t.columns col_idx) [
    | none ↦ none
    | some c ↦ elim (get_elem? t.rows row_idx) [
      | none ↦ none
      | some row ↦ elim (get_elem? row col_idx) [
        | none ↦ none
        | some old ↦
            let v = (coerce_value host new_value c.dtype).0 in
            some (write_cell row_idx col_idx c row old v t, old)
      ]
    ]
  ]

module _ {E : Type 0} where
  -- It leaves `pk_row_index` and `unique_set` as they are.
  unfoldable pub truncate : Table E → Table E
  truncate t = record t { rows = []; pk_set = Map.no_keys; indices = [] }
