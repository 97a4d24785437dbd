-- ===== src/Table/Access.antt =====
-- The accessors of the table: engine/table.rs, engine/table/schema.rs and engine/table/row_ops.rs; the
-- texts of column and index types.
use a3sql.Prelude.{
  ℕ, ◌+◌, Bool, true, false, Option, none, some, List, [], ◌∷◌, ◌++◌, length, map, ite,
  if◌then◌else◌,
}
use a3sql.Prelude.Text.{Text, bytes, Text-discrete}
use a3sql.Host.{Host}
use a3sql.Value.{ColumnType, Column}
use a3sql.Index.{IndexType, IndexMeta, BTreeIndex, Entries}
use a3sql.Table.Defs.{Table, Row, IndexImpl, has_name}
use a3sql.Table.Keys.{pk_key_static}

-- The `Display` of a column type and of an index type.
unfoldable pub type_text : ColumnType → Text
type_text ColumnType.bool = bytes "BOOL"
type_text ColumnType.int = bytes "INT"
type_text ColumnType.float = bytes "FLOAT"
type_text ColumnType.string = bytes "STRING"
type_text ColumnType.strings = bytes "STRINGS[]"
type_text ColumnType.floats = bytes "FLOATS[]"

abbrev entry_rows : Entries → List ℕ
entry_rows [] = []
entry_rows ((k, rows) ∷ rest) = rows ++ entry_rows rest

unfoldable pub all_entries : BTreeIndex → List ℕ
all_entries idx = entry_rows idx.entries

abbrev same_type : IndexType → IndexType → Bool
same_type IndexType.btree IndexType.btree = true
same_type IndexType.trigram IndexType.trigram = true
same_type _ _ = false

abbrev first_on : Text → IndexType → List (IndexMeta × IndexImpl) → Option IndexImpl
first_on column kind [] = none
first_on column kind ((m, impl) ∷ rest) =
    let later = first_on column kind rest in
    ite (Text-discrete m.column column) (if same_type m.index_type kind then some impl else later)
      later

-- The rows, each that passes the predicate after `setter`, and how many passed.
abbrev pub set_rows : (Row → Bool) → (Row → Row) → List Row → List Row × ℕ
set_rows predicate setter [] = ([], 0)
set_rows predicate setter (row ∷ rows) =
    let (rest, count) = set_rows predicate setter rows in
    if predicate row then (setter row ∷ rest, count + 1) else (row ∷ rest, count)

abbrev pub passing : (Row → Bool) → List Row → List Row
passing predicate [] = []
passing predicate (row ∷ rows) =
    let rest = passing predicate rows in if predicate row then row ∷ rest else rest

module _ {E : Type 0} where
  unfoldable pub col_count : Table E → ℕ
  col_count t = length t.columns

  unfoldable pub col_idx : Text → Table E → Option ℕ
  col_idx name t = t.col_index name

  unfoldable pub header : Table E → List Text
  header t = map (λ (c : Column E). c.name) t.columns

  unfoldable pub row_count : Table E → ℕ
  row_count t = length t.rows

  unfoldable pub has_index : Text → Table E → Bool
  unfolding has_name
  has_index name t = has_name name t.indices

  unfoldable pub find_index : Text → IndexType → Table E → Option IndexImpl
  find_index column kind t = first_on column kind t.indices

  -- Predicates and setters without a state of their own.
  unfoldable pub update : (Row → Bool) → (Row → Row) → Table E → Table E × ℕ
  update predicate setter t =
      let (rows, count) = set_rows predicate setter t.rows in (record t { rows = rows }, count)

  unfoldable pub select : (Row → Bool) → Table E → List Row
  select predicate t = passing predicate t.rows

  unfoldable pub all_rows : Table E → List Row
  all_rows t = t.rows

module _ {E : Type 0} (host : Host E) where
  unfoldable pub pk_key : Row → Table E → Option Text
  pk_key row t = pk_key_static host t.columns row
