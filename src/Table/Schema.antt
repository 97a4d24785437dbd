-- ===== src/Table/Schema.antt =====
-- engine/table/schema.rs: adding, renaming and dropping a column.
use a3sql.Prelude.{
  ℕ, zero, suc, false, Option, none, some, List, [], ◌∷◌, ◌++◌, map, length, Result, ok, err, ite,
}
use a3sql.Prelude.Map
use a3sql.Prelude.Map.{Map}
use a3sql.Prelude.Text.{Text, Text-discrete, bytes}
use a3sql.Error.{EngineError, column_already_exists, column_not_found, internal}
use a3sql.Error
use a3sql.Value.{null, ColumnType, Column}
use a3sql.Table.Defs.{Table, Row}

-- `v.remove(idx)`
unfoldable pub remove_at {ℓ} : {A : Type ℓ} → ℕ → List A → List A
remove_at i [] = []
remove_at zero (x ∷ xs) = xs
remove_at (suc i) (x ∷ xs) = x ∷ remove_at i xs

module _ {E : Type 0} where
  -- `columns.iter().position(|c| c.name == name)`
  unfoldable pub position : Text → List (Column E) → Option ℕ
  position name [] = none
  position name (c ∷ cs) =
      let rest = position name cs in
      ite (Text-discrete c.name name) (some 0) (elim rest [ none ↦ none | some i ↦ some (suc i) ])

  abbrev pub plain_column : Text → ColumnType → Column E
  plain_column name dtype = record {
    name = name;
    dtype = dtype;
    primary_key = false;
    not_null = false;
    default = none;
    default_expr = none;
    auto_increment = false;
    unique = false;
  }

  unfoldable pub add_column : Text → ColumnType → Table E → Result (Table E) EngineError
  unfolding position
  add_column name dtype t = elim (position name t.columns) [
    | some i ↦ err (column_already_exists name)
    | none ↦ ok (record t {
      columns = t.columns ++ (plain_column name dtype ∷ []);
      col_index = Map.insert name (length t.columns) t.col_index;
      rows = map (λ (row : Row). row ++ (null ∷ [])) t.rows;
    })
  ]

  -- The first column of the old name takes the new one.
  unfoldable pub rename_first : Text → Text → List (Column E) → List (Column E)
  rename_first old new [] = []
  rename_first old new (c ∷ cs) =
      let rest = rename_first old new cs in
      ite (Text-discrete c.name old) (record c { name = new } ∷ cs) (c ∷ rest)

  unfoldable pub rename_column : Text → Text → Table E → Result (Table E) EngineError
  unfolding position rename_first
  rename_column old new t = elim (position old t.columns) [
    | none ↦ err (column_not_found old)
    | some i ↦
        let columns = rename_first old new t.columns in
        elim (position new columns) [
          | none ↦ err (internal (Error.text (bytes "column index not found after rename")))
          | some j ↦ ok (record t {
            columns = columns;
            col_index = Map.insert new j (Map.remove old t.col_index);
          })
        ]
  ]

  -- It leaves `col_index`, the keys and the indices as they are.
  unfoldable pub drop_column : Text → Table E → Result (Table E) EngineError
  unfolding position remove_at
  drop_column name t = elim (position name t.columns) [
    | none ↦ err (column_not_found name)
    | some idx ↦
        ok (record t { columns = remove_at idx t.columns; rows = map (remove_at idx) t.rows })
  ]
