-- ===== src/Table/Panics.antt =====
-- The panics of `row[ci]` under the indices (engine/table.rs, engine/table/row_ops.rs). `drop_column`
-- leaves `col_index` as it is, so that a position in it can lie beyond the rows. `insert`, `delete` and
-- `create_index` pass over such a cell; the operations here give `none`, the panic, for it.
pub mod InStep
pub mod Free
use a3sql.Prelude.{
  ℕ, suc, Bool, true, false, ◌&&◌, Option, none, some, List, [], ◌∷◌, length, Result, ok, err, ltb,
  if◌then◌else◌,
}
use a3sql.Prelude.Map.{Map}
use a3sql.Prelude.Text.{Text}
use a3sql.Error.{EngineError, Message}
use a3sql.Host.{Host}
use a3sql.Index.{IndexMeta, IndexType}
use a3sql.Table.Defs.{Table, Row, IndexImpl, create_index, rebuild_index}
use a3sql.Table.Rows.{accept, commit_row, delete_loop}

-- `row[ci]` is in bounds, where the column has a position.
abbrev pub reaches : Row → Option ℕ → Bool
reaches row none = true
reaches row (some ci) = ltb ci (length row)

-- No index reads beyond the row.
unfoldable pub in_bounds : Map ℕ → Row → List (IndexMeta × IndexImpl) → Bool
in_bounds col_index row [] = true
in_bounds col_index row ((meta, impl) ∷ indices) =
    reaches row (col_index meta.column) && in_bounds col_index row indices

unfoldable pub all_in_bounds : Map ℕ → List Row → List (IndexMeta × IndexImpl) → Bool
unfolding in_bounds
all_in_bounds col_index [] indices = true
all_in_bounds col_index (row ∷ rows) indices =
    in_bounds col_index row indices && all_in_bounds col_index rows indices

unfoldable pub all_reach : Option ℕ → List Row → Bool
all_reach position [] = true
all_reach position (row ∷ rows) = reaches row position && all_reach position rows

module _ {E : Type 0} (host : Host E) where
  -- `insert`: `update_indices_insert` reads the stored row at the position of each index.
  unfoldable pub insert_or_panic : Row → Table E → Option (Result (Table E) EngineError)
  unfolding in_bounds
  insert_or_panic row t = elim (accept host row t) [
    | err e ↦ some (err e)
    | ok row' ↦
        if in_bounds t.col_index row' t.indices then some (ok (commit_row host row' t)) else none
  ]

  -- `delete`: `rebuild_indices` reads the rows that stay; `remove_from_indices` uses `row.get`.
  unfoldable pub delete_or_panic : (Row → Bool) → Table E → Option (Table E × ℕ)
  unfolding all_in_bounds
  delete_or_panic predicate t =
      let (t', deleted) = delete_loop host predicate 0 t.rows (record t { rows = [] }, 0) in
      if all_in_bounds t'.col_index t'.rows t'.indices
      then some (rebuild_index host t', deleted)
      else none

  -- `create_index`: it reads every row at the position of the column.
  unfoldable pub create_index_or_panic :
      Text → Text → IndexType → Table E → Option (Result (Table E) Message)
  unfolding all_reach
  create_index_or_panic name column index_type t =
      elim (create_index host name column index_type t) [
        | err e ↦ some (err e)
        | ok t' ↦ if all_reach (t.col_index column) t.rows then some (ok t') else none
      ]
