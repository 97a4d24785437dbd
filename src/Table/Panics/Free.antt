-- ===== src/Table/Panics/Free.antt =====
-- The table operations on tables in step: without a panic they do what `insert` and `delete` do
-- (engine/table/row_ops.rs).
use a3sql.Prelude.{
  ◌≡◌, refl, Bool, true, Option, none, some, List, [], ◌∷◌, length, Result, ok, err, if◌then◌else◌,
  All, ◌>>=◌,
}
use a3sql.Prelude.Texts.{kept}
use a3sql.Error.{EngineError}
use a3sql.Host.{Host}
use a3sql.Table.Defs.{Table, Row}
use a3sql.Table.Rows.{accept, commit_row, insert, delete, delete_loop}
use a3sql.Table.Keyed.Insert.{accept-IsFree}
use a3sql.Table.Keyed.Rebuild.{delete_loop-Deleted, All-kept}
use a3sql.Table.Panics.{in_bounds, all_in_bounds, insert_or_panic, delete_or_panic}
use a3sql.Table.Panics.InStep.{InStep, in_bounds-InStep, all_in_bounds-InStep}

module _ {E : Type 0} (host : Host E) where
  -- `insert` does not panic on a table in step.
  pub insert_or_panic-insert :
      (t : Table E) (row : Row) → InStep t → insert_or_panic host row t ≡ some (insert host row t)
  unfolding insert_or_panic insert
  insert_or_panic-insert t row step = split (accept host row t) refl
    where
      split :
          (r : Result Row EngineError)
          → accept host row t ≡ r
          → elim r as (λ r. Option (Result (Table E) EngineError)) [
            | err e ↦ some (err e)
            | ok row' ↦
                if in_bounds t.col_index row' t.indices
                then some (ok (commit_row host row' t))
                else none
          ]
            ≡ some (r >>= λ row'. ok (commit_row host row' t))
      split (err e) a = refl
      split (ok row') a =
          let free = accept-IsFree host t row row' a in
          rw (in_bounds-InStep t.columns t.col_index row' t.indices step free.width) refl

  -- The rows inserted one after the other, with the panics.
  abbrev pub insert_all_or_panic : List Row → Table E → Option (Result (Table E) EngineError)
  insert_all_or_panic [] t = some (ok t)
  insert_all_or_panic (row ∷ rows) t = elim (insert_or_panic host row t) [
    | none ↦ none
    | some r ↦ elim r [ err e ↦ some (err e) | ok t' ↦ insert_all_or_panic rows t' ]
  ]

  -- `delete` does not panic on a table in step with rows as long as the columns.
  pub delete_or_panic-delete :
      (p : Row → Bool) (t : Table E)
      → InStep t
      → All (λ (row : Row). length row ≡ length t.columns) t.rows
      → delete_or_panic host p t ≡ some (delete host p t)
  unfolding delete_or_panic delete
  delete_or_panic-delete p t step ws =
      let s = (delete_loop-Deleted host p 0 t.rows (record t { rows = [] }) 0).0 in
      let t' = (delete_loop host p 0 t.rows (record t { rows = [] }, 0)).0 in
      let inside : all_in_bounds t'.col_index t'.rows t'.indices ≡ true =
        rw (s.same_positions, s.kept_rows)
          (all_in_bounds-InStep t.columns t.col_index (kept p t.rows) t'.indices step
            (All-kept host p (λ row. length row ≡ length t.columns) t.rows ws)) in
      rw inside refl
