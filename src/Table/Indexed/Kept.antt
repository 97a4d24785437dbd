-- ===== src/Table/Indexed/Kept.antt =====
-- The BTREE indices under `rebuild_index` (engine/table.rs), `insert` and `delete`
-- (engine/table/row_ops.rs).
use a3sql.Prelude.{
  ℕ, ◌≡◌, refl, ap, sym, ◌∙◌, subst, Bool, false, ◌||◌, Option, none, some, List, [], ◌∷◌, ◌++◌,
  length, arith, ok, >>=-eq-ok, ok-injective,
}
use a3sql.Prelude.Map.{Map}
use a3sql.Prelude.Text.{Text}
use a3sql.Host.{Host}
use a3sql.Index
use a3sql.Index.{IndexMeta, contains}
use a3sql.Table.Defs.{
  Table, Row, IndexImpl, index_cell, index_rows, empty_like, rebuild_one, rebuild_indices,
  rebuild_index, key_rows, without_keys,
}
use a3sql.Table.Indexed.{
  is_btree, found_at, hits, hits-append, is_btree-index_cell, is_btree-index_rows,
  found_at-index_cell, found_at-index_rows, IsExact, AllExact,
}
use a3sql.Table.Rows.{
  on_cell, update_indices_insert, commit_row, accept, insert, delete, delete_loop,
}

module _ {E : Type 0} (host : Host E) where
  found_at-empty_like :
      (i : ℕ) (k column : Text) (impl : IndexImpl)
      → contains i (found_at (empty_like column impl) k) ≡ false
  unfolding contains Index.get Index.btree_new
  found_at-empty_like i k column (IndexImpl.btree idx) = refl
  found_at-empty_like i k column (IndexImpl.trigram idx) = refl

  is_btree-empty_like :
      (column : Text) (impl : IndexImpl) → is_btree (empty_like column impl) ≡ is_btree impl
  is_btree-empty_like column (IndexImpl.btree idx) = refl
  is_btree-empty_like column (IndexImpl.trigram idx) = refl

  rebuild_one-IsExact :
      (col_index : Map ℕ) (rows : List Row) (x : IndexMeta × IndexImpl)
      → IsExact host col_index rows (rebuild_one host col_index rows x)
  unfolding rebuild_one
  rebuild_one-IsExact col_index rows (meta, impl) ci at b i k =
      let rebuilt =
        ap
          (λ (o : Option ℕ). elim o as (λ x. IndexImpl) [
            | none ↦ empty_like meta.column impl
            | some ci ↦ index_rows host ci 0 rows (empty_like meta.column impl)
          ])
          at in
      let kind =
        sym (is_btree-index_rows host ci 0 rows (empty_like meta.column impl))
        ∙ sym (ap is_btree rebuilt)
        ∙ b in
      ap (λ x. contains i (found_at x k)) rebuilt
      ∙ found_at-index_rows host ci 0 i k rows (empty_like meta.column impl) kind
      ∙ ap (λ x. x || hits host ci i k 0 rows) (found_at-empty_like i k meta.column impl)

  rebuild_indices-AllExact :
      (col_index : Map ℕ) (rows : List Row) (xs : List (IndexMeta × IndexImpl))
      → AllExact host col_index rows (rebuild_indices host col_index rows xs)
  unfolding rebuild_indices
  rebuild_indices-AllExact col_index rows [] = tt
  rebuild_indices-AllExact col_index rows (x ∷ xs) =
      (rebuild_one-IsExact col_index rows x, rebuild_indices-AllExact col_index rows xs)

  -- The table's indices are exact at the positions that `col_index` has, right or stale.
  abbrev pub HasIndices : Table E → Type 0
  HasIndices t = AllExact host t.col_index t.rows t.indices

  pub rebuild_index-HasIndices : (t : Table E) → HasIndices (rebuild_index host t)
  unfolding rebuild_index
  rebuild_index-HasIndices t =
      let keyed = key_rows host 0 t.rows (without_keys t) in
      rebuild_indices-AllExact keyed.col_index keyed.rows keyed.indices

  -- After `delete` the indices are exact at the positions that `col_index` has.
  pub delete-HasIndices : (p : Row → Bool) (t : Table E) → HasIndices (delete host p t).0
  unfolding delete
  delete-HasIndices p t =
      rebuild_index-HasIndices (delete_loop host p 0 t.rows (record t { rows = [] }, 0)).0

  on_cell-IsExact :
      (col_index : Map ℕ) (rows : List Row) (row : Row) (x : IndexMeta × IndexImpl)
      → IsExact host col_index rows x
      → IsExact host col_index (rows ++ (row ∷ [])) (on_cell host col_index (length rows) row x)
  on_cell-IsExact col_index rows row (meta, impl) h ci at b i k =
      let put =
        ap
          (λ (o : Option ℕ). elim o as (λ x. IndexImpl) [
            | none ↦ impl
            | some ci ↦ index_cell host ci (length rows) row impl
          ])
          at in
      let kind =
        sym (is_btree-index_cell host ci (length rows) row impl) ∙ sym (ap is_btree put) ∙ b in
      ap (λ x. contains i (found_at x k)) put
      ∙ found_at-index_cell host ci (length rows) i k row impl kind
      ∙ ground (arith, h ci at kind i k, hits-append host ci i k 0 rows row)

  update_indices_insert-AllExact :
      (col_index : Map ℕ) (rows : List Row) (row : Row) (xs : List (IndexMeta × IndexImpl))
      → AllExact host col_index rows xs
      → AllExact host col_index
          (rows ++ (row ∷ []))
          (update_indices_insert host col_index (length rows) row xs)
  unfolding update_indices_insert
  update_indices_insert-AllExact col_index rows row [] h = tt
  update_indices_insert-AllExact col_index rows row (x ∷ xs) h = (
    on_cell-IsExact col_index rows row x h.0,
    update_indices_insert-AllExact col_index rows row xs h.1,
  )

  -- `insert` keeps the indices exact at the positions that `col_index` has.
  pub insert-HasIndices :
      (t : Table E) (row : Row) {t' : Table E}
      → HasIndices t
      → insert host row t ≡ ok t'
      → HasIndices t'
  unfolding insert commit_row
  insert-HasIndices t row h e =
      let (row', a, b) = >>=-eq-ok (accept host row t) (λ r. ok (commit_row host r t)) e in
      subst HasIndices (ok-injective b)
        (update_indices_insert-AllExact t.col_index t.rows row' t.indices h)
