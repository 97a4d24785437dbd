-- ===== src/Table/Indexed.antt =====
-- The BTREE indices of a table against its rows (engine/table.rs, engine/table/row_ops.rs).
pub mod ByName
pub mod Kept
use a3sql.Prelude.{
  ℕ, zero, suc, ◌+◌, ◌≡◌, refl, ap, sym, ◌∙◌, Bool, true, false, ◌&&◌, ◌||◌, Option, none, some,
  List, [], ◌∷◌, ◌++◌, length, get_elem?, arith, ite, if◌then◌else◌, ◌==◌, Option-cases, inl, inr,
}
use a3sql.Prelude.Map
use a3sql.Prelude.Map.{Map}
use a3sql.Prelude.Text.{Text, Text-discrete}
use a3sql.Host.{Host}
use a3sql.Value.{DbValue}
use a3sql.Index.{IndexMeta, BTreeIndex, Entries, encode_key, contains, btree_insert, btree_new}
use a3sql.Index.BTree.{rows_at, rows_at-push, contains-append}
use a3sql.Table.Defs.{
  Table, Row, IndexImpl, index_cell, index_insert, index_rows, empty_like, rebuild_one,
  rebuild_indices,
}

abbrev pub is_btree : IndexImpl → Bool
is_btree (IndexImpl.btree idx) = true
is_btree (IndexImpl.trigram idx) = false

-- The rows that a BTREE index holds at a key.
abbrev pub found_at : IndexImpl → Text → List ℕ
found_at (IndexImpl.btree idx) k = rows_at k idx.entries
found_at (IndexImpl.trigram idx) k = []

module _ {E : Type 0} (host : Host E) where
  -- The row's cell in column `ci` has the key.
  abbrev pub cell_key : ℕ → Text → Row → Bool
  cell_key ci k row = elim (get_elem? row ci) [
    | none ↦ false
    | some v ↦ ite (Text-discrete (encode_key host v) k) true false
  ]

  -- Row `i` is among the rows, counted from `ri`, and its cell has the key.
  abbrev pub hits : ℕ → ℕ → Text → ℕ → List Row → Bool
  hits ci i k ri [] = false
  hits ci i k ri (row ∷ rows) = (i == ri && cell_key ci k row) || hits ci i k (suc ri) rows

  pub hits-append :
      (ci i : ℕ) (k : Text) (ri : ℕ) (rows : List Row) (row : Row)
      → hits ci i k ri (rows ++ (row ∷ []))
        ≡ (hits ci i k ri rows || (i == ri + length rows && cell_key ci k row))
  hits-append ci i k ri [] row = ground arith
  hits-append ci i k ri (r ∷ rows) row = ground (arith, hits-append ci i k (suc ri) rows row)

  pub is_btree-index_cell :
      (ci ri : ℕ) (row : Row) (impl : IndexImpl)
      → is_btree (index_cell host ci ri row impl) ≡ is_btree impl
  unfolding index_insert
  is_btree-index_cell ci ri row (IndexImpl.btree idx) = ground arith
  is_btree-index_cell ci ri row (IndexImpl.trigram idx) = ground arith

  pub found_at-index_cell :
      (ci ri i : ℕ) (k : Text) (row : Row) (impl : IndexImpl)
      → is_btree impl ≡ true
      → contains i (found_at (index_cell host ci ri row impl) k)
        ≡ (contains i (found_at impl k) || (i == ri && cell_key ci k row))
  unfolding index_insert btree_insert contains
  found_at-index_cell ci ri i k row (IndexImpl.trigram idx) b = absurd (ground arith)
  found_at-index_cell ci ri i k row (IndexImpl.btree idx) b = split (get_elem? row ci)
    where
      split :
          (o : Option DbValue)
          → contains i (
              found_at
                (elim o as (λ x. IndexImpl) [
                  | none ↦ IndexImpl.btree idx
                  | some v ↦ index_insert host ri v (IndexImpl.btree idx)
                ])
                k)
            ≡ (contains i (rows_at k idx.entries)
                || (i == ri && elim o as (λ x. Bool) [
                  | none ↦ false
                  | some v ↦ ite (Text-discrete (encode_key host v) k) true false
                ]))
      split none = ground arith
      split (some v) = ground (
        arith,
        rows_at-push k (encode_key host v) ri idx.entries,
        contains-append i (rows_at (encode_key host v) idx.entries) (ri ∷ []),
      )

  pub found_at-index_rows :
      (ci ri i : ℕ) (k : Text) (rows : List Row) (impl : IndexImpl)
      → is_btree impl ≡ true
      → contains i (found_at (index_rows host ci ri rows impl) k)
        ≡ (contains i (found_at impl k) || hits ci i k ri rows)
  unfolding index_rows
  found_at-index_rows ci ri i k [] impl b = ground arith
  found_at-index_rows ci ri i k (row ∷ rows) impl b =
      let later =
        found_at-index_rows ci (suc ri) i k rows (index_cell host ci ri row impl)
          (is_btree-index_cell ci ri row impl ∙ b) in
      ground (arith, later, found_at-index_cell ci ri i k row impl b)

  pub is_btree-index_rows :
      (ci ri : ℕ) (rows : List Row) (impl : IndexImpl)
      → is_btree (index_rows host ci ri rows impl) ≡ is_btree impl
  unfolding index_rows
  is_btree-index_rows ci ri [] impl = refl
  is_btree-index_rows ci ri (row ∷ rows) impl =
      is_btree-index_rows ci (suc ri) rows (index_cell host ci ri row impl)
      ∙ is_btree-index_cell ci ri row impl

  -- A BTREE index on a column that has a position holds, at every key, the rows whose cell at that
  -- position has the key, and no others.
  abbrev pub IsExact : Map ℕ → List Row → IndexMeta × IndexImpl → Type 0
  IsExact col_index rows (meta, impl) =
      (ci : ℕ)
      → col_index meta.column ≡ some ci
      → is_btree impl ≡ true
      → (i : ℕ) (k : Text) → contains i (found_at impl k) ≡ hits ci i k 0 rows

  abbrev pub AllExact : Map ℕ → List Row → List (IndexMeta × IndexImpl) → Type 0
  AllExact col_index rows [] = Unit
  AllExact col_index rows (x ∷ xs) = IsExact col_index rows x × AllExact col_index rows xs
