-- ===== src/Table/Keyed/Rebuild.antt =====
-- The keys beside the rows under `rebuild_index` (engine/table.rs) and `delete`
-- (engine/table/row_ops.rs), and the rows that `delete` leaves.
use a3sql.Prelude.{
  ℕ, suc, ◌+◌, ◌≡◌, refl, sym, ap, ◌∙◌, Bool, true, false, ◌||◌, Option, none, some, List, [], ◌∷◌,
  ◌++◌, length, arith, if◌then◌else◌, append-nil, append_assoc, All, inl, inr, Bool-cases,
}
use a3sql.Prelude.Text.{Text}
use a3sql.Prelude.Texts.{
  among, among-append, Distinct, Distinct-right, add_all-among, kept, count_if,
  Distinct-gather-kept,
}
use a3sql.Host.{Host}
use a3sql.Table.Defs.{
  Table, Row, add_pk, add_unique, add_key, insert_key, key_rows, without_keys, rebuild_index,
}
use a3sql.Table.Keys.{pk_key_static, unique_keys}
use a3sql.Table.Keyed.{key_list, is_key, pk_keys, uniques, row_of, row_of-none, HasKeys}
use a3sql.Table.Rows.{forget_row, delete_loop, delete}

module _ {E : Type 0} (host : Host E) where
  abbrev keyed : ℕ → Row → Table E → Table E
  keyed ri row t =
      add_unique (unique_keys host t.columns row) (add_pk (pk_key_static host t.columns row) ri t)

  abbrev or_else : Option ℕ → Option ℕ → Option ℕ
  or_else none o = o
  or_else (some i) o = some i

  -- What the loop leaves alone.
  record SameButKeys (t t' : Table E) : Type 0 where
    same_rows : t'.rows ≡ t.rows
    same_columns : t'.columns ≡ t.columns
    same_col_index : t'.col_index ≡ t.col_index
    same_indices : t'.indices ≡ t.indices

  key_rows-SameButKeys :
      (ri : ℕ) (rows : List Row) (t : Table E) → SameButKeys t (key_rows host ri rows t)
  unfolding key_rows
  key_rows-SameButKeys ri [] t = record {
    same_rows = refl;
    same_columns = refl;
    same_col_index = refl;
    same_indices = refl;
  }
  key_rows-SameButKeys ri (row ∷ rows) t =
      let s = key_rows-SameButKeys (suc ri) rows (keyed ri row t) in
      record {
        same_rows = s.same_rows;
        same_columns = s.same_columns;
        same_col_index = s.same_col_index;
        same_indices = s.same_indices;
      }

  key_rows-pk_set :
      (ri : ℕ) (rows : List Row) (t : Table E) (k : Text)
      → (key_rows host ri rows t).pk_set k ≡ (among k (pk_keys host t.columns rows) || t.pk_set k)
  unfolding key_rows
  key_rows-pk_set ri [] t k = refl
  key_rows-pk_set ri (row ∷ rows) t k =
      key_rows-pk_set (suc ri) rows (keyed ri row t) k ∙ split (pk_key_static host t.columns row)
    where
      split :
          (key : Option Text)
          → (among k (pk_keys host t.columns rows) || add_key key t.pk_set k)
            ≡ (among k (key_list key ++ pk_keys host t.columns rows) || t.pk_set k)
      split none = refl
      split (some j) = ground arith

  key_rows-unique_set :
      (ri : ℕ) (rows : List Row) (t : Table E) (k : Text)
      → (key_rows host ri rows t).unique_set k
        ≡ (among k (uniques host t.columns rows) || t.unique_set k)
  unfolding key_rows
  key_rows-unique_set ri [] t k = refl
  key_rows-unique_set ri (row ∷ rows) t k =
      key_rows-unique_set (suc ri) rows (keyed ri row t) k
      ∙ ground (
        arith,
        add_all-among (unique_keys host t.columns row) t.unique_set k,
        among-append k (unique_keys host t.columns row) (uniques host t.columns rows),
      )

  key_rows-pk_row_index :
      (ri : ℕ) (rows : List Row) (t : Table E) (k : Text)
      → Distinct (pk_keys host t.columns rows)
      → (key_rows host ri rows t).pk_row_index k
        ≡ or_else (row_of host t.columns k ri rows) (t.pk_row_index k)
  unfolding key_rows
  key_rows-pk_row_index ri [] t k d = refl
  key_rows-pk_row_index ri (row ∷ rows) t k d =
      key_rows-pk_row_index (suc ri) rows (keyed ri row t) k (
        Distinct-right (key_list (pk_key_static host t.columns row)) (pk_keys host t.columns rows)
          d)
      ∙ split (pk_key_static host t.columns row) d
    where
      split :
          (key : Option Text)
          → Distinct (key_list key ++ pk_keys host t.columns rows)
          → or_else (row_of host t.columns k (suc ri) rows) (insert_key key ri t.pk_row_index k)
            ≡ or_else
                (if is_key k key then some ri else row_of host t.columns k (suc ri) rows)
                (t.pk_row_index k)
      split none d = refl
      split (some j) d = ground (arith, row_of-none host t.columns k (suc ri) rows)

  -- If the rows are as long as the columns and their PRIMARY KEY and UNIQUE keys are distinct,
  -- `rebuild_index` makes the keys exact, whatever the key sets held before.
  rebuild_index-HasKeys :
      (t : Table E)
      → All (λ (row : Row). length row ≡ length t.columns) t.rows
      → Distinct (pk_keys host t.columns t.rows)
      → Distinct (uniques host t.columns t.rows)
      → HasKeys host (rebuild_index host t)
  unfolding rebuild_index
  rebuild_index-HasKeys t w d u =
      let s = key_rows-SameButKeys 0 t.rows (without_keys t) in
      record {
        widths = rw (s.same_rows, s.same_columns) w;
        pk_set = λ k.
            rw (s.same_rows, s.same_columns)
              (key_rows-pk_set 0 t.rows (without_keys t) k ∙ ground arith);
        pk_row_index = λ k.
            rw (s.same_rows, s.same_columns)
              (key_rows-pk_row_index 0 t.rows (without_keys t) k d
                ∙ or_else-none (row_of host t.columns k 0 t.rows));
        pk_distinct = rw (s.same_rows, s.same_columns) d;
        unique_set = λ k.
            rw (s.same_rows, s.same_columns)
              (key_rows-unique_set 0 t.rows (without_keys t) k ∙ ground arith);
        unique_distinct = rw (s.same_rows, s.same_columns) u;
      }
    where
      or_else-none : (o : Option ℕ) → or_else o none ≡ o
      or_else-none none = refl
      or_else-none (some i) = refl

  pub rebuild_index-rows : (t : Table E) → (rebuild_index host t).rows ≡ t.rows
  unfolding rebuild_index
  rebuild_index-rows t = (key_rows-SameButKeys 0 t.rows (without_keys t)).same_rows

  pub rebuild_index-columns : (t : Table E) → (rebuild_index host t).columns ≡ t.columns
  unfolding rebuild_index
  rebuild_index-columns t = (key_rows-SameButKeys 0 t.rows (without_keys t)).same_columns

  pub rebuild_index-col_index : (t : Table E) → (rebuild_index host t).col_index ≡ t.col_index
  unfolding rebuild_index
  rebuild_index-col_index t = (key_rows-SameButKeys 0 t.rows (without_keys t)).same_col_index

  -- The loop of `delete` keeps the rows that fail the predicate and counts the others.
  pub record Deleted (p : Row → Bool) (rows : List Row) (t t' : Table E) : Type 0 where
    pub kept_rows : t'.rows ≡ t.rows ++ kept p rows
    pub same_cols : t'.columns ≡ t.columns
    pub same_positions : t'.col_index ≡ t.col_index

  delete_loop-if :
      (p : Row → Bool) (i : ℕ) (row : Row) (rows : List Row) (t : Table E) (d : ℕ) (b : Bool)
      → p row ≡ b
      → delete_loop host p i (row ∷ rows) (t, d)
        ≡ delete_loop host p (suc i) rows (
            if b
            then (forget_row host i row t, d + 1)
            else (record t { rows = t.rows ++ (row ∷ []) }, d))
  unfolding delete_loop
  delete_loop-if p i row rows t d b e =
      ap
        (λ b. delete_loop host p (suc i) rows (
          if b
          then (forget_row host i row t, d + 1)
          else (record t { rows = t.rows ++ (row ∷ []) }, d)))
        e

  pub delete_loop-Deleted :
      (p : Row → Bool) (i : ℕ) (rows : List Row) (t : Table E) (d : ℕ)
      → Deleted p rows t (delete_loop host p i rows (t, d)).0
        × ((delete_loop host p i rows (t, d)).1 ≡ d + count_if p rows)
  unfolding delete_loop kept count_if
  delete_loop-Deleted p i [] t d = (
    record { kept_rows = sym (append-nil t.rows); same_cols = refl; same_positions = refl },
    omega arith,
  )
  delete_loop-Deleted p i (row ∷ rows) t d = elim (Bool-cases (p row)) [
    | inl gone ↦
        rw (delete_loop-if p i row rows t d true gone, gone)
          (let (s, n) = delete_loop-Deleted p (suc i) rows (forget_row host i row t) (d + 1) in
            (
              record {
                kept_rows = rw gone s.kept_rows;
                same_cols = s.same_cols;
                same_positions = s.same_positions;
              },
              n ∙ omega arith,
            ))
    | inr stays ↦
        rw (delete_loop-if p i row rows t d false stays, stays)
          (let (s, n) =
              delete_loop-Deleted p (suc i) rows (record t { rows = t.rows ++ (row ∷ []) }) d in
            (
              record {
                kept_rows = rw stays (s.kept_rows ∙ append_assoc t.rows (row ∷ []) (kept p rows));
                same_cols = s.same_cols;
                same_positions = s.same_positions;
              },
              n,
            ))
  ]

  -- `delete` keeps the rows that fail the predicate, in their order, and returns how many rows
  -- passed it.
  pub delete-kept :
      (p : Row → Bool) (t : Table E)
      → ((delete host p t).0.rows ≡ kept p t.rows) × ((delete host p t).1 ≡ count_if p t.rows)
  unfolding delete
  delete-kept p t =
      let (s, n) = delete_loop-Deleted p 0 t.rows (record t { rows = [] }) 0 in
      (
        rebuild_index-rows (delete_loop host p 0 t.rows (record t { rows = [] }, 0)).0
            ∙ s.kept_rows,
        n ∙ omega arith,
      )

  pub All-kept :
      (p : Row → Bool) (P : Row → Type 0) (rows : List Row) → All P rows → All P (kept p rows)
  unfolding kept
  All-kept p P [] a = tt
  All-kept p P (row ∷ rows) a = elim (Bool-cases (p row)) [
    | inl gone ↦ rw gone (All-kept p P rows a.1)
    | inr stays ↦ rw stays (a.0, All-kept p P rows a.1)
  ]

  -- `delete` of a table with exact keys leaves a table with exact keys, whatever the predicate.
  pub delete-HasKeys :
      (p : Row → Bool) (t : Table E) → HasKeys host t → HasKeys host (delete host p t).0
  unfolding delete
  delete-HasKeys p t h =
      let s = (delete_loop-Deleted p 0 t.rows (record t { rows = [] }) 0).0 in
      rebuild_index-HasKeys (delete_loop host p 0 t.rows (record t { rows = [] }, 0)).0
        (rw (s.kept_rows, s.same_cols)
          (All-kept p (λ row. length row ≡ length t.columns) t.rows h.widths))
        (rw (s.kept_rows, s.same_cols)
          (Distinct-gather-kept (λ row. key_list (pk_key_static host t.columns row)) p t.rows
            h.pk_distinct))
        (rw (s.kept_rows, s.same_cols)
          (Distinct-gather-kept (unique_keys host t.columns) p t.rows h.unique_distinct))
