-- ===== src/Table/Indexed/ByName.antt =====
-- The BTREE indices against the columns that their names stand for (engine/table.rs,
-- engine/table/row_ops.rs), whatever `col_index` says.
use a3sql.Prelude.{ℕ, ◌≡◌, sym, ◌∙◌, subst, some, List, [], ◌∷◌, ok, >>=-eq-ok, ok-injective}
use a3sql.Prelude.Map.{Map}
use a3sql.Prelude.Text.{Text}
use a3sql.Host.{Host}
use a3sql.Index.{IndexMeta}
use a3sql.Table.Defs.{Table, Row, IndexImpl}
use a3sql.Table.Rows.{accept, commit_row, insert}
use a3sql.Table.Indexed.{AllExact}
use a3sql.Table.Indexed.Kept.{HasIndices, insert-HasIndices}
use a3sql.Table.Panics.{insert_or_panic}
use a3sql.Table.Panics.InStep.{position, InStep}
use a3sql.Table.Panics.Free.{insert_or_panic-insert}

some-eq : {A : Type 0} {x y : A} → some x ≡ some y → x ≡ y
some-eq e = cc

module _ {E : Type 0} (host : Host E) where
  AllExact-agree :
      (m n : Map ℕ) (rows : List Row) (xs : List (IndexMeta × IndexImpl))
      → ((name : Text) → m name ≡ n name)
      → AllExact host m rows xs
      → AllExact host n rows xs
  AllExact-agree m n rows [] agree h = tt
  AllExact-agree m n rows ((meta, impl) ∷ xs) agree h =
      (λ ci at. h.0 ci (agree meta.column ∙ at), AllExact-agree m n rows xs agree h.1)

  -- Every BTREE index whose name stands for a column of the table holds, at every key, exactly the rows
  -- whose cell in that column has the key.
  abbrev pub HasColumnIndices : Table E → Type 0
  HasColumnIndices t = AllExact host (λ name. position name t.columns) t.rows t.indices

  by_name : (t : Table E) → InStep t → HasIndices host t → HasColumnIndices t
  by_name t step =
      AllExact-agree t.col_index (λ name. position name t.columns) t.rows t.indices step

  by_position : (t : Table E) → InStep t → HasColumnIndices t → HasIndices host t
  by_position t step =
      AllExact-agree (λ name. position name t.columns) t.col_index t.rows t.indices
        (λ name. sym (step name))

  insert-InStep :
      (t : Table E) (row : Row) {t' : Table E} → InStep t → insert host row t ≡ ok t' → InStep t'
  unfolding insert commit_row
  insert-InStep t row step e =
      let (row', a, b) = >>=-eq-ok (accept host row t) (λ r. ok (commit_row host r t)) e in
      subst InStep (ok-injective b) step

  -- If `col_index` gives the position of every column, every BTREE index named for a column of
  -- the table holds, at every key, exactly the rows whose cell in the column of that name has
  -- the key, and `insert` accepts a row, then both are so in the new table.
  pub insert_or_panic-HasColumnIndices :
      (t : Table E) (row : Row) {t' : Table E}
      → InStep t
      → HasColumnIndices t
      → insert_or_panic host row t ≡ some (ok t')
      → InStep t' × HasColumnIndices t'
  insert_or_panic-HasColumnIndices t row {t'} step h e =
      let accepted : insert host row t ≡ ok t' =
        some-eq (sym (insert_or_panic-insert host t row step) ∙ e) in
      let later = insert-InStep t row step accepted in
      (later, by_name t' later (insert-HasIndices host t row (by_position t step h) accepted))
