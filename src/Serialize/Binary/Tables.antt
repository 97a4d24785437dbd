-- ===== src/Serialize/Binary/Tables.antt =====
-- A table, written and read (engine/serialize/binary.rs). The format leaves out CHECKs, foreign keys,
-- triggers and indices.
use a3sql.Prelude.{
  ℕ, suc, ◌≡◌, refl, ap, sym, subst, true, none, List, [], ◌∷◌, ◌++◌, length, map, ok, >>=-eq-ok,
  ok-injective, arith, All, append_assoc,
}
use a3sql.Prelude.Int.{IsI64, to_bits, to_bits-lt, of_bits-to_bits}
use a3sql.Prelude.Map
use a3sql.Prelude.Map.{Map}
use a3sql.Prelude.Text.{Text}
use a3sql.Prelude.Texts.{among, Distinct}
use a3sql.Host.{Host}
use a3sql.Value.{Column}
use a3sql.Table.Defs.{Table, Row, new, fresh, index_columns}
use a3sql.Table.Keyed.{pk_keys, uniques, HasKeys}
use a3sql.Table.Keyed.Reload.{IsSettled, insert_all, insert_all-Reloaded}
use a3sql.Table.Rows.{insert, accept, commit_row}
use a3sql.Serialize.Bytes.{le_bytes}
use a3sql.Serialize.Binary.{
  u32_bytes, write_bin_str, write_row, write_rows, write_columns, write_bin_table, binary_version,
}
use a3sql.Serialize.Binary.Part.{column_count, next_auto_inc, row_count}
use a3sql.Serialize.Binary.Import.{read_rows, read_table}
use a3sql.Serialize.Binary.Values.{
  IsShort, IsText, IsStored, read_number-le_bytes, read_u32-u32_bytes, read_bin_str-write_bin_str,
  read_row-write_row,
}
use a3sql.Serialize.Binary.Columns.{IsStoredColumn, saved_column, read_columns-write_columns}

module _ {E : Type 0} where
  abbrev pub names_of : List (Column E) → List Text
  names_of [] = []
  names_of (c ∷ cs) = c.name ∷ names_of cs

  index_columns-ok :
      (i : ℕ) (cs : List (Column E)) (m : Map ℕ)
      → ((k : Text) → among k (names_of cs) ≡ true → m k ≡ none)
      → Distinct (names_of cs)
      → (m' : Map ℕ) × (index_columns i cs m ≡ ok m')
  unfolding index_columns
  index_columns-ok i [] m h d = (m, refl)
  index_columns-ok i (c ∷ cs) m h d =
      let free : m c.name ≡ none = h c.name (ground arith) in
      let (m', e) =
        index_columns-ok (suc i) cs (Map.insert c.name i m) (λ k a. ground (arith, h k, d.0)) d.1 in
      (m', rw (index_columns, free) e)

  new-fresh :
      (name : Text) (c : Column E) (cs : List (Column E))
      → Distinct (names_of (c ∷ cs))
      → (m : Map ℕ) × (new name (c ∷ cs) ≡ ok (fresh name (c ∷ cs) m))
  unfolding new
  new-fresh name c cs d =
      let (m, e) = index_columns-ok 0 (c ∷ cs) Map.empty (λ k a. refl) d in (m, rw (new, e) refl)

module _ {E : Type 0} (host : Host E) where
  insert-columns :
      (row : Row) (t : Table E) {t' : Table E} → insert host row t ≡ ok t' → t'.columns ≡ t.columns
  unfolding insert commit_row
  insert-columns row t e =
      let (row', a, b) = >>=-eq-ok (accept host row t) (λ r. ok (commit_row host r t)) e in
      ap (λ t. t.columns) (sym (ok-injective b))

  read_rows-write_rows :
      (rows : List Row) (t : Table E) (rest : Text) {t' : Table E}
      → All (λ (row : Row). length row ≡ length t.columns) rows
      → All (All IsStored) rows
      → insert_all host rows t ≡ ok t'
      → read_rows host (length rows) t (write_rows rows ++ rest) ≡ ok (t', rest)
  unfolding read_rows write_rows
  read_rows-write_rows [] t rest w s e = ap (λ t. ok (t, rest)) (ok-injective e)
  read_rows-write_rows (row ∷ rows) t rest {t'} w s e =
      let (t1, a, b) = >>=-eq-ok (insert host row t) (insert_all host rows) e in
      rw
        (
          append_assoc (write_row row),
          sym w.0,
          read_row-write_row row (write_rows rows ++ rest) s.0,
          a,
        )
        (read_rows-write_rows rows t1 rest
          (subst (λ cs. All (λ (r : Row). length r ≡ length cs) rows) (sym (insert-columns row t a))
            w.1)
          s.1 b)

  -- A table that the format can hold, with settled rows and distinct keys under the saved columns.
  pub record IsSaved (t : Table E) : Type 0 where
    pub name_text : IsText t.name
    pub has_columns : (c : Column E) × (cs : List (Column E)) × (t.columns ≡ c ∷ cs)
    pub names_distinct : Distinct (names_of t.columns)
    pub columns_stored : All (IsStoredColumn host) t.columns
    pub columns_short : IsShort t.columns
    pub counter_machine : IsI64 t.next_auto_inc
    pub rows_short : IsShort t.rows
    pub rows_stored : All (All IsStored) t.rows
    pub rows_settled : All (IsSettled host (map (saved_column host) t.columns)) t.rows
    pub pk_distinct : Distinct (pk_keys host (map (saved_column host) t.columns) t.rows)
    pub unique_distinct : Distinct (uniques host (map (saved_column host) t.columns) t.rows)

  -- The loaded table against the saved one.
  pub record IsLoaded (t t' : Table E) : Type 0 where
    pub same_name : t'.name ≡ t.name
    pub same_columns : t'.columns ≡ map (saved_column host) t.columns
    pub same_rows : t'.rows ≡ t.rows
    pub same_counter : t'.next_auto_inc ≡ t.next_auto_inc
    pub keys : HasKeys host t'

  names_of-saved : (cs : List (Column E)) → names_of (map (saved_column host) cs) ≡ names_of cs
  names_of-saved [] = refl
  names_of-saved (c ∷ cs) = rw (names_of-saved cs) refl

  pub new-HasKeys :
      (name : Text) (cs : List (Column E)) (m : Map ℕ) → HasKeys host (fresh name cs m)
  new-HasKeys name cs m = record {
    widths = tt;
    pk_set = λ k. refl;
    pk_row_index = λ k. refl;
    pk_distinct = tt;
    unique_set = λ k. refl;
    unique_distinct = tt;
  }

  new-saved :
      (name : Text) (cs : List (Column E))
      → (c : Column E) × (cs' : List (Column E)) × (cs ≡ c ∷ cs')
      → Distinct (names_of cs)
      → (m : Map ℕ) × (new name (map (saved_column host) cs)
          ≡ ok (fresh name (map (saved_column host) cs) m))
  new-saved name [] (c, cs', e) d = absurd (cc)
  new-saved name (c ∷ cs) shape d =
      new-fresh name (saved_column host c) (map (saved_column host) cs)
        (subst Distinct (sym (names_of-saved (c ∷ cs))) d)

  settled-widths :
      (cs : List (Column E)) (rows : List Row)
      → All (IsSettled host cs) rows
      → All (λ (row : Row). length row ≡ length cs) rows
  settled-widths cs [] s = tt
  settled-widths cs (row ∷ rows) s = (s.0.width, settled-widths cs rows s.1)

  abbrev base : Table E → Map ℕ → Table E
  base t m = record (fresh t.name (map (saved_column host) t.columns) m) {
    next_auto_inc = t.next_auto_inc;
  }

  read_table-steps :
      (t : Table E) (rest : Text) (m : Map ℕ) {t' : Table E}
      → IsSaved t
      → new t.name (map (saved_column host) t.columns)
        ≡ ok (fresh t.name (map (saved_column host) t.columns) m)
      → insert_all host t.rows (base t m) ≡ ok t'
      → read_table host binary_version (write_bin_table host t ++ rest) ≡ ok (t', rest)
  unfolding read_table write_bin_table
  read_table-steps t rest m s n e =
      rw (append_assoc (write_bin_str t.name), read_bin_str-write_bin_str t.name _ s.name_text)
        (rw
          (
            append_assoc (u32_bytes (length t.columns)),
            read_u32-u32_bytes (length t.columns) column_count _ s.columns_short,
          )
          (rw
            (
              append_assoc (write_columns host t.columns),
              read_columns-write_columns host t.columns _ s.columns_stored,
            )
            (rw n (
              rw
                (
                  append_assoc (le_bytes 8 (to_bits t.next_auto_inc)),
                  read_number-le_bytes 8 (to_bits t.next_auto_inc) next_auto_inc _
                      (to_bits-lt t.next_auto_inc s.counter_machine),
                  of_bits-to_bits t.next_auto_inc s.counter_machine,
                )
                (rw
                  (
                    append_assoc (u32_bytes (length t.rows)),
                    read_u32-u32_bytes (length t.rows) row_count _ s.rows_short,
                  )
                  (read_rows-write_rows t.rows (base t m) rest
                    (settled-widths (map (saved_column host) t.columns) t.rows s.rows_settled)
                    s.rows_stored e))))))

  -- A table with short UTF-8 texts, 64-bit values, distinct column names, rows that the insert
  -- checks leave as they are and distinct keys is read back from what `write_bin_table` writes,
  -- whatever bytes follow: the same name, rows and counter, the same columns but for each
  -- DEFAULT expression, which comes back as an identifier, and exact keys; the reader stops
  -- where the writer did.
  pub read_table-write_bin_table :
      (t : Table E) (rest : Text)
      → IsSaved t
      → (t' : Table E) × (read_table host binary_version (write_bin_table host t ++ rest)
          ≡ ok (t', rest))
        × IsLoaded t t'
  read_table-write_bin_table t rest s =
      let (m, n) = new-saved t.name t.columns s.has_columns s.names_distinct in
      let k = new-HasKeys t.name (map (saved_column host) t.columns) m in
      let keys : HasKeys host (base t m) = record {
        widths = tt;
        pk_set = k.pk_set;
        pk_row_index = k.pk_row_index;
        pk_distinct = tt;
        unique_set = k.unique_set;
        unique_distinct = tt;
      } in
      let (t', e, r) =
        insert_all-Reloaded host t.rows (base t m) keys s.rows_settled s.pk_distinct
          s.unique_distinct in
      (
        t',
        read_table-steps t rest m s n e,
        record {
          same_name = r.name_kept;
          same_columns = r.columns_kept;
          same_rows = r.rows_kept;
          same_counter = r.counter_kept;
          keys = r.keys;
        },
      )
