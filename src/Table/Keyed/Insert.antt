-- ===== src/Table/Keyed/Insert.antt =====
-- The keys beside the rows under `insert` (engine/table/row_ops.rs).
use a3sql.Prelude.{
  ◌≡◌, refl, subst, ◌||◌, Option, none, some, List, [], ◌∷◌, ◌++◌, length, arith, append-nil, All,
  ok, ◌>>=◌, >>=-eq-ok, ok-injective,
}
use a3sql.Prelude.Map.{Set}
use a3sql.Prelude.Text.{Text}
use a3sql.Prelude.Texts.{
  among, among-append, Distinct, Apart, Distinct-append, add_all-among, gather-append,
}
use a3sql.Host.{Host}
use a3sql.Value.{Column}
use a3sql.Table.Coerce.{prepare, prepare_cell, check_pk_null}
use a3sql.Table.Defs.{Table, Row, add_key, insert_key}
use a3sql.Table.Keys.{pk_key_static, unique_keys}
use a3sql.Table.Keys.Row.{Distinct-unique_keys}
use a3sql.Table.Keyed.{key_list, pk_keys, uniques, row_of, row_of-none, row_of-append, HasKeys}
use a3sql.Table.Rows.{first_taken, taken, refuse, commit_row, accept, insert}

module _ {E : Type 0} (host : Host E) where
  -- What the checks of `insert` leave: the row's keys are free.
  pub record IsFree (t : Table E) (row : Row) : Type 0 where
    pub width : length row ≡ length t.columns
    pub key_free : taken t.pk_set (pk_key_static host t.columns row) ≡ none
    pub uniques_free : first_taken t.unique_set (unique_keys host t.columns row) ≡ none

  Apart-first_taken :
      (s : Set) (ks us : List Text)
      → ((k : Text) → s k ≡ among k us)
      → first_taken s ks ≡ none
      → Apart ks us
  unfolding first_taken
  Apart-first_taken s [] us h e = tt
  Apart-first_taken s (k ∷ ks) us h e =
      (ground (arith, h k), Apart-first_taken s ks us h (ground arith))

  All-snoc {ℓ} :
      (P : Row → Type ℓ) (rows : List Row) (row : Row)
      → All P rows
      → P row
      → All P (rows ++ (row ∷ []))
  All-snoc P [] row a p = (p, tt)
  All-snoc P (r ∷ rows) row a p = (a.0, All-snoc P rows row a.1 p)

  -- The keys after the row is put at the end.
  pk_keys-snoc :
      (columns : List (Column E)) (rows : List Row) (row : Row)
      → pk_keys host columns (rows ++ (row ∷ []))
        ≡ pk_keys host columns rows ++ key_list (pk_key_static host columns row)
  pk_keys-snoc columns rows row = rw (gather-append, append-nil)

  uniques-snoc :
      (columns : List (Column E)) (rows : List Row) (row : Row)
      → uniques host columns (rows ++ (row ∷ []))
        ≡ uniques host columns rows ++ unique_keys host columns row
  uniques-snoc columns rows row = rw (gather-append, append-nil)

  pk_row_index-snoc :
      (t : Table E) (row : Row) (k : Text)
      → HasKeys host t
      → taken t.pk_set (pk_key_static host t.columns row) ≡ none
      → insert_key (pk_key_static host t.columns row) (length t.rows) t.pk_row_index k
        ≡ row_of host t.columns k 0 (t.rows ++ (row ∷ []))
  pk_row_index-snoc t row k h free = ground (
    arith,
    h.pk_row_index k,
    h.pk_set k,
    row_of-append host t.columns k 0 t.rows row,
    row_of-none host t.columns k 0 t.rows,
  )

  key_list-Apart :
      (t : Table E) (key : Option Text)
      → HasKeys host t
      → taken t.pk_set key ≡ none
      → Apart (key_list key) (pk_keys host t.columns t.rows)
  key_list-Apart t none h free = tt
  key_list-Apart t (some k) h free = (ground (arith, h.pk_set k), tt)

  key_list-Distinct : (key : Option Text) → Distinct (key_list key)
  key_list-Distinct none = tt
  key_list-Distinct (some k) = (refl, tt)

  add_key-among :
      (key : Option Text) (s : Set) (k : Text) → add_key key s k ≡ (s k || among k (key_list key))
  add_key-among none s k = ground arith
  add_key-among (some j) s k = ground arith

  pub commit_row-HasKeys :
      (t : Table E) (row : Row)
      → HasKeys host t
      → IsFree t row
      → HasKeys host (commit_row host row t)
  unfolding commit_row
  commit_row-HasKeys t row h f = record {
    widths = All-snoc (λ r. length r ≡ length t.columns) t.rows row h.widths f.width;
    pk_set = λ k. rw pk_keys-snoc (
        ground (
          arith,
          h.pk_set k,
          add_key-among (pk_key_static host t.columns row) t.pk_set k,
          among-append k (pk_keys host t.columns t.rows)
              (key_list (pk_key_static host t.columns row)),
        ));
    pk_row_index = λ k. pk_row_index-snoc t row k h f.key_free;
    pk_distinct = rw pk_keys-snoc (
        Distinct-append (pk_keys host t.columns t.rows)
          (key_list (pk_key_static host t.columns row)) h.pk_distinct
          (key_list-Distinct (pk_key_static host t.columns row))
          (key_list-Apart t (pk_key_static host t.columns row) h f.key_free));
    unique_set = λ k. rw uniques-snoc (
        ground (
          arith,
          h.unique_set k,
          add_all-among (unique_keys host t.columns row) t.unique_set k,
          among-append k (uniques host t.columns t.rows) (unique_keys host t.columns row),
        ));
    unique_distinct = rw uniques-snoc (
        Distinct-append (uniques host t.columns t.rows) (unique_keys host t.columns row)
          h.unique_distinct (Distinct-unique_keys host t.columns row)
          (Apart-first_taken t.unique_set (unique_keys host t.columns row)
            (uniques host t.columns t.rows) h.unique_set f.uniques_free));
  }

  length-prepare :
      (columns : List (Column E)) (row : Row) {row' : Row}
      → length row ≡ length columns
      → prepare host columns row ≡ ok row'
      → length row' ≡ length columns
  unfolding prepare
  length-prepare [] [] n e = ground arith
  length-prepare [] (v ∷ vs) n e = absurd (omega arith)
  length-prepare (c ∷ cs) [] n e = absurd (omega arith)
  length-prepare (c ∷ cs) (v ∷ vs) n e =
      let (w, p, rest) =
        >>=-eq-ok (prepare_cell host c v) (λ v'. prepare host cs vs >>= λ vs'. ok (v' ∷ vs')) e in
      let (ws, q, r) = >>=-eq-ok (prepare host cs vs) (λ vs'. ok (w ∷ vs')) rest in
      ground (arith, length-prepare cs vs {row' = ws} (omega arith) q)

  -- What `insert` has checked of a row that it accepts.
  pub record Accepted (t : Table E) (row row' : Row) : Type 0 where
    pub width : length row ≡ length t.columns
    pub prepared : prepare host t.columns row ≡ ok row'
    pub not_null : check_pk_null host t.columns row' ≡ ok tt
    pub key_free : taken t.pk_set (pk_key_static host t.columns row') ≡ none
    pub uniques_free : first_taken t.unique_set (unique_keys host t.columns row') ≡ none

  refuse-ok : (o : Option Text) → refuse o ≡ ok tt → o ≡ none
  refuse-ok none e = refl
  refuse-ok (some k) e = cc

  pub accept-Accepted :
      (t : Table E) (row row' : Row) → accept host row t ≡ ok row' → Accepted t row row'
  unfolding accept
  accept-Accepted t row row' e = ground arith

  pub accept-IsFree : (t : Table E) (row row' : Row) → accept host row t ≡ ok row' → IsFree t row'
  accept-IsFree t row row' e =
      let a = accept-Accepted t row row' e in
      record {
        width = length-prepare t.columns row a.width a.prepared;
        key_free = a.key_free;
        uniques_free = a.uniques_free;
      }

  -- If a table's keys are exact (the PRIMARY KEY set, the key-to-row map and the UNIQUE set
  -- hold exactly the keys of its rows, each key once, and every row is as long as the columns)
  -- and `insert` accepts a row, the keys of the new table are exact.
  pub insert-HasKeys :
      (t : Table E) (row : Row) {t' : Table E}
      → HasKeys host t
      → insert host row t ≡ ok t'
      → HasKeys host t'
  unfolding insert
  insert-HasKeys t row h e =
      let (row', a, b) = >>=-eq-ok (accept host row t) (λ r. ok (commit_row host r t)) e in
      subst (HasKeys host) (ok-injective b)
        (commit_row-HasKeys t row' h (accept-IsFree t row row' a))
