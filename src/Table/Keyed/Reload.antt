-- ===== src/Table/Keyed/Reload.antt =====
-- The insertion of the rows of a saved table, one after the other (engine/table/row_ops.rs).
use a3sql.Prelude.{
  ◌≡◌, refl, subst, sym, ◌∙◌, false, Option, none, some, List, [], ◌∷◌, ◌++◌, length, arith,
  append-nil, append_assoc, All, Result, ok, ◌>>=◌,
}
use a3sql.Prelude.Map.{Set}
use a3sql.Prelude.Text.{Text}
use a3sql.Prelude.Texts.{
  among, among-append, Distinct, Distinct-thin, Distinct-right, gather-append,
}
use a3sql.Error.{EngineError}
use a3sql.Host.{Host}
use a3sql.Value.{Column}
use a3sql.Table.Coerce.{prepare, check_pk_null}
use a3sql.Table.Defs.{Table, Row}
use a3sql.Table.Keys.{pk_key_static, unique_keys}
use a3sql.Table.Keyed.{key_list, pk_keys, uniques, HasKeys}
use a3sql.Table.Keyed.Insert.{IsFree, commit_row-HasKeys}
use a3sql.Table.Rows.{first_taken, taken, commit_row, accept, insert}

-- In a list of distinct texts, what comes first is not in the rest.
Distinct-split : (xs ys : List Text) (k : Text) → Distinct (xs ++ (k ∷ ys)) → among k xs ≡ false
Distinct-split [] ys k d = refl
Distinct-split (x ∷ xs) ys k d =
    ground (arith, Distinct-split xs ys k d.1, among-append x xs (k ∷ ys))

Distinct-skip : (xs ys : List Text) (k : Text) → Distinct (xs ++ (k ∷ ys)) → Distinct (xs ++ ys)
Distinct-skip xs ys k d =
    Distinct-thin xs (k ∷ ys) ys (λ j h. ground arith) (Distinct-right xs (k ∷ ys) d).1 d

first_taken-none :
    (s : Set) (xs ks ys : List Text)
    → ((k : Text) → s k ≡ among k xs)
    → Distinct (xs ++ (ks ++ ys))
    → first_taken s ks ≡ none
unfolding first_taken
first_taken-none s xs [] ys h d = refl
first_taken-none s xs (k ∷ ks) ys h d = ground (
  arith,
  h k,
  Distinct-split xs (ks ++ ys) k d,
  first_taken-none s xs ks ys h (Distinct-skip xs (ks ++ ys) k d),
)

module _ {E : Type 0} (host : Host E) where
  -- The checks of `insert` leave the row as it is.
  pub record IsSettled (columns : List (Column E)) (row : Row) : Type 0 where
    pub width : length row ≡ length columns
    pub prepared : prepare host columns row ≡ ok row
    pub not_null : check_pk_null host columns row ≡ ok tt

  accept-IsFree :
      (t : Table E) (row : Row)
      → IsSettled t.columns row
      → IsFree host t row
      → accept host row t ≡ ok row
  unfolding accept
  accept-IsFree t row s f =
      ground (arith, s.width, s.prepared, s.not_null, f.key_free, f.uniques_free)

  pub insert-IsFree :
      (t : Table E) (row : Row)
      → IsSettled t.columns row
      → IsFree host t row
      → insert host row t ≡ ok (commit_row host row t)
  unfolding insert
  insert-IsFree t row s f = rw (accept-IsFree t row s f) refl

  -- The rows inserted one after the other.
  abbrev pub insert_all : List Row → Table E → Result (Table E) EngineError
  insert_all [] t = ok t
  insert_all (row ∷ rows) t = insert host row t >>= insert_all rows

  key-free :
      (t : Table E) (row : Row) (rows : List Row)
      → HasKeys host t
      → Distinct (pk_keys host t.columns (t.rows ++ (row ∷ rows)))
      → taken t.pk_set (pk_key_static host t.columns row) ≡ none
  key-free t row rows h d = split (pk_key_static host t.columns row) (
      subst Distinct
        (gather-append (λ r. key_list (pk_key_static host t.columns r)) t.rows (row ∷ rows)) d)
    where
      split :
          (key : Option Text)
          → Distinct
              (pk_keys host t.columns t.rows ++ (key_list key ++ pk_keys host t.columns rows))
          → taken t.pk_set key ≡ none
      split none d = refl
      split (some k) d = ground (
        arith,
        h.pk_set k,
        Distinct-split (pk_keys host t.columns t.rows) (pk_keys host t.columns rows) k d,
      )

  next-IsFree :
      (t : Table E) (row : Row) (rows : List Row)
      → HasKeys host t
      → IsSettled t.columns row
      → Distinct (pk_keys host t.columns (t.rows ++ (row ∷ rows)))
      → Distinct (uniques host t.columns (t.rows ++ (row ∷ rows)))
      → IsFree host t row
  next-IsFree t row rows h s d u = record {
    width = s.width;
    key_free = key-free t row rows h d;
    uniques_free =
        first_taken-none t.unique_set (uniques host t.columns t.rows)
          (unique_keys host t.columns row) (uniques host t.columns rows) h.unique_set
          (subst Distinct (gather-append (unique_keys host t.columns) t.rows (row ∷ rows)) u);
  }

  -- What a reload leaves: the old rows and then the new ones, in the same table.
  pub record Reloaded (rows : List Row) (t t' : Table E) : Type 0 where
    pub rows_kept : t'.rows ≡ t.rows ++ rows
    pub columns_kept : t'.columns ≡ t.columns
    pub name_kept : t'.name ≡ t.name
    pub counter_kept : t'.next_auto_inc ≡ t.next_auto_inc
    pub keys : HasKeys host t'

  -- On a table with exact keys, rows that the checks leave as they are and whose keys are
  -- distinct from one another and from those of the table are all accepted by `insert`, one
  -- after the other, in their order and unchanged, and the keys stay exact.
  pub insert_all-Reloaded :
      (rows : List Row) (t : Table E)
      → HasKeys host t
      → All (IsSettled t.columns) rows
      → Distinct (pk_keys host t.columns (t.rows ++ rows))
      → Distinct (uniques host t.columns (t.rows ++ rows))
      → (t' : Table E) × (insert_all rows t ≡ ok t') × Reloaded rows t t'
  unfolding commit_row
  insert_all-Reloaded [] t h s d u = (
    t,
    refl,
    record {
      rows_kept = sym (append-nil t.rows);
      columns_kept = refl;
      name_kept = refl;
      counter_kept = refl;
      keys = h;
    },
  )
  insert_all-Reloaded (row ∷ rows) t h s d u =
      let f = next-IsFree t row rows h s.0 d u in
      let shift = append_assoc t.rows (row ∷ []) rows in
      let (t', e, r) =
        insert_all-Reloaded rows (commit_row host row t) (commit_row-HasKeys host t row h f) s.1
          (subst (λ rs. Distinct (pk_keys host t.columns rs)) (sym shift) d)
          (subst (λ rs. Distinct (uniques host t.columns rs)) (sym shift) u) in
      (
        t',
        rw (insert-IsFree t row s.0 f) e,
        record {
          rows_kept = r.rows_kept ∙ shift;
          columns_kept = r.columns_kept;
          name_kept = r.name_kept;
          counter_kept = r.counter_kept;
          keys = r.keys;
        },
      )
