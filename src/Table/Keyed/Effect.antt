-- ===== src/Table/Keyed/Effect.antt =====
-- The row that `insert` stores, and the row that it refuses (engine/table/row_ops.rs).
use a3sql.Prelude.{
  ◌≡◌, refl, sym, ap, ◌∙◌, true, some, [], ◌∷◌, ◌++◌, length, arith, ok, err, >>=-eq-ok,
  ok-injective,
}
use a3sql.Prelude.Text.{Text}
use a3sql.Prelude.Texts.{among}
use a3sql.Error.{duplicate_key}
use a3sql.Host.{Host}
use a3sql.Table.Coerce.{prepare, check_pk_null}
use a3sql.Table.Coerce.Stored.{AllStored, KeysFilled, prepare-settled, check_pk_null-KeysFilled}
use a3sql.Table.Defs.{Table, Row}
use a3sql.Table.Keys.{pk_key_static}
use a3sql.Table.Keyed.{pk_keys, HasKeys}
use a3sql.Table.Keyed.Insert.{accept-Accepted, accept-IsFree}
use a3sql.Table.Rows.{commit_row, accept, insert}

module _ {E : Type 0} (host : Host E) where
  -- The stored row: it stands at the end, cell by cell what is to be stored, and the checks leave it as
  -- it is.
  pub record Stored (t : Table E) (row row' : Row) (t' : Table E) : Type 0 where
    pub appended : t'.rows ≡ t.rows ++ (row' ∷ [])
    pub width : length row' ≡ length t.columns
    pub cells : AllStored host t.columns row row'
    pub keys_filled : KeysFilled host t.columns row'
    pub stable : prepare host t.columns row' ≡ ok row'
    pub columns_same : t'.columns ≡ t.columns
    pub counter_same : t'.next_auto_inc ≡ t.next_auto_inc

  -- The row that `insert` stores for a row that it accepts stands at the end and is as long as
  -- the columns; each of its cells is the given value, or for a NULL the value of the DEFAULT
  -- expression, else the DEFAULT literal, else NULL, coerced to the column's type; each is a
  -- value of the column's own type or NULL, is not NULL in a NOT NULL or PRIMARY KEY column,
  -- and would be left as it is by the checks; the columns and the counter do not change.
  pub insert-Stored :
      (t : Table E) (row : Row) {t' : Table E}
      → insert host row t ≡ ok t'
      → (row' : Row) × Stored t row row' t'
  unfolding insert commit_row
  insert-Stored t row {t'} e =
      let (row', a, b) = >>=-eq-ok (accept host row t) (λ r. ok (commit_row host r t)) e in
      let c = accept-Accepted host t row row' a in
      let free = accept-IsFree host t row row' a in
      let (stable, cells) = prepare-settled host t.columns row c.prepared in
      let same = sym (ok-injective b) in
      (
        row',
        record {
          appended = ap (λ t. t.rows) same;
          width = free.width;
          cells = cells;
          keys_filled = check_pk_null-KeysFilled host t.columns row' c.not_null;
          stable = stable;
          columns_same = ap (λ t. t.columns) same;
          counter_same = ap (λ t. t.next_auto_inc) same;
        },
      )

  accept-taken :
      (t : Table E) (row row' : Row) (k : Text)
      → length row ≡ length t.columns
      → prepare host t.columns row ≡ ok row'
      → check_pk_null host t.columns row' ≡ ok tt
      → pk_key_static host t.columns row' ≡ some k
      → t.pk_set k ≡ true
      → accept host row t ≡ err (duplicate_key k)
  unfolding accept
  accept-taken t row row' k w p n key s = ground arith

  -- On a table with exact keys, a row of the right width whose checked cells have the PRIMARY
  -- KEY of a row of the table is refused with that key in the error.
  pub insert-duplicate_key :
      (t : Table E) (row row' : Row) (k : Text)
      → HasKeys host t
      → length row ≡ length t.columns
      → prepare host t.columns row ≡ ok row'
      → check_pk_null host t.columns row' ≡ ok tt
      → pk_key_static host t.columns row' ≡ some k
      → among k (pk_keys host t.columns t.rows) ≡ true
      → insert host row t ≡ err (duplicate_key k)
  unfolding insert
  insert-duplicate_key t row row' k h w p n key s =
      rw (accept-taken t row row' k w p n key (h.pk_set k ∙ s)) refl
