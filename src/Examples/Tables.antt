-- ===== src/Examples/Tables.antt =====
-- The theorems on tables at concrete tables and rows.
use a3sql.Prelude.{
  ◌≡◌, refl, Bool, true, false, Option, none, some, List, [], ◌∷◌, ◌++◌, Result, ok, err,
}
use a3sql.Prelude.Int.{pos}
use a3sql.Prelude.Map
use a3sql.Prelude.Text.{Text, bytes, Text-discrete}
use a3sql.Prelude.Texts.{among, Distinct}
use a3sql.Error.{duplicate_key}
use a3sql.Value.{DbValue}
use a3sql.Table.Coerce.{prepare, check_pk_null}
use a3sql.Table.Defs.{IndexImpl, Table, Row, new}
use a3sql.Index.{IndexType, btree_new, contains}
use a3sql.Table.Indexed.ByName.{HasColumnIndices, insert_or_panic-HasColumnIndices}
use a3sql.Table.Panics.{insert_or_panic}
use a3sql.Table.Panics.InStep.{InStep, new-InStep}
use a3sql.Table.Keyed.{HasKeys, pk_keys, uniques}
use a3sql.Table.Keyed.Insert.{insert-HasKeys}
use a3sql.Table.Keyed.Rebuild.{delete-HasKeys}
use a3sql.Table.Keyed.Effect.{Stored, insert-Stored, insert-duplicate_key}
use a3sql.Table.Keyed.Reload.{IsSettled}
use a3sql.Table.Coerce.Stored.{AllStored, prepare-settled}
use a3sql.Table.Keys.{pk_key_static, unique_keys, has_primary_key}
use a3sql.Table.Keys.Injective.{SameValue, encode_part-cancel}
use a3sql.Table.Keys.Row.{SameKey, pk_key_static-injective}
use a3sql.Table.Rows.{insert, commit_row, delete}
use a3sql.Serialize.Binary.Tables.{new-HasKeys}
use a3sql.Examples.{
  example_host, example_host-IsShortest, example_columns, example_table, row_one, row_two,
}

one_inserted :
    insert example_host row_one example_table ≡ ok (commit_row example_host row_one example_table)
unfolding insert a3sql.Table.Rows.accept prepare a3sql.Table.Coerce.prepare_cell check_pk_null
    pk_key_static a3sql.Table.Rows.first_taken unique_keys
one_inserted = refl

abbrev one_row : Table Text
one_row = commit_row example_host row_one example_table

insert-HasKeys_example : HasKeys example_host one_row
insert-HasKeys_example =
    insert-HasKeys example_host example_table row_one {t' = one_row}
      (new-HasKeys example_host (bytes "t") example_columns Map.empty) one_inserted

one_HasKeys : HasKeys example_host one_row
one_HasKeys =
    insert-HasKeys example_host example_table row_one {t' = one_row}
      (new-HasKeys example_host (bytes "t") example_columns Map.empty) one_inserted

abbrev is_row_one : Row → Bool
is_row_one [] = false
is_row_one (v ∷ row) = elim v [ DbValue.int n ↦ true | _ ↦ false ]

delete-HasKeys_example : HasKeys example_host (delete example_host is_row_one one_row).0
delete-HasKeys_example = delete-HasKeys example_host is_row_one one_row one_HasKeys

insert-Stored_example : (row' : Row) × Stored example_host example_table row_one row' one_row
insert-Stored_example = insert-Stored example_host example_table row_one {t' = one_row} one_inserted

abbrev row_again : Row
row_again = DbValue.int (pos 1) ∷ DbValue.string (bytes "z") ∷ []

again_prepared : prepare example_host example_columns row_again ≡ ok row_again
unfolding prepare a3sql.Table.Coerce.prepare_cell
again_prepared = refl

again_not_null : check_pk_null example_host example_columns row_again ≡ ok tt
unfolding check_pk_null
again_not_null = refl

again_key : pk_key_static example_host example_columns row_again ≡ some (bytes "i1:1")
unfolding pk_key_static a3sql.Table.Keys.encode_part a3sql.Table.Keys.sized
    a3sql.Prelude.Text.to_decimal a3sql.Prelude.Text.int_text
again_key = refl

again_taken : among (bytes "i1:1") (pk_keys example_host example_columns one_row.rows) ≡ true
unfolding commit_row pk_key_static Text-discrete a3sql.Table.Keys.encode_part a3sql.Table.Keys.sized
    a3sql.Prelude.Text.to_decimal a3sql.Prelude.Text.int_text
again_taken = refl

insert-duplicate_key_example :
    insert example_host row_again one_row ≡ err (duplicate_key (bytes "i1:1"))
unfolding commit_row
insert-duplicate_key_example =
    insert-duplicate_key example_host one_row row_again row_again (bytes "i1:1") one_HasKeys refl
      again_prepared again_not_null again_key again_taken

one_prepared : prepare example_host example_columns row_one ≡ ok row_one
unfolding prepare a3sql.Table.Coerce.prepare_cell
one_prepared = refl

one_not_null : check_pk_null example_host example_columns row_one ≡ ok tt
unfolding check_pk_null
one_not_null = refl

two_prepared : prepare example_host example_columns row_two ≡ ok row_two
unfolding prepare a3sql.Table.Coerce.prepare_cell
two_prepared = refl

two_not_null : check_pk_null example_host example_columns row_two ≡ ok tt
unfolding check_pk_null
two_not_null = refl

pub one_IsSettled : IsSettled example_host example_columns row_one
one_IsSettled = record { width = refl; prepared = one_prepared; not_null = one_not_null }

pub two_IsSettled : IsSettled example_host example_columns row_two
two_IsSettled = record { width = refl; prepared = two_prepared; not_null = two_not_null }

pub both_keys : Distinct (pk_keys example_host example_columns (row_one ∷ row_two ∷ []))
unfolding pk_key_static Text-discrete a3sql.Table.Keys.encode_part a3sql.Table.Keys.sized
    a3sql.Prelude.Text.to_decimal a3sql.Prelude.Text.int_text
both_keys = (refl, (refl, tt))

pub both_uniques : Distinct (uniques example_host example_columns (row_one ∷ row_two ∷ []))
unfolding unique_keys Text-discrete a3sql.Prelude.Text.to_decimal a3sql.Table.Keys.encode_part
    a3sql.Table.Keys.sized
both_uniques = (refl, (refl, tt))

prepare-settled_example :
    (prepare example_host example_columns row_one ≡ ok row_one)
    × AllStored example_host example_columns row_one row_one
prepare-settled_example =
    prepare-settled example_host example_columns row_one {row' = row_one} one_prepared

encode_part-cancel_example :
    SameValue (DbValue.int (pos 7)) (DbValue.int (pos 7)) × (bytes "x" ≡ bytes "x")
encode_part-cancel_example =
    encode_part-cancel example_host example_host-IsShortest (DbValue.int (pos 7))
      (DbValue.int (pos 7)) {r = bytes "x"} {s = bytes "x"} refl

has_key : has_primary_key example_columns ≡ true
unfolding has_primary_key
has_key = refl

same_key :
    pk_key_static example_host example_columns row_one
    ≡ pk_key_static example_host example_columns row_again
unfolding pk_key_static
same_key = refl

pk_key_static-injective_example :
    SameKey example_columns row_one (DbValue.int (pos 1) ∷ DbValue.string (bytes "z") ∷ [])
pk_key_static-injective_example =
    pk_key_static-injective example_host example_host-IsShortest example_columns row_one row_again
      has_key refl refl same_key

-- The table that `Table::new` makes, with a BTREE index on its second column.
abbrev new_table : Table Text
new_table = record example_table {
  col_index = Map.insert (bytes "code") 1 (Map.insert (bytes "id") 0 Map.empty);
}

abbrev indexed_table : Table Text
indexed_table = record new_table {
  indices =
      (
        record {
          name = bytes "i";
          table = bytes "t";
          column = bytes "code";
          index_type = IndexType.btree;
        },
        IndexImpl.btree (btree_new (bytes "code")),
      )
      ∷ [];
}

new_table-made : new (bytes "t") example_columns ≡ ok new_table
unfolding new Text-discrete
new_table-made = refl

indexed-InStep : InStep indexed_table
indexed-InStep = new-InStep (bytes "t") example_columns new_table new_table-made

indexed-HasColumnIndices : HasColumnIndices example_host indexed_table
unfolding btree_new contains a3sql.Index.get
indexed-HasColumnIndices = (λ ci at b i k. refl, tt)

abbrev indexed_row : Table Text
indexed_row = commit_row example_host row_one indexed_table

indexed_inserted : insert_or_panic example_host row_one indexed_table ≡ some (ok indexed_row)
unfolding insert_or_panic a3sql.Table.Rows.accept prepare a3sql.Table.Coerce.prepare_cell
    check_pk_null pk_key_static a3sql.Table.Rows.first_taken unique_keys Text-discrete
indexed_inserted = refl

insert_or_panic-HasColumnIndices_example :
    InStep indexed_row × HasColumnIndices example_host indexed_row
insert_or_panic-HasColumnIndices_example =
    insert_or_panic-HasColumnIndices example_host indexed_table row_one {t' = indexed_row}
      indexed-InStep indexed-HasColumnIndices indexed_inserted

-- The same table with a position that is beyond its rows, as DROP COLUMN leaves one.
abbrev stale_table : Table Text
stale_table = record indexed_table { col_index = Map.insert (bytes "code") 2 Map.empty }

stale_panics : insert_or_panic example_host row_one stale_table ≡ none
unfolding insert_or_panic a3sql.Table.Rows.accept prepare a3sql.Table.Coerce.prepare_cell
    check_pk_null pk_key_static a3sql.Table.Rows.first_taken unique_keys Text-discrete
stale_panics = refl
