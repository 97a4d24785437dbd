-- ===== src/Examples/Saves.antt =====
-- The theorems on the binary format at concrete values, columns and tables.
use a3sql.Prelude.{◌≡◌, ◌⊎◌, refl, arith, true, [], ◌∷◌, ◌++◌, ok}
use a3sql.Prelude.Text.{Text, bytes, Text-discrete}
use a3sql.Prelude.Texts.{Distinct}
use a3sql.Value.{DbValue}
use a3sql.Table.Defs.{Table}
use a3sql.Database.{Database, new}
use a3sql.Serialize.Bytes.{is_utf8}
use a3sql.Serialize.Binary.{write_bin_value, read_bin_value, write_bin_table, binary_version}
use a3sql.Serialize.Binary.Values.{IsText, read_bin_value-write_bin_value}
use a3sql.Serialize.Binary.Import.{read_table}
use a3sql.Serialize.Binary.Columns.{IsStoredColumn}
use a3sql.Serialize.Binary.Tables.{names_of, IsSaved, IsLoaded, read_table-write_bin_table}
use a3sql.Serialize.Binary.Checked.{IsWhole, IsRefused, import_binary-IsWhole}
use a3sql.Prelude.{◌<◌, ◌^◌, subst, length, false}
use a3sql.Prelude.Texts.{among}
use a3sql.Database.{table_names, has_table, sort_names, sort_in}
use a3sql.Serialize.Binary.{export_binary}
use a3sql.Serialize.Binary.Import.{import_binary}
use a3sql.Serialize.Binary.Databases.{CanSave, HasLoaded}
use a3sql.Serialize.Binary.Databases.Whole.{import_binary-export_binary}
use a3sql.Examples.{
  example_host, example_columns, example_table, id_column, code_column, row_one, row_two,
}
use a3sql.Examples.Tables.{one_IsSettled, two_IsSettled, both_keys, both_uniques}

word_utf8 : is_utf8 (bytes "word") ≡ true
unfolding is_utf8
word_utf8 = refl

read_bin_value-write_bin_value_example :
    read_bin_value (write_bin_value (DbValue.strings (bytes "word" ∷ [])) ++ (7 ∷ []))
    ≡ ok (DbValue.strings (bytes "word" ∷ []), 7 ∷ [])
read_bin_value-write_bin_value_example =
    read_bin_value-write_bin_value (DbValue.strings (bytes "word" ∷ [])) (7 ∷ [])
      (omega arith, ((omega arith, word_utf8), tt))

t_IsText : IsText (bytes "t")
unfolding is_utf8
t_IsText = (omega arith, refl)

id_IsText : IsText (bytes "id")
unfolding is_utf8
id_IsText = (omega arith, refl)

code_IsText : IsText (bytes "code")
unfolding is_utf8
code_IsText = (omega arith, refl)

id_stored : IsStoredColumn example_host id_column
id_stored = record { name_text = id_IsText; default_stored = tt; expr_stored = tt }

code_stored : IsStoredColumn example_host code_column
code_stored = record { name_text = code_IsText; default_stored = tt; expr_stored = tt }

abbrev two_rows : Table Text
two_rows = record example_table { rows = row_one ∷ row_two ∷ [] }

a_IsText : IsText (bytes "a")
unfolding is_utf8
a_IsText = (omega arith, refl)

b_IsText : IsText (bytes "b")
unfolding is_utf8
b_IsText = (omega arith, refl)

names_differ : Distinct (names_of example_columns)
unfolding Text-discrete
names_differ = (refl, (refl, tt))

two_rows-IsSaved : IsSaved example_host two_rows
two_rows-IsSaved = record {
  name_text = t_IsText;
  has_columns = (id_column, code_column ∷ [], refl);
  names_distinct = names_differ;
  columns_stored = (id_stored, (code_stored, tt));
  columns_short = omega arith;
  counter_machine = omega arith;
  rows_short = omega arith;
  rows_stored = ((omega arith, (a_IsText, tt)), ((omega arith, (b_IsText, tt)), tt));
  rows_settled = (one_IsSettled, (two_IsSettled, tt));
  pk_distinct = both_keys;
  unique_distinct = both_uniques;
}

read_table-write_bin_table_example :
    (t' : Table Text) × (read_table example_host binary_version
        (write_bin_table example_host two_rows ++ (7 ∷ []))
      ≡ ok (t', 7 ∷ []))
    × IsLoaded example_host two_rows t'
read_table-write_bin_table_example =
    read_table-write_bin_table example_host two_rows (7 ∷ []) two_rows-IsSaved

abbrev empty_database : Database Text Text
empty_database = new

import_binary-IsWhole_example :
    IsWhole example_host (bytes "A3SQ") ⊎ IsRefused example_host (bytes "A3SQ") empty_database
import_binary-IsWhole_example = import_binary-IsWhole example_host (bytes "A3SQ") empty_database

abbrev saved_database : Database Text Text
saved_database = record empty_database { tables = (bytes "t", two_rows) ∷ [] }

one_name_listed : length (table_names saved_database) < 2 ^ 32
unfolding table_names sort_names sort_in
one_name_listed = omega arith

t_CanSave : CanSave example_host saved_database (bytes "t")
unfolding Text-discrete
t_CanSave = record { table = two_rows; found = refl; own_name = refl; saved = two_rows-IsSaved }

listed_CanSave :
    (name : Text)
    → among name (table_names saved_database) ≡ true
    → CanSave example_host saved_database name
unfolding table_names sort_names sort_in
listed_CanSave name h = elim (Text-discrete (bytes "t") name) [
  | yes same ↦ subst (CanSave example_host saved_database) same t_CanSave
  | no differs ↦ absurd (ground arith)
]

import_binary-export_binary_example :
    (db' : Database Text Text) × (import_binary example_host
        (export_binary example_host saved_database)
        empty_database
      ≡ (db', ok tt))
    × ((name : Text)
        → has_table name saved_database ≡ true
        → HasLoaded example_host saved_database db' name)
    × ((name : Text) → has_table name saved_database ≡ false → has_table name db' ≡ false)
import_binary-export_binary_example =
    import_binary-export_binary example_host saved_database (refl, tt) one_name_listed
      listed_CanSave
