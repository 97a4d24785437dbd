-- ===== src/Serialize/Binary/Import.antt =====
-- engine/serialize/binary.rs: `read_bin_table` and `import_binary`.
use a3sql.Prelude.{
  ℕ, zero, suc, ◌+◌, ◌-◌, Bool, true, false, not, Option, none, some, List, [], ◌∷◌, length, take,
  drop, Result, ok, err, ◌>>=◌, ite, if◌then◌else◌, ltb, ◌==◌,
}
use a3sql.Prelude.Int.{of_bits}
use a3sql.Prelude.Text.{Text, Text-discrete}
use a3sql.Host.{Host}
use a3sql.Value.{ColumnType, DbValue, Column}
use a3sql.Table.Defs.{Table, new}
use a3sql.Table.Rows.{insert}
use a3sql.Database.{Database, create_table}
use a3sql.Serialize.Bytes.{read_le, has_flag, checksum}
use a3sql.Serialize.Binary.{
  BinaryError, too_short, bad_magic, old_version, bad_checksum, newer_version, truncated,
  import_failed, refused, magic, binary_version, checksum_len, dtype_from_tag, read_number,
  read_u32, read_bin_str, read_bin_value, read_row,
}
use a3sql.Serialize.Binary.Part.{
  table_count, column_count, column_def, column_flags, next_auto_inc, row_count,
}

abbrev pub read_default : Bool → Text → Result (Option DbValue × Text) BinaryError
read_default false input = ok (none, input)
read_default true input = do (v, rest) ← read_bin_value input; ok (some v, rest)

-- A failure of another part as the import reports it.
abbrev pub lift_err {ℓ κ μ} :
    {A : Type ℓ} {B : Type κ} {C : Type μ} → (B → C) → Result A B → Result A C
lift_err f (ok a) = ok a
lift_err f (err e) = err (f e)

module _ {E : Type 0} (host : Host E) where
  abbrev pub read_default_expr : Bool → Text → Result (Option E × Text) BinaryError
  read_default_expr false input = ok (none, input)
  read_default_expr true input = do
    (s, rest) ← read_bin_str input
    ok (some (host.identifier s), rest)

  -- The flag byte and the defaults, which version 2 does not have.
  abbrev pub read_flags : ℕ → Text → ColumnType → Bool → Text → Result (Column E × Text) BinaryError
  read_flags version name dtype primary_key input =
      if ltb version 0x03
      then ok (
        record {
          name = name;
          dtype = dtype;
          primary_key = primary_key;
          not_null = false;
          default = none;
          default_expr = none;
          auto_increment = false;
          unique = false;
        },
        input,
      )
      else elim input [
        | [] ↦ err (truncated column_flags)
        | ◌∷◌ flags rest ↦ read_default (has_flag flags 8) rest >>= λ (default, rest').
            read_default_expr (has_flag flags 16) rest' >>= λ (default_expr, after). ok (
              record {
                name = name;
                dtype = dtype;
                primary_key = primary_key;
                not_null = has_flag flags 2;
                default = default;
                default_expr = default_expr;
                auto_increment = has_flag flags 1;
                unique = has_flag flags 4;
              },
              after,
            )
      ]

  abbrev pub read_def : ℕ → Text → Text → Result (Column E × Text) BinaryError
  read_def version name [] = err (truncated column_def)
  read_def version name (tag ∷ []) = err (truncated column_def)
  read_def version name (tag ∷ key ∷ input) = do
    dtype ← dtype_from_tag tag
    read_flags version name dtype (not (key == 0)) input

  unfoldable pub read_column : ℕ → Text → Result (Column E × Text) BinaryError
  read_column version input = do (name, rest) ← read_bin_str input; read_def version name rest

  unfoldable pub read_columns : ℕ → ℕ → Text → Result (List (Column E) × Text) BinaryError
  unfolding read_column
  read_columns version zero input = ok ([], input)
  read_columns version (suc count) input = do
    (c, rest) ← read_column version input
    (cs, after) ← read_columns version count rest
    ok (c ∷ cs, after)

  -- The counter, which version 2 does not have.
  abbrev pub read_counter : ℕ → Table E → Text → Result (Table E × Text) BinaryError
  read_counter version t input = if ltb version 0x03 then ok (t, input) else (do
    (w, rest) ← read_number 8 next_auto_inc input
    ok (record t { next_auto_inc = of_bits w }, rest))

  -- The loop over the rows: each is read and inserted.
  unfoldable pub read_rows : ℕ → Table E → Text → Result (Table E × Text) BinaryError
  unfolding read_row insert
  read_rows zero t input = ok (t, input)
  read_rows (suc count) t input = do
    (row, rest) ← read_row (length t.columns) input
    t' ← lift_err import_failed (insert host row t)
    read_rows count t' rest

  unfoldable pub read_table : ℕ → Text → Result (Table E × Text) BinaryError
  unfolding read_columns read_rows
  read_table version input = do
    (name, i1) ← read_bin_str input
    (col_count, i2) ← read_u32 column_count i1
    (columns, i3) ← read_columns version col_count i2
    fresh ← lift_err refused (new name columns)
    (t, i4) ← read_counter version fresh i3
    (count, i5) ← read_u32 row_count i4
    read_rows count t i5

  unfoldable pub read_bin_table :
      {S : Type 0} → ℕ → Database E S → Text → Result (Database E S × Text) BinaryError
  unfolding read_table
  read_bin_table version db input = do
    (t, rest) ← read_table version input
    db' ← lift_err refused (create_table t.name t db)
    ok (db', rest)

  -- The loop over the tables. A failure leaves the tables before it in the database.
  unfoldable pub read_tables :
      {S : Type 0} → ℕ → ℕ → Database E S → Text → Database E S × Result (Unit {0}) BinaryError
  unfolding read_bin_table
  read_tables version zero db input = (db, ok tt)
  read_tables version (suc count) db input = elim (read_bin_table version db input) [
    | err e ↦ (db, err e)
    | ok (db', rest) ↦ read_tables version count db' rest
  ]

  -- What follows the version byte, once the trailer is known to be right.
  abbrev pub import_payload :
      {S : Type 0} → Text → ℕ → Database E S → Database E S × Result (Unit {0}) BinaryError
  import_payload input version db =
      if ltb (length input - checksum_len) 9
      then (db, err (truncated table_count))
      else elim (read_u32 table_count (drop 5 input)) [
        | err e ↦ (db, err e)
        | ok (count, rest) ↦ read_tables version count db rest
      ]

  abbrev pub version_of : Text → ℕ
  version_of input = elim (drop 4 input) [ [] ↦ 0 | ◌∷◌ v rest ↦ v ]

  -- The eight bytes at the end as a number.
  abbrev pub trailer_of : Text → ℕ
  trailer_of input = elim (read_le 8 (drop (length input - checksum_len) input)) [
    | none ↦ 0
    | some (w, rest) ↦ w
  ]

  abbrev pub has_magic : Text → Bool
  has_magic input = ite (Text-discrete (take 4 input) magic) true false

  unfoldable pub import_binary :
      {S : Type 0} → Text → Database E S → Database E S × Result (Unit {0}) BinaryError
  unfolding read_tables
  import_binary input db =
      if ltb (length input) (5 + checksum_len)
      then (db, err too_short)
      else (if not (has_magic input)
          then (db, err bad_magic)
          else (if version_of input == 0x01
              then (db, err old_version)
              else (if ltb binary_version (version_of input)
                  then (db, err (newer_version (version_of input)))
                  else (if checksum (take (length input - checksum_len) input) == trailer_of input
                      then import_payload input (version_of input) db
                      else (db, err bad_checksum)))))
