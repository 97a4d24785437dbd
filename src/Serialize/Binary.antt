-- ===== src/Serialize/Binary.antt =====
-- engine/serialize/binary.rs: the export of a database to bytes and its import. The source reads at a
-- position in the whole input; a reader here takes the bytes from that position on and returns the
-- bytes from the next one on. That `Vec::with_capacity` aborts on a count too large for the memory is
-- not modelled.
pub mod Values
pub mod Columns
pub mod Import
pub mod Tables
pub mod Checked
pub mod Databases
use a3sql.Prelude.{
  ℕ, zero, suc, ◌+◌, ◌-◌, ◌%◌, ◌^◌, ◌≡◌, Bool, true, false, not, Option, none, some, List, [], ◌∷◌,
  ◌++◌, length, take, drop, Result, ok, err, ◌>>=◌, ◌>>◌, ite, if◌then◌else◌, ltb, leb, ◌==◌,
}
use a3sql.Prelude.Int.{ℤ, to_bits, of_bits}
use a3sql.Prelude.Text.{Text, Text-discrete}
use a3sql.Error.{Message, EngineError}
use a3sql.Host.{Host}
use a3sql.Value.{ColumnType, DbValue, Column}
use a3sql.Table.Defs.{Table, Row, new}
use a3sql.Table.Rows.{insert}
use a3sql.Database.{Database, table_names, get_table, create_table}
use a3sql.Serialize.Bytes.{le_bytes, read_le, split_at, is_utf8, pack_flags, has_flag, checksum}

-- What a `Truncated binary` message names.
pub data Part : Type 0 where
  table_count column_count column_def column_flags next_auto_inc row_count : Part
  string_length string_data value_tag bool_value int_value float_value strings_count floats_count :
      Part

pub data BinaryError : Type 0 where
  too_short bad_magic old_version bad_checksum bad_utf8 : BinaryError
  newer_version : ℕ → BinaryError
  truncated : Part → BinaryError
  unknown_column_tag unknown_value_tag : ℕ → BinaryError
  import_failed : EngineError → BinaryError
  refused : Message → BinaryError

abbrev pub magic : Text
magic = b'A' ∷ b'3' ∷ b'S' ∷ b'Q' ∷ []

abbrev pub binary_version : ℕ
binary_version = 0x03

abbrev pub checksum_len : ℕ
checksum_len = 8

-- `(n as u32).to_le_bytes()`
abbrev pub u32_bytes : ℕ → Text
u32_bytes n = le_bytes 4 (n % 2 ^ 32)

unfoldable pub write_bin_str : Text → Text
write_bin_str s = u32_bytes (length s) ++ s

unfoldable pub col_type_tag : ColumnType → ℕ
col_type_tag ColumnType.bool = 0
col_type_tag ColumnType.int = 1
col_type_tag ColumnType.float = 2
col_type_tag ColumnType.string = 3
col_type_tag ColumnType.strings = 4
col_type_tag ColumnType.floats = 5

unfoldable pub dtype_from_tag : ℕ → Result ColumnType BinaryError
dtype_from_tag tag =
    if tag == 0
    then ok ColumnType.bool
    else (if tag == 1
        then ok ColumnType.int
        else (if tag == 2
            then ok ColumnType.float
            else (if tag == 3
                then ok ColumnType.string
                else (if tag == 4
                    then ok ColumnType.strings
                    else (if tag == 5
                        then ok ColumnType.floats
                        else err (unknown_column_tag tag))))))

unfoldable pub write_strings : List Text → Text
write_strings [] = []
write_strings (s ∷ ss) = write_bin_str s ++ write_strings ss

unfoldable pub write_floats : List ℕ → Text
write_floats [] = []
write_floats (w ∷ ws) = le_bytes 8 w ++ write_floats ws

-- The tag of a value and its bytes.
unfoldable pub write_bin_value : DbValue → Text
unfolding write_strings write_floats
write_bin_value DbValue.null = 0 ∷ []
write_bin_value (DbValue.bool b) = 1 ∷ (if b then 1 else 0) ∷ []
write_bin_value (DbValue.int n) = 2 ∷ le_bytes 8 (to_bits n)
write_bin_value (DbValue.float w) = 3 ∷ le_bytes 8 w
write_bin_value (DbValue.string s) = 4 ∷ write_bin_str s
write_bin_value (DbValue.strings ss) = 5 ∷ (u32_bytes (length ss) ++ write_strings ss)
write_bin_value (DbValue.floats ws) = 6 ∷ (u32_bytes (length ws) ++ write_floats ws)

unfoldable pub write_row : Row → Text
write_row [] = []
write_row (v ∷ row) = write_bin_value v ++ write_row row

unfoldable pub write_rows : List Row → Text
unfolding write_row
write_rows [] = []
write_rows (row ∷ rows) = write_row row ++ write_rows rows

abbrev pub is_some {ℓ} : {A : Type ℓ} → Option A → Bool
is_some none = false
is_some (some a) = true

abbrev pub write_default : Option DbValue → Text
write_default none = []
write_default (some v) = write_bin_value v

module _ {E : Type 0} (host : Host E) where
  abbrev pub write_default_expr : Option E → Text
  write_default_expr none = []
  write_default_expr (some e) = write_bin_str (host.expr_text e)

  unfoldable pub write_column : Column E → Text
  write_column col =
      write_bin_str col.name
      ++ (col_type_tag col.dtype
          ∷ (if col.primary_key then 1 else 0)
          ∷ pack_flags col.auto_increment col.not_null col.unique (is_some col.default)
              (is_some col.default_expr)
          ∷ (write_default col.default ++ write_default_expr col.default_expr))

  unfoldable pub write_columns : List (Column E) → Text
  unfolding write_column
  write_columns [] = []
  write_columns (c ∷ cs) = write_column c ++ write_columns cs

  unfoldable pub write_bin_table : Table E → Text
  unfolding write_columns write_rows
  write_bin_table table =
      write_bin_str table.name
      ++ (u32_bytes (length table.columns)
          ++ (write_columns table.columns
              ++ (le_bytes 8 (to_bits table.next_auto_inc)
                  ++ (u32_bytes (length table.rows) ++ write_rows table.rows))))

  -- The loop of `export_binary` over the names.
  unfoldable pub write_tables : {S : Type 0} → List Text → Database E S → Text
  unfolding write_bin_table
  write_tables [] db = []
  write_tables (name ∷ names) db =
      let rest = write_tables names db in
      elim (get_table name db) [ ok t ↦ write_bin_table t ++ rest | err e ↦ rest ]

  unfoldable pub export_binary : {S : Type 0} → Database E S → Text
  unfolding write_tables
  export_binary db =
      let names = table_names db in
      let buf = magic ++ (binary_version ∷ (u32_bytes (length names) ++ write_tables names db)) in
      buf ++ le_bytes 8 (checksum buf)

-- A number of `width` bytes, or the message for the missing part.
abbrev pub read_number : ℕ → Part → Text → Result (ℕ × Text) BinaryError
read_number width part input = elim (read_le width input) [
  | none ↦ err (truncated part)
  | some r ↦ ok r
]

abbrev pub read_u32 : Part → Text → Result (ℕ × Text) BinaryError
read_u32 = read_number 4

-- The bytes of a string whose length is known.
unfoldable pub read_str_bytes : ℕ → Text → Result (Text × Text) BinaryError
read_str_bytes len input = elim (split_at len input) [
  | none ↦ err (truncated string_data)
  | some (s, rest) ↦ if is_utf8 s then ok (s, rest) else err bad_utf8
]

unfoldable pub read_bin_str : Text → Result (Text × Text) BinaryError
unfolding read_str_bytes
read_bin_str input = do (len, rest) ← read_u32 string_length input; read_str_bytes len rest

unfoldable pub read_strings : ℕ → Text → Result (List Text × Text) BinaryError
unfolding read_bin_str
read_strings zero input = ok ([], input)
read_strings (suc count) input = do
  (s, rest) ← read_bin_str input
  (ss, after) ← read_strings count rest
  ok (s ∷ ss, after)

unfoldable pub read_floats : ℕ → Text → Result (List ℕ × Text) BinaryError
read_floats zero input = ok ([], input)
read_floats (suc count) input = do
  (w, rest) ← read_number 8 float_value input
  (ws, after) ← read_floats count rest
  ok (w ∷ ws, after)

abbrev read_bool : Text → Result (DbValue × Text) BinaryError
read_bool [] = err (truncated bool_value)
read_bool (b ∷ rest) = ok (DbValue.bool (not (b == 0)), rest)

abbrev read_payload : ℕ → Text → Result (DbValue × Text) BinaryError
read_payload t input =
    if t == 0
    then ok (DbValue.null, input)
    else (if t == 1
        then read_bool input
        else (if t == 2
            then (do (n, rest) ← read_number 8 int_value input; ok (DbValue.int (of_bits n), rest))
            else (if t == 3
                then (do (w, rest) ← read_number 8 float_value input; ok (DbValue.float w, rest))
                else (if t == 4
                    then (do (s, rest) ← read_bin_str input; ok (DbValue.string s, rest))
                    else (if t == 5
                        then (do
                          (count, rest) ← read_u32 strings_count input
                          (ss, after) ← read_strings count rest
                          ok (DbValue.strings ss, after))
                        else (if t == 6
                            then (do
                              (count, rest) ← read_u32 floats_count input
                              (ws, after) ← read_floats count rest
                              ok (DbValue.floats ws, after))
                            else err (unknown_value_tag t)))))))

unfoldable pub read_bin_value : Text → Result (DbValue × Text) BinaryError
read_bin_value [] = err (truncated value_tag)
read_bin_value (t ∷ rest) = read_payload t rest

-- The values of one row of `n` columns.
unfoldable pub read_row : ℕ → Text → Result (Row × Text) BinaryError
unfolding read_bin_value
read_row zero input = ok ([], input)
read_row (suc n) input = do
  (v, rest) ← read_bin_value input
  (row, after) ← read_row n rest
  ok (v ∷ row, after)
