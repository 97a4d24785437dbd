-- ===== src/Serialize/Binary/Values.antt =====
-- Cells and rows, written and read (engine/serialize/binary.rs).
use a3sql.Prelude.{
  ℕ, ◌%◌, ◌^◌, ◌<◌, ◌≡◌, refl, true, false, List, [], ◌∷◌, ◌++◌, length, ok, arith, All,
  append_assoc,
}
use a3sql.Prelude.Int.{IsI64, to_bits, to_bits-lt, of_bits-to_bits}
use a3sql.Prelude.Text.{Text}
use a3sql.Value.{DbValue, IsBits}
use a3sql.Table.Defs.{Row}
use a3sql.Serialize.Bytes.{le_bytes, read_le-le_bytes, split_at-append, is_utf8}
use a3sql.Serialize.Binary.{
  u32_bytes, write_bin_str, write_strings, write_floats, write_bin_value, write_row, read_number,
  read_u32, read_bin_str, read_str_bytes, read_strings, read_floats, read_bin_value, read_row, Part,
  string_length, float_value, int_value, strings_count, floats_count,
}

-- A length that fits the 32 bits that are written of it.
abbrev pub IsShort {ℓ} : {A : Type ℓ} → List A → Type 0
IsShort xs = length xs < 2 ^ 32

-- What a Rust `String` of less than 4 GiB holds.
abbrev pub IsText : Text → Type 0
IsText s = IsShort s × (is_utf8 s ≡ true)

-- A value that the format can hold: the arrays and strings are short, and the strings UTF-8.
abbrev pub IsStored : DbValue → Type 0
IsStored (DbValue.int n) = IsI64 n
IsStored (DbValue.float w) = IsBits w
IsStored (DbValue.string s) = IsText s
IsStored (DbValue.strings ss) = IsShort ss × All IsText ss
IsStored (DbValue.floats ws) = IsShort ws × All IsBits ws
IsStored _ = Unit

pub read_number-le_bytes :
    (width n : ℕ) (part : Part) (rest : Text)
    → n < 256 ^ width
    → read_number width part (le_bytes width n ++ rest) ≡ ok (n, rest)
read_number-le_bytes width n part rest h = rw (read_number, read_le-le_bytes width n rest h) refl

pub read_u32-u32_bytes :
    (n : ℕ) (part : Part) (rest : Text)
    → n < 2 ^ 32
    → read_u32 part (u32_bytes n ++ rest) ≡ ok (n, rest)
read_u32-u32_bytes n part rest h =
    let small : n % 2 ^ 32 ≡ n = ground arith in
    rw small (read_number-le_bytes 4 n part rest (ground arith))

read_str_bytes-append :
    (s rest : Text) → is_utf8 s ≡ true → read_str_bytes (length s) (s ++ rest) ≡ ok (s, rest)
unfolding read_str_bytes
read_str_bytes-append s rest h = rw (read_str_bytes, split_at-append s rest, h) refl

pub read_bin_str-write_bin_str :
    (s rest : Text) → IsText s → read_bin_str (write_bin_str s ++ rest) ≡ ok (s, rest)
unfolding read_bin_str write_bin_str
read_bin_str-write_bin_str s rest h =
    rw (append_assoc, read_u32-u32_bytes (length s) string_length (s ++ rest) h.0)
      (read_str_bytes-append s rest h.1)

read_strings-write_strings :
    (ss : List Text) (rest : Text)
    → All IsText ss
    → read_strings (length ss) (write_strings ss ++ rest) ≡ ok (ss, rest)
unfolding read_strings write_strings
read_strings-write_strings [] rest h = refl
read_strings-write_strings (s ∷ ss) rest h =
    rw
      (
        append_assoc (write_bin_str s),
        read_bin_str-write_bin_str s (write_strings ss ++ rest) h.0,
        read_strings-write_strings ss rest h.1,
      )
      refl

read_floats-write_floats :
    (ws : List ℕ) (rest : Text)
    → All IsBits ws
    → read_floats (length ws) (write_floats ws ++ rest) ≡ ok (ws, rest)
unfolding read_floats write_floats
read_floats-write_floats [] rest h = refl
read_floats-write_floats (w ∷ ws) rest h =
    rw
      (
        append_assoc (le_bytes 8 w),
        read_number-le_bytes 8 w float_value (write_floats ws ++ rest) h.0,
        read_floats-write_floats ws rest h.1,
      )
      refl

-- A value with 64-bit numbers, arrays and strings shorter than 2^32 and UTF-8 strings is read
-- back from what is written of it, whatever bytes follow, and the reader stops where the writer
-- did.
pub read_bin_value-write_bin_value :
    (v : DbValue) (rest : Text)
    → IsStored v
    → read_bin_value (write_bin_value v ++ rest) ≡ ok (v, rest)
unfolding read_bin_value write_bin_value
read_bin_value-write_bin_value DbValue.null rest h = refl
read_bin_value-write_bin_value (DbValue.bool true) rest h = refl
read_bin_value-write_bin_value (DbValue.bool false) rest h = refl
read_bin_value-write_bin_value (DbValue.int n) rest h =
    rw (read_number-le_bytes 8 (to_bits n) int_value rest (to_bits-lt n h), of_bits-to_bits n h)
      refl
read_bin_value-write_bin_value (DbValue.float w) rest h =
    rw (read_number-le_bytes 8 w float_value rest h) refl
read_bin_value-write_bin_value (DbValue.string s) rest h =
    rw (read_bin_str-write_bin_str s rest h) refl
read_bin_value-write_bin_value (DbValue.strings ss) rest h =
    rw
      (
        append_assoc (u32_bytes (length ss)),
        read_u32-u32_bytes (length ss) strings_count (write_strings ss ++ rest) h.0,
        read_strings-write_strings ss rest h.1,
      )
      refl
read_bin_value-write_bin_value (DbValue.floats ws) rest h =
    rw
      (
        append_assoc (u32_bytes (length ws)),
        read_u32-u32_bytes (length ws) floats_count (write_floats ws ++ rest) h.0,
        read_floats-write_floats ws rest h.1,
      )
      refl

pub read_row-write_row :
    (row : Row) (rest : Text)
    → All IsStored row
    → read_row (length row) (write_row row ++ rest) ≡ ok (row, rest)
unfolding read_row write_row
read_row-write_row [] rest h = refl
read_row-write_row (v ∷ row) rest h =
    rw
      (
        append_assoc (write_bin_value v),
        read_bin_value-write_bin_value v (write_row row ++ rest) h.0,
        read_row-write_row row rest h.1,
      )
      refl
