-- ===== src/Functions/Cast.antt =====
-- functions/eval/cast.rs: CAST, and the `Display` of values (value.rs) that it uses.
pub mod Typed
use a3sql.Prelude.{
  ℕ, ◌≡◌, refl, subst, ◌⊎◌, Bool, true, false, ◌||◌, Option, none, some, [], ◌∷◌, ◌++◌, map, ite,
  Result, err, ok, if◌then◌else◌, inl, inr,
}
use a3sql.Prelude.Int.{ℤ, pos, ℤ-discrete}
use a3sql.Prelude.Text.{Text, Text-discrete, bytes, int_text}
use a3sql.Prelude.ParseInt.{parse_int}
use a3sql.Host.{Host}
use a3sql.Index.{join}
use a3sql.Value.{DbValue}
use a3sql.Functions.Operators.{bool_text, is_empty}

-- sqlparser's `DataType`: those that the code names, and any other.
pub data DataType : Type 0 where
  bool boolean : DataType
  int big_int small_int tiny_int : DataType
  float double real decimal numeric : DataType
  varchar char text string uuid : DataType
  other : DataType

-- The type errors, with the value that they print.
pub data CastError : Type 0 where
  expected_bool expected_int expected_float : DbValue → CastError

abbrev pub Cast : Type 0
Cast = Result DbValue CastError

-- The arms of the `match target`.
pub data Target : Type 0 where
  to_bool to_int to_float to_text : Target

unfoldable pub target_of : DataType → Target
target_of DataType.bool = Target.to_bool
target_of DataType.boolean = Target.to_bool
target_of DataType.int = Target.to_int
target_of DataType.big_int = Target.to_int
target_of DataType.small_int = Target.to_int
target_of DataType.tiny_int = Target.to_int
target_of DataType.float = Target.to_float
target_of DataType.double = Target.to_float
target_of DataType.real = Target.to_float
target_of DataType.decimal = Target.to_float
target_of DataType.numeric = Target.to_float
target_of _ = Target.to_text

-- `1.0`
abbrev one_bits : ℕ
one_bits = 0x3ff0_0000_0000_0000

abbrev is_text : Text → Text → Bool
is_text s t = ite (Text-discrete s t) true false

-- The `match lower.as_str()` of a string cast to BOOL.
unfoldable pub bool_of_text : Text → Option Bool
bool_of_text lower =
    if is_text lower (bytes "true") || (is_text lower (bytes "1") || is_text lower (bytes "yes"))
    then some true
    else if is_text lower (bytes "false")
        || (is_text lower (bytes "0") || is_text lower (bytes "no"))
    then some false
    else none

abbrev pub found_bool : DbValue → Option Bool → Cast
found_bool v none = err (CastError.expected_bool v)
found_bool v (some b) = ok (DbValue.bool b)

abbrev pub found_int : DbValue → Option ℤ → Cast
found_int v none = err (CastError.expected_int v)
found_int v (some n) = ok (DbValue.int n)

abbrev pub found_float : DbValue → Option ℕ → Cast
found_float v none = err (CastError.expected_float v)
found_float v (some w) = ok (DbValue.float w)

module _ {E : Type 0} (host : Host E) (trim : Text → Text) where
  -- `Display for DbValue`: a string stands in quotes.
  unfoldable pub display : DbValue → Text
  unfolding join bool_text
  display DbValue.null = bytes "NULL"
  display (DbValue.bool b) = bool_text b
  display (DbValue.int n) = int_text n
  display (DbValue.float f) = host.float_text f
  display (DbValue.string s) = b'\'' ∷ (s ++ (b'\'' ∷ []))
  display (DbValue.strings arr) = b'[' ∷ (join (bytes ",") arr ++ (b']' ∷ []))
  display (DbValue.floats arr) = b'[' ∷ (join (bytes ",") (map host.float_text arr) ++ (b']' ∷ []))

  unfoldable pub cast_bool : DbValue → Cast
  unfolding bool_of_text
  cast_bool (DbValue.bool b) = ok (DbValue.bool b)
  cast_bool (DbValue.int i) = ok (DbValue.bool (ite (ℤ-discrete i (pos 0)) false true))
  cast_bool (DbValue.float f) = ok (DbValue.bool true)
  cast_bool (DbValue.string s) = found_bool (DbValue.string s) (bool_of_text (host.to_lowercase s))
  cast_bool DbValue.null = ok DbValue.null
  cast_bool v = err (CastError.expected_bool v)

  unfoldable pub cast_int : DbValue → Cast
  unfolding parse_int
  cast_int (DbValue.int i) = ok (DbValue.int i)
  cast_int (DbValue.float f) = ok (DbValue.int (host.int_of_float f))
  cast_int (DbValue.string s) =
      found_int (DbValue.string s) (if is_empty (trim s) then some (pos 0) else parse_int (trim s))
  cast_int (DbValue.bool b) = ok (DbValue.int (if b then pos 1 else pos 0))
  cast_int DbValue.null = ok DbValue.null
  cast_int v = err (CastError.expected_int v)

  unfoldable pub cast_float : DbValue → Cast
  cast_float (DbValue.int i) = ok (DbValue.float (host.float_of_int i))
  cast_float (DbValue.float f) = ok (DbValue.float f)
  cast_float (DbValue.string s) =
      found_float (DbValue.string s)
        (if is_empty (trim s) then some 0 else host.parse_float (trim s))
  cast_float (DbValue.bool b) = ok (DbValue.float (if b then one_bits else 0))
  cast_float DbValue.null = ok DbValue.null
  cast_float v = err (CastError.expected_float v)

  unfoldable pub cast_to : Target → DbValue → Cast
  unfolding cast_bool cast_int cast_float display
  cast_to Target.to_bool v = cast_bool v
  cast_to Target.to_int v = cast_int v
  cast_to Target.to_float v = cast_float v
  cast_to Target.to_text v = ok (DbValue.string (display v))

  unfoldable pub cast_db_value : DbValue → DataType → Cast
  unfolding cast_to target_of
  cast_db_value val target = cast_to (target_of target) val
