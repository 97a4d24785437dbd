-- ===== src/Functions/Operators.antt =====
-- functions/eval/ops.rs: the operators of SQL expressions on values. A float is its bits; its
-- arithmetic is the machine's.
pub mod Syntax
pub mod Bounds
use a3sql.Prelude.{
  ℕ, ◌+◌, ◌-◌, ◌%◌, ◌^◌, Bool, true, false, ◌&&◌, ◌||◌, not, Option, none, some, List, [], ◌∷◌,
  ◌++◌, map, ite, Result, err, ok, ltb, ◌==◌, if◌then◌else◌, Ordering,
}
use a3sql.Prelude.Int.{ℤ, pos, negsuc, ℤ-discrete}
use a3sql.Prelude.Text.{Text, Text-discrete, bytes, int_text}
use a3sql.Prelude.Order.{text_compare}
use a3sql.Prelude.Wrap.{wrapping_add, wrapping_sub, wrapping_mul, wrapping_neg, int_div}
use a3sql.Host.{Host}
use a3sql.Index.{join}
use a3sql.Value.{DbValue, is_null}
use a3sql.Value.Float.{is_zero, partial_cmp}
use a3sql.Functions.Operators.Syntax.{BinaryOperator, UnaryOperator, OpError}
use a3sql.Functions.Wildcard.{any_suffix, wildcard_match}

-- The machine's arithmetic on the bits of floats, and `s.chars()`.
pub record Machine : Type 0 where
  pub float_add : ℕ → ℕ → ℕ
  pub float_sub : ℕ → ℕ → ℕ
  pub float_mul : ℕ → ℕ → ℕ
  pub float_div : ℕ → ℕ → ℕ
  pub float_rem : ℕ → ℕ → ℕ
  pub chars : Text → List ℕ

-- `none` is a panic.
abbrev pub Evaluated : Type 0
Evaluated = Option (Result DbValue OpError)

abbrev pub value : DbValue → Evaluated
value v = some (ok v)

abbrev pub failure : OpError → Evaluated
failure e = some (err e)

-- `f64::EPSILON`, 2^-52
abbrev epsilon_bits : ℕ
epsilon_bits = 0x3cb0_0000_0000_0000

-- `-f`
unfoldable pub float_neg : ℕ → ℕ
float_neg w = if ltb w (2 ^ 63) then w + 2 ^ 63 else w - 2 ^ 63

abbrev is_less : Option Ordering → Bool
is_less (some Ordering.lt) = true
is_less _ = false

-- `x.partial_cmp(&y).unwrap_or(Ordering::Equal)`
abbrev pub or_equal : Option Ordering → Ordering
or_equal none = Ordering.eq
or_equal (some o) = o

abbrev pub is_lt : Ordering → Bool
is_lt Ordering.lt = true
is_lt _ = false

abbrev pub is_gt : Ordering → Bool
is_gt Ordering.gt = true
is_gt _ = false

abbrev pub is_le : Ordering → Bool
is_le o = not (is_gt o)

abbrev pub is_ge : Ordering → Bool
is_ge o = not (is_lt o)

unfoldable pub bool_text : Bool → Text
bool_text true = bytes "true"
bool_text false = bytes "false"

unfoldable pub starts_with : Text → Text → Bool
starts_with [] s = true
starts_with (p ∷ pat) [] = false
starts_with (p ∷ pat) (c ∷ s) = p == c && starts_with pat s

abbrev pub is_empty {ℓ} : {A : Type ℓ} → List A → Bool
is_empty [] = true
is_empty (_ ∷ _) = false

unfoldable pub is_truthy : DbValue → Bool
unfolding is_zero
is_truthy DbValue.null = false
is_truthy (DbValue.bool b) = b
is_truthy (DbValue.int n) = ite (ℤ-discrete n (pos 0)) false true
is_truthy (DbValue.float f) = not (is_zero f)
is_truthy (DbValue.string s) = not (is_empty s)
is_truthy (DbValue.strings arr) = not (is_empty arr)
is_truthy (DbValue.floats arr) = not (is_empty arr)

module _ {E : Type 0} (host : Host E) where
  -- `value_to_string` of functions/builtin.rs
  unfoldable pub value_to_string : DbValue → Text
  unfolding join bool_text
  value_to_string DbValue.null = bytes "NULL"
  value_to_string (DbValue.bool b) = bool_text b
  value_to_string (DbValue.int n) = int_text n
  value_to_string (DbValue.float f) = host.float_text f
  value_to_string (DbValue.string s) = s
  value_to_string (DbValue.strings arr) = join (bytes ",") arr
  value_to_string (DbValue.floats arr) = join (bytes ",") (map host.float_text arr)

  unfoldable pub to_float : DbValue → Option ℕ
  to_float (DbValue.int n) = some (host.float_of_int n)
  to_float (DbValue.float f) = some f
  to_float (DbValue.string s) = host.parse_float s
  to_float _ = none

  abbrev numeric_order : Option ℕ → Option ℕ → Ordering → Ordering
  numeric_order (some x) (some y) text = or_equal (partial_cmp x y)
  numeric_order _ _ text = text

  -- `db_value_cmp` of value.rs: as numbers where both are numbers, otherwise by their texts.
  unfoldable pub db_value_cmp : DbValue → DbValue → Ordering
  unfolding partial_cmp value_to_string to_float
  db_value_cmp a b =
      numeric_order (to_float a) (to_float b) (text_compare (value_to_string a) (value_to_string b))

  -- Its `match` is that of `db_value_cmp`.
  unfoldable pub cmp_values : (Ordering → Bool) → DbValue → DbValue → DbValue
  unfolding partial_cmp value_to_string to_float
  cmp_values cmp a b =
      if is_null a || is_null b
      then DbValue.bool false
      else DbValue.bool (
          cmp (
            numeric_order (to_float a) (to_float b)
              (text_compare (value_to_string a) (value_to_string b))))

  module _ (machine : Machine) where
    -- `(x - y).abs() < f64::EPSILON`
    unfoldable pub close : ℕ → ℕ → Bool
    unfolding partial_cmp
    close x y = is_less (partial_cmp (machine.float_sub x y % 2 ^ 63) epsilon_bits)

    abbrev same_bool : Bool → Bool → Bool
    same_bool true b = b
    same_bool false b = not b

    unfoldable pub values_equal : DbValue → DbValue → Bool
    unfolding close value_to_string Text-discrete
    values_equal DbValue.null b = false
    values_equal a DbValue.null = false
    values_equal (DbValue.int x) (DbValue.int y) = ite (ℤ-discrete x y) true false
    values_equal (DbValue.float x) (DbValue.float y) = close x y
    values_equal (DbValue.int x) (DbValue.float y) = close (host.float_of_int x) y
    values_equal (DbValue.float x) (DbValue.int y) = close x (host.float_of_int y)
    values_equal (DbValue.bool x) (DbValue.bool y) = same_bool x y
    values_equal (DbValue.string x) (DbValue.string y) = ite (Text-discrete x y) true false
    values_equal a b = ite (Text-discrete (value_to_string a) (value_to_string b)) true false

    -- The last `match` of `arith_op`, where not both values are integers.
    abbrev float_arith : (ℕ → ℕ → ℕ) → DbValue → DbValue → Option ℕ → Option ℕ → Evaluated
    float_arith float_op a b (some x) (some y) = value (DbValue.float (float_op x y))
    float_arith float_op a b _ _ = failure (OpError.numeric_type a b)

    abbrev int_value : Option ℤ → Evaluated
    int_value none = none
    int_value (some n) = value (DbValue.int n)

    -- `arith_op` with `is_div`; `int_op` panics with `none`.
    unfoldable pub arith_op :
        Bool → (ℤ → ℤ → Option ℤ) → (ℕ → ℕ → ℕ) → DbValue → DbValue → Evaluated
    unfolding to_float
    arith_op is_div int_op float_op DbValue.null b = value DbValue.null
    arith_op is_div int_op float_op a DbValue.null = value DbValue.null
    arith_op is_div int_op float_op (DbValue.int x) (DbValue.int y) =
        if is_div && ite (ℤ-discrete y (pos 0)) true false
        then failure OpError.division_by_zero
        else int_value (int_op x y)
    arith_op is_div int_op float_op a b = float_arith float_op a b (to_float a) (to_float b)

    abbrev remainder : DbValue → DbValue → Option ℕ → Option ℕ → Evaluated
    remainder left right (some a) (some b) =
        if is_zero b
        then failure (OpError.numeric_operands left right)
        else value (DbValue.float (machine.float_rem a b))
    remainder left right _ _ = failure (OpError.numeric_operands left right)

    unfoldable pub apply_binary_op : DbValue → BinaryOperator → DbValue → Evaluated
    unfolding values_equal cmp_values arith_op is_truthy value_to_string wildcard_match any_suffix
        starts_with wrapping_add wrapping_sub wrapping_mul int_div is_zero
    apply_binary_op left BinaryOperator.eq right = value (DbValue.bool (values_equal left right))
    apply_binary_op left BinaryOperator.not_eq right =
        value (DbValue.bool (not (values_equal left right)))
    apply_binary_op left BinaryOperator.lt right = value (cmp_values is_lt left right)
    apply_binary_op left BinaryOperator.lt_eq right = value (cmp_values is_le left right)
    apply_binary_op left BinaryOperator.gt right = value (cmp_values is_gt left right)
    apply_binary_op left BinaryOperator.gt_eq right = value (cmp_values is_ge left right)
    apply_binary_op left BinaryOperator.plus right =
        arith_op false (λ a b. some (wrapping_add a b)) machine.float_add left right
    apply_binary_op left BinaryOperator.minus right =
        arith_op false (λ a b. some (wrapping_sub a b)) machine.float_sub left right
    apply_binary_op left BinaryOperator.multiply right =
        arith_op false (λ a b. some (wrapping_mul a b)) machine.float_mul left right
    apply_binary_op left BinaryOperator.divide right =
        arith_op true int_div machine.float_div left right
    apply_binary_op left BinaryOperator.modulo right =
        remainder left right (to_float left) (to_float right)
    apply_binary_op left BinaryOperator.and right =
        value (DbValue.bool (is_truthy left && is_truthy right))
    apply_binary_op left BinaryOperator.or right =
        value (DbValue.bool (is_truthy left || is_truthy right))
    apply_binary_op left BinaryOperator.string_concat right =
        value (DbValue.string (value_to_string left ++ value_to_string right))
    apply_binary_op left BinaryOperator.regexp right = value (
        DbValue.bool (
          wildcard_match (machine.chars (value_to_string right))
            (machine.chars (value_to_string left))))
    apply_binary_op left BinaryOperator.match_operator right = value (
        DbValue.bool (
          any_suffix (starts_with (host.to_lowercase (value_to_string right)))
            (host.to_lowercase (value_to_string left))))
    apply_binary_op left (BinaryOperator.other op) right = failure (OpError.unsupported_operator op)

    -- `-n` wraps in a release build, which has no overflow checks.
    unfoldable pub apply_unary_op : UnaryOperator → DbValue → Evaluated
    unfolding is_truthy wrapping_neg float_neg
    apply_unary_op UnaryOperator.not v = value (DbValue.bool (not (is_truthy v)))
    apply_unary_op UnaryOperator.plus v = value v
    apply_unary_op UnaryOperator.minus (DbValue.int n) = value (DbValue.int (wrapping_neg n))
    apply_unary_op UnaryOperator.minus (DbValue.float f) = value (DbValue.float (float_neg f))
    apply_unary_op UnaryOperator.minus v = failure (OpError.numeric v)
    apply_unary_op (UnaryOperator.other op) v = failure (OpError.unsupported_unary_operator op)
