-- ===== src/Value/Float.antt =====
-- The tests of an `f64` that the engine makes, on its bits (IEEE 754 binary64): the sign is bit 63,
-- the exponent the eleven bits below it, the fraction the other 52.
use a3sql.Prelude.{
  ℕ, ◌%◌, ◌*◌, ◌^◌, Bool, ◌&&◌, ◌||◌, not, ltb, ◌==◌, if◌then◌else◌, Option, none, some, compare,
  Ordering,
}

-- `f.is_nan()`: all exponent bits set and a fraction that is not 0.
unfoldable pub is_nan : ℕ → Bool
is_nan w = ltb (2047 * 2 ^ 52) (w % 2 ^ 63)

-- `f == 0.0`, which both zeros satisfy.
unfoldable pub is_zero : ℕ → Bool
is_zero w = w % 2 ^ 63 == 0

-- `f64::NAN.to_bits()`
abbrev pub nan_bits : ℕ
nan_bits = 0x7ff8_0000_0000_0000

-- `x == y` of two floats.
unfoldable pub float_eq : ℕ → ℕ → Bool
unfolding is_nan is_zero
float_eq x y = not (is_nan x) && not (is_nan y) && (x == y || is_zero x && is_zero y)

-- `canonical_float_bits` of value.rs, and the same text inside `encode_key` of index.rs.
unfoldable pub canonical_float_bits : ℕ → ℕ
unfolding is_nan is_zero
canonical_float_bits f = if is_nan f then nan_bits else if is_zero f then 0 else f

-- `x.partial_cmp(&y)`: a NaN is unordered, the zeros are equal, and otherwise the sign and then the
-- magnitude (the bits without the sign) decide.
unfoldable pub partial_cmp : ℕ → ℕ → Option Ordering
unfolding is_nan is_zero
partial_cmp x y =
    if is_nan x || is_nan y
    then none
    else if is_zero x && is_zero y
    then some Ordering.eq
    else if ltb x (2 ^ 63)
    then (if ltb y (2 ^ 63) then some (compare x y) else some Ordering.gt)
    else (if ltb y (2 ^ 63) then some Ordering.lt else some (compare y x))
