-- ===== src/Functions/Operators/Bounds.antt =====
-- The values that the operators give, against what the machine can hold, and their panics.
use a3sql.Prelude.{
  ℕ, ◌-◌, ◌^◌, ◌≡◌, refl, ap, ◌⊎◌, inl, inr, Bool, true, false, ◌&&◌, ◌||◌, Ordering, Option, none,
  some, arith, ite, err, ok, Bool-cases, Option-cases,
}
use a3sql.Prelude.Int.{ℤ, pos, negsuc, IsI64, ℤ-discrete}
use a3sql.Prelude.Wrap.{
  wrapping_add, wrapping_sub, wrapping_mul, int_div, wrapping_add-IsI64, wrapping_sub-IsI64,
  wrapping_mul-IsI64, wrapping_neg-IsI64, int_div-IsI64, int_div-none,
}
use a3sql.Host.{Host}
use a3sql.Value.{DbValue, IsBits, IsMachine, is_null}
use a3sql.Value.Float.{is_zero}
use a3sql.Functions.Operators.{
  Machine, Evaluated, apply_binary_op, apply_unary_op, arith_op, float_arith, int_value, remainder,
  to_float, float_neg, cmp_values, is_lt, is_le, is_gt, is_ge,
}
use a3sql.Functions.Operators.Syntax.{BinaryOperator, UnaryOperator}

-- The results of the machine's float arithmetic are floats.
abbrev IsClosed : (ℕ → ℕ → ℕ) → Type 0
IsClosed op = (x y : ℕ) → IsBits (op x y)

abbrev pub IsFloatUnit : Machine → Type 0
IsFloatUnit machine =
    IsClosed machine.float_add
    × IsClosed machine.float_sub
    × IsClosed machine.float_mul
    × IsClosed machine.float_div
    × IsClosed machine.float_rem

-- A value that the machine can hold, or an error, or a panic of which `P` holds.
abbrev pub IsSound : Type 0 → Evaluated → Type 0
IsSound P none = P
IsSound P (some (err e)) = Unit
IsSound P (some (ok v)) = IsMachine v

module _ {E : Type 0} (host : Host E) (machine : Machine) where
  float_arith-IsSound :
      (P : Type 0) (float_op : ℕ → ℕ → ℕ) (a b : DbValue) (x y : Option ℕ)
      → IsClosed float_op
      → IsSound P (float_arith host machine float_op a b x y)
  float_arith-IsSound P float_op a b (some x) (some y) closed = closed x y
  float_arith-IsSound P float_op a b none y closed = tt
  float_arith-IsSound P float_op a b (some x) none closed = tt

  -- What the integer operation of `arith_op` has to do.
  abbrev IsGoodInt : (P : DbValue → DbValue → Type 0) → Bool → (ℤ → ℤ → Option ℤ) → Type 0
  IsGoodInt P is_div int_op =
      (x y : ℤ)
      → IsI64 x
      → IsI64 y
      → (is_div && ite (ℤ-discrete y (pos 0)) true false) ≡ false
      → IsSound (P (DbValue.int x) (DbValue.int y)) (int_value host machine (int_op x y))

  arith_op-IsSound :
      (P : DbValue → DbValue → Type 0) (is_div : Bool) (int_op : ℤ → ℤ → Option ℤ)
      (float_op : ℕ → ℕ → ℕ) (a b : DbValue)
      → IsGoodInt P is_div int_op
      → IsClosed float_op
      → IsMachine a
      → IsMachine b
      → IsSound (P a b) (arith_op host machine is_div int_op float_op a b)
  unfolding arith_op
  arith_op-IsSound P is_div int_op float_op DbValue.null b good closed ma mb = tt
  arith_op-IsSound P is_div int_op float_op (DbValue.int x) (DbValue.int y) good closed ma mb =
      elim (Bool-cases (is_div && ite (ℤ-discrete y (pos 0)) true false)) [
        | inl guard ↦ rw (IsSound, guard) tt
        | inr go ↦ rw (IsSound, go) (good x y ma mb go)
      ]
  arith_op-IsSound P is_div int_op float_op a DbValue.null good closed ma mb = tt
  arith_op-IsSound P is_div int_op float_op a b good closed ma mb =
      float_arith-IsSound (P a b) float_op a b (to_float host a) (to_float host b) closed

  -- `i64::MIN / -1`
  abbrev pub IsOverflow : BinaryOperator → DbValue → DbValue → Type 0
  IsOverflow op a b =
      (op ≡ BinaryOperator.divide)
      × (a ≡ DbValue.int (negsuc (2 ^ 63 - 1)))
      × (b ≡ DbValue.int (negsuc 0))

  divide-IsGoodInt : IsGoodInt (IsOverflow BinaryOperator.divide) true int_div
  divide-IsGoodInt x y hx hy guard = elim (Option-cases (int_div x y)) [
    | inr (q, e) ↦ rw (IsSound, e) (int_div-IsI64 x y q hx e)
    | inl e ↦ rw (IsSound, e) (explain (int_div-none x y hx e))
  ]
    where
      explain :
          (y ≡ pos 0) ⊎ ((x ≡ negsuc (2 ^ 63 - 1)) × (y ≡ negsuc 0))
          → IsOverflow BinaryOperator.divide (DbValue.int x) (DbValue.int y)
      explain (inl zero) = absurd (ground arith)
      explain (inr (least, minus_one)) = (refl, ap DbValue.int least, ap DbValue.int minus_one)

  remainder-IsSound :
      (P : Type 0) (a b : DbValue) (x y : Option ℕ)
      → IsClosed machine.float_rem
      → IsSound P (remainder host machine a b x y)
  remainder-IsSound P a b (some x) (some y) closed = elim (Bool-cases (is_zero y)) [
    | inl zero ↦ rw (IsSound, zero) tt
    | inr nonzero ↦ rw (IsSound, nonzero) (closed x y)
  ]
  remainder-IsSound P a b none y closed = tt
  remainder-IsSound P a b (some x) none closed = tt

  cmp_values-IsMachine :
      (cmp : Ordering → Bool) (a b : DbValue) → IsMachine (cmp_values host cmp a b)
  unfolding cmp_values
  cmp_values-IsMachine cmp a b = elim (Bool-cases (is_null a || is_null b)) [
    | inl null ↦ rw (IsMachine, null) tt
    | inr values ↦ rw (IsMachine, values) tt
  ]

  -- If the float arithmetic gives floats, every SQL operator on two values of the machine's
  -- types gives such a value or an error, and panics only on the least 64-bit integer divided
  -- by -1.
  pub apply_binary_op-IsSound :
      (op : BinaryOperator) (a b : DbValue)
      → IsFloatUnit machine
      → IsMachine a
      → IsMachine b
      → IsSound (IsOverflow op a b) (apply_binary_op host machine a op b)
  unfolding apply_binary_op
  apply_binary_op-IsSound BinaryOperator.plus a b (add, sub, mul, div, rem) =
      arith_op-IsSound (IsOverflow BinaryOperator.plus) false (λ x y. some (wrapping_add x y))
        machine.float_add a b (λ x y _ _ _. wrapping_add-IsI64 x y) add
  apply_binary_op-IsSound BinaryOperator.minus a b (add, sub, mul, div, rem) =
      arith_op-IsSound (IsOverflow BinaryOperator.minus) false (λ x y. some (wrapping_sub x y))
        machine.float_sub a b (λ x y _ _ _. wrapping_sub-IsI64 x y) sub
  apply_binary_op-IsSound BinaryOperator.multiply a b (add, sub, mul, div, rem) =
      arith_op-IsSound (IsOverflow BinaryOperator.multiply) false (λ x y. some (wrapping_mul x y))
        machine.float_mul a b (λ x y _ _ _. wrapping_mul-IsI64 x y) mul
  apply_binary_op-IsSound BinaryOperator.divide a b (add, sub, mul, div, rem) =
      arith_op-IsSound (IsOverflow BinaryOperator.divide) true int_div machine.float_div a b
        divide-IsGoodInt div
  apply_binary_op-IsSound BinaryOperator.modulo a b (add, sub, mul, div, rem) = λ _ _.
      remainder-IsSound (IsOverflow BinaryOperator.modulo a b) a b (to_float host a)
        (to_float host b) rem
  apply_binary_op-IsSound BinaryOperator.lt a b unit = λ _ _. cmp_values-IsMachine is_lt a b
  apply_binary_op-IsSound BinaryOperator.lt_eq a b unit = λ _ _. cmp_values-IsMachine is_le a b
  apply_binary_op-IsSound BinaryOperator.gt a b unit = λ _ _. cmp_values-IsMachine is_gt a b
  apply_binary_op-IsSound BinaryOperator.gt_eq a b unit = λ _ _. cmp_values-IsMachine is_ge a b
  apply_binary_op-IsSound BinaryOperator.eq a b unit = λ _ _. tt
  apply_binary_op-IsSound BinaryOperator.not_eq a b unit = λ _ _. tt
  apply_binary_op-IsSound BinaryOperator.and a b unit = λ _ _. tt
  apply_binary_op-IsSound BinaryOperator.or a b unit = λ _ _. tt
  apply_binary_op-IsSound BinaryOperator.string_concat a b unit = λ _ _. tt
  apply_binary_op-IsSound BinaryOperator.regexp a b unit = λ _ _. tt
  apply_binary_op-IsSound BinaryOperator.match_operator a b unit = λ _ _. tt
  apply_binary_op-IsSound (BinaryOperator.other op) a b unit = λ _ _. tt

  -- A unary operator never panics, and keeps to the machine's values.
  apply_unary_op-IsSound :
      (op : UnaryOperator) (a : DbValue)
      → IsMachine a
      → IsSound ⊥ (apply_unary_op host machine op a)
  unfolding apply_unary_op float_neg
  apply_unary_op-IsSound UnaryOperator.not a m = tt
  apply_unary_op-IsSound UnaryOperator.plus a m = m
  apply_unary_op-IsSound UnaryOperator.minus (DbValue.int n) m = wrapping_neg-IsI64 n m
  apply_unary_op-IsSound UnaryOperator.minus (DbValue.float f) m = ground arith
  apply_unary_op-IsSound UnaryOperator.minus _ m = tt
  apply_unary_op-IsSound (UnaryOperator.other op) a m = tt
