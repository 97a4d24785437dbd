-- ===== src/Prelude/ParseInt.antt =====
-- Rust's `s.parse::<i64>()`: an optional sign, at least one digit, and a value in range.
use a3sql.Prelude.{
  ℕ, zero, suc, ◌+◌, ◌-◌, ◌*◌, ◌/◌, ◌%◌, ◌^◌, ◌≤◌, ◌<◌, ◌≡◌, sym, ap, ◌∙◌, Option, none, some, [],
  ◌∷◌, ◌++◌, append-nil, append_assoc, arith, ltb, ◌==◌, if◌then◌else◌, Bool-cases, inl, inr,
}
use a3sql.Prelude.Int.{ℤ, pos, negsuc, IsI64}
use a3sql.Prelude.Text.{Text, is_digit, digits, to_decimal, int_text, digits_start}

unfoldable pub parse_digits : ℕ → Text → Option ℕ
parse_digits acc [] = some acc
parse_digits acc (c ∷ s) =
    let rest = parse_digits (acc * 10 + (c - b'0')) s in if is_digit c then rest else none

unfoldable pub parse_nat : Text → Option ℕ
unfolding parse_digits
parse_nat [] = none
parse_nat (c ∷ s) = parse_digits 0 (c ∷ s)

abbrev positive : Option ℕ → Option ℤ
positive none = none
positive (some n) = if ltb n (2 ^ 63) then some (pos n) else none

abbrev negative : Option ℕ → Option ℤ
negative none = none
negative (some zero) = some (pos 0)
negative (some (suc n)) = if ltb n (2 ^ 63) then some (negsuc n) else none

unfoldable pub parse_int : Text → Option ℤ
unfolding parse_nat
parse_int [] = none
parse_int (c ∷ s) =
    if c == b'-'
    then negative (parse_nat s)
    else if c == b'+'
    then positive (parse_nat s)
    else positive (parse_nat (c ∷ s))

-- What the digits of `n` multiply an accumulator by.
scale : ℕ → ℕ → ℕ
scale zero n = 1
scale (suc fuel) n = let front = scale fuel (n / 10) in if ltb n 10 then 10 else 10 * front

parse_digits-digits :
    (fuel n acc : ℕ) (rest : Text)
    → n < fuel
    → parse_digits acc (digits fuel n ++ rest) ≡ parse_digits (acc * scale fuel n + n) rest
unfolding digits scale parse_digits
parse_digits-digits zero n acc rest h = absurd (omega arith)
parse_digits-digits (suc fuel) n acc rest h = elim (Bool-cases (ltb n 10)) [
  | inl small ↦ ground arith
  | inr large ↦
      rw (large, append_assoc)
        (ground
          (arith, parse_digits-digits fuel (n / 10) acc ((b'0' + n % 10) ∷ rest) (ground arith)))
]

parse_digits-to_decimal : (n : ℕ) → parse_digits 0 (to_decimal n) ≡ some n
unfolding to_decimal
parse_digits-to_decimal n =
    ap (parse_digits 0) (append-nil-sym (digits (suc n) n))
    ∙ parse_digits-digits (suc n) n 0 [] (omega arith)
    ∙ unfold parse_digits in ap some (omega arith)
  where
    append-nil-sym : (s : Text) → s ≡ s ++ []
    append-nil-sym s = rw append-nil

pub parse_nat-to_decimal : (n : ℕ) → parse_nat (to_decimal n) ≡ some n
unfolding parse_nat to_decimal
parse_nat-to_decimal n =
    let (c, s, e, low, high) = digits_start (suc n) n (omega arith) in
    let parsed : parse_digits 0 (to_decimal n) ≡ some n = parse_digits-to_decimal n in
    rw e (rw e at parsed)

parse_int-unsigned :
    (c : ℕ) (s : Text) → b'0' ≤ c → parse_int (c ∷ s) ≡ positive (parse_nat (c ∷ s))
unfolding parse_int
parse_int-unsigned c s h = ground arith

positive-some : (n : ℕ) → n < 2 ^ 63 → positive (some n) ≡ some (pos n)
positive-some n h = ground arith

-- The text of every 64-bit integer parses back to it.
pub parse_int-int_text : (z : ℤ) → IsI64 z → parse_int (int_text z) ≡ some z
unfolding parse_int int_text
parse_int-int_text (pos n) h =
    let (c, s, e, low, high) = digits_start (suc n) n (omega arith) in
    ap parse_int e
    ∙ parse_int-unsigned c s low
    ∙ ap positive (sym (ap parse_nat e) ∙ parse_nat-to_decimal n)
    ∙ positive-some n h
parse_int-int_text (negsuc n) h = ground (arith, parse_nat-to_decimal (suc n))
