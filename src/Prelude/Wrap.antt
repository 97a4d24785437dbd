-- ===== src/Prelude/Wrap.antt =====
-- The arithmetic of Rust's `i64`: two's complement with wrap-around, and the divisions, which panic by
-- zero and on `MIN / -1`.
use Prim.Native.Nat.{ℕ, zero, suc, ◌+◌, ◌-◌, ◌*◌, ◌/◌, ◌%◌, ◌^◌, ◌<◌, ◌≤◌}
use mathlib.Core.Path.{◌≡◌, refl, ap, subst}
use mathlib.Core.Bool.{Bool, true, false}
use mathlib.Core.Option.{Option, none, some, some-injective}
use mathlib.Core.Logic.{◌⊎◌, inl, inr}
use native.Mathlib.Omega.{arith}
use native.Mathlib.Nat.{div-le_self, div-mul-le_self, mul-le-mul_left, mod-lt}
use a3sql.Prelude.Tests.{◌==◌, if◌then◌else◌, Bool-cases, Option-cases}
use a3sql.Prelude.Int.{ℤ, pos, negsuc, IsI64, to_bits, of_bits, of_bits-IsI64}

unfoldable pub wrapping_add : ℤ → ℤ → ℤ
unfolding to_bits of_bits
wrapping_add a b = of_bits ((to_bits a + to_bits b) % 2 ^ 64)

unfoldable pub wrapping_sub : ℤ → ℤ → ℤ
unfolding to_bits of_bits
wrapping_sub a b = of_bits ((to_bits a + (2 ^ 64 - to_bits b)) % 2 ^ 64)

unfoldable pub wrapping_mul : ℤ → ℤ → ℤ
unfolding to_bits of_bits
wrapping_mul a b = of_bits ((to_bits a * to_bits b) % 2 ^ 64)

abbrev pub magnitude : ℤ → ℕ
magnitude (pos n) = n
magnitude (negsuc n) = suc n

abbrev pub is_negative : ℤ → Bool
is_negative (pos n) = false
is_negative (negsuc n) = true

abbrev pub minus : ℕ → ℤ
minus zero = pos zero
minus (suc n) = negsuc n

abbrev pub signed : Bool → ℕ → ℤ
signed false n = pos n
signed true n = minus n

abbrev pub differ : Bool → Bool → Bool
differ true true = false
differ false false = false
differ _ _ = true

-- `a / b`, towards zero; `none` is a panic.
unfoldable pub int_div : ℤ → ℤ → Option ℤ
int_div a (pos zero) = none
int_div (pos m) (pos (suc n)) = some (pos (m / suc n))
int_div (negsuc m) (pos (suc n)) = some (minus (suc m / suc n))
int_div (pos m) (negsuc n) = some (minus (m / suc n))
int_div (negsuc m) (negsuc n) = if suc m / suc n == 2 ^ 63 then none else some (pos (suc m / suc n))

-- `-a` where overflow wraps.
unfoldable pub wrapping_neg : ℤ → ℤ
wrapping_neg (pos n) = minus n
wrapping_neg (negsuc n) = if suc n == 2 ^ 63 then negsuc n else pos (suc n)

pub wrapping_add-IsI64 : (a b : ℤ) → IsI64 (wrapping_add a b)
unfolding wrapping_add
wrapping_add-IsI64 a b = of_bits-IsI64 ((to_bits a + to_bits b) % 2 ^ 64) (omega arith)

pub wrapping_sub-IsI64 : (a b : ℤ) → IsI64 (wrapping_sub a b)
unfolding wrapping_sub
wrapping_sub-IsI64 a b = of_bits-IsI64 ((to_bits a + (2 ^ 64 - to_bits b)) % 2 ^ 64) (omega arith)

pub wrapping_mul-IsI64 : (a b : ℤ) → IsI64 (wrapping_mul a b)
unfolding wrapping_mul
wrapping_mul-IsI64 a b = of_bits-IsI64 ((to_bits a * to_bits b) % 2 ^ 64) (ground arith)

pub wrapping_neg-IsI64 : (a : ℤ) → IsI64 a → IsI64 (wrapping_neg a)
unfolding wrapping_neg
wrapping_neg-IsI64 (pos zero) h = omega arith
wrapping_neg-IsI64 (pos (suc n)) h = omega arith
wrapping_neg-IsI64 (negsuc n) h = ground arith

minus-IsI64 : (n : ℕ) → n < 2 ^ 63 + 1 → IsI64 (minus n)
minus-IsI64 zero h = omega arith
minus-IsI64 (suc n) h = omega arith

int_div-bound : (m n : ℕ) → suc m / suc n < suc m + 1
int_div-bound m n = let small = div-le_self (suc m) (suc n) in omega arith

-- A quotient is again a 64-bit integer: the one that is not is the panic.
pub int_div-IsI64 : (a b q : ℤ) → IsI64 a → int_div a b ≡ some q → IsI64 q
unfolding int_div
int_div-IsI64 a (pos zero) q h e = absurd (cc)
int_div-IsI64 (pos m) (pos (suc n)) q h e =
    let small = div-le_self m (suc n) in
    let fits : IsI64 (pos (m / suc n)) = omega arith in subst IsI64 (some-injective _ _ e) fits
int_div-IsI64 (negsuc m) (pos (suc n)) q h e =
    let small = int_div-bound m n in
    subst IsI64 (some-injective _ _ e) (minus-IsI64 (suc m / suc n) (omega arith))
int_div-IsI64 (pos m) (negsuc n) q h e =
    let small = div-le_self m (suc n) in
    subst IsI64 (some-injective _ _ e) (minus-IsI64 (m / suc n) (omega arith))
int_div-IsI64 (negsuc m) (negsuc n) q h e =
    let small = int_div-bound m n in
    elim (Bool-cases (suc m / suc n == 2 ^ 63)) [
      | inl over ↦ absurd (ground arith)
      | inr under ↦
          let fits : IsI64 (pos (suc m / suc n)) = ground arith in
          let same : some (pos (suc m / suc n)) ≡ some q = ground arith in
          subst IsI64 (some-injective _ _ same) fits
    ]

quotient-lt : (m n : ℕ) → suc m < 2 ^ 63 + 1 → suc m / suc (suc n) < 2 ^ 63
quotient-lt m n h =
    let product = div-mul-le_self (suc m) (suc (suc n)) in
    let twice : suc m / suc (suc n) * 2 ≤ suc m / suc (suc n) * suc (suc n) =
      mul-le-mul_left (suc m / suc (suc n)) (omega arith) in
    omega arith

-- A quotient of 64-bit integers panics by zero and on `MIN / -1` only.
pub int_div-none :
    (a b : ℤ)
    → IsI64 a
    → int_div a b ≡ none
    → (b ≡ pos 0) ⊎ ((a ≡ negsuc (2 ^ 63 - 1)) × (b ≡ negsuc 0))
unfolding int_div
int_div-none a (pos zero) h e = inl refl
int_div-none (pos m) (pos (suc n)) h e = absurd (cc)
int_div-none (negsuc m) (pos (suc n)) h e = absurd (cc)
int_div-none (pos m) (negsuc n) h e = absurd (cc)
int_div-none (negsuc m) (negsuc zero) h e =
    let least : m ≡ 2 ^ 63 - 1 = ground arith in inr (ap negsuc least, refl)
int_div-none (negsuc m) (negsuc (suc n)) h e =
    let small = quotient-lt m n (omega arith) in absurd (ground arith)

-- `a % b`, with the sign of `a`; it panics where `a / b` does.
unfoldable pub int_rem : ℤ → ℤ → Option ℤ
unfolding int_div
int_rem a b = elim (int_div a b) [
  | none ↦ none
  | some q ↦ some (signed (is_negative a) (magnitude a % magnitude b))
]

signed-IsI64 : (b : Bool) (n : ℕ) → n < 2 ^ 63 → IsI64 (signed b n)
signed-IsI64 false n h = h
signed-IsI64 true n h = minus-IsI64 n (omega arith)

magnitude-rem : (a b : ℤ) → IsI64 a → IsI64 b → 0 < magnitude b → magnitude a % magnitude b < 2 ^ 63
magnitude-rem a (pos m) ha hb h = ground (arith, mod-lt (magnitude a) h)
magnitude-rem a (negsuc m) ha hb h = ground (arith, mod-lt (magnitude a) h)

rem-IsI64 : (a b r : ℤ) → IsI64 a → IsI64 b → 0 < magnitude b → int_rem a b ≡ some r → IsI64 r
unfolding int_rem
rem-IsI64 a b r ha hb h e = elim (Option-cases (int_div a b)) [
  | inl stuck ↦ absurd (none≢some (rw (int_rem, stuck) at e))
  | inr (q, found) ↦
      subst IsI64 (some-injective _ _ (rw (int_rem, found) at e))
        (signed-IsI64 (is_negative a) (magnitude a % magnitude b) (magnitude-rem a b ha hb h))
]
  where
    none≢some : {r : ℤ} → ¬ (none ≡ some r)
    none≢some same = absurd (cc)

pub int_rem-IsI64 : (a b r : ℤ) → IsI64 a → IsI64 b → int_rem a b ≡ some r → IsI64 r
unfolding int_rem
int_rem-IsI64 a (pos zero) r ha hb e = absurd (cc)
int_rem-IsI64 a (pos (suc m)) r ha hb e = rem-IsI64 a (pos (suc m)) r ha hb (omega arith) e
int_rem-IsI64 a (negsuc m) r ha hb e = rem-IsI64 a (negsuc m) r ha hb (omega arith) e
