-- ===== src/Prelude/Text.antt =====
-- A Rust `String` as its UTF-8 bytes, and the decimal text of a number.
use Prim.Native.Nat.{ℕ, zero, suc, ◌+◌, ◌-◌, ◌*◌, ◌/◌, ◌%◌, ◌≤◌, ◌<◌}
use Prim.Native.Char.{code}
use Prim.Native.String.{String}
use mathlib.Core.Path.{◌≡◌, refl, ap}
use mathlib.Core.Bool.{Bool, false, ◌&&◌}
use mathlib.Core.List.{List, [], ◌∷◌, ◌++◌, append_assoc}
use native.Mathlib.Omega.{arith}
use native.Mathlib.Decide.{ℕ_discrete}
use mathlib.Core.Logic.{inl, inr}
use a3sql.Prelude.Tests.{ltb, leb, if◌then◌else◌, Bool-cases}
use a3sql.Prelude.Int.{ℤ, pos, negsuc}

abbrev pub Text : Type 0
Text = List ℕ

-- The bytes of an ASCII literal.
abbrev pub bytes : String → Text
bytes String.[] = []
bytes (String.◌∷◌ c s) = code c ∷ bytes s

unfoldable pub Text-discrete : Discrete Text
unfolding ℕ_discrete
Text-discrete = hlevel ℕ_discrete

abbrev pub is_digit : ℕ → Bool
is_digit c = leb b'0' c && leb c b'9'

-- The digits of `n`, with fuel; each round divides by ten, so `suc n` rounds are enough.
unfoldable pub digits : ℕ → ℕ → Text
digits zero n = []
digits (suc fuel) n =
    let front = digits fuel (n / 10) in
    if ltb n 10 then (b'0' + n) ∷ [] else front ++ ((b'0' + n % 10) ∷ [])

-- `n.to_string()`
unfoldable pub to_decimal : ℕ → Text
unfolding digits
to_decimal n = digits (suc n) n

-- `n.to_string()` for a signed number
unfoldable pub int_text : ℤ → Text
unfolding to_decimal
int_text (pos n) = to_decimal n
int_text (negsuc n) = b'-' ∷ to_decimal (suc n)

-- Reads a number, up to the first byte that is no digit.
pub read_number : ℕ → Text → ℕ × Text
read_number acc [] = (acc, [])
read_number acc (c ∷ s) =
    let rest = read_number (acc * 10 + (c - b'0')) s in if is_digit c then rest else (acc, c ∷ s)

-- What the digits of `n` multiply an accumulator by.
pub scale : ℕ → ℕ → ℕ
scale zero n = 1
scale (suc fuel) n = let front = scale fuel (n / 10) in if ltb n 10 then 10 else 10 * front

read_number-digits :
    (fuel n acc : ℕ) (rest : Text)
    → n < fuel
    → read_number acc (digits fuel n ++ rest) ≡ read_number (acc * scale fuel n + n) rest
unfolding digits scale read_number
read_number-digits zero n acc rest h = absurd (omega arith)
read_number-digits (suc fuel) n acc rest h = elim (Bool-cases (ltb n 10)) [
  | inl small ↦ ground arith
  | inr large ↦
      rw (large, append_assoc)
        (ground
          (arith, read_number-digits fuel (n / 10) acc ((b'0' + n % 10) ∷ rest) (ground arith)))
]

-- A number is read back from its text, whatever follows it but a digit.
pub read_number-to_decimal :
    (n c : ℕ) (rest : Text)
    → is_digit c ≡ false
    → read_number 0 (to_decimal n ++ (c ∷ rest)) ≡ (n, c ∷ rest)
unfolding to_decimal read_number
read_number-to_decimal n c rest h =
    ground (arith, read_number-digits (suc n) n 0 (c ∷ rest) (omega arith))

-- Two numbers, each ended by the same byte that is no digit, are told apart.
pub to_decimal-cancel :
    (m n c : ℕ) {r s : Text}
    → is_digit c ≡ false
    → to_decimal m ++ (c ∷ r) ≡ to_decimal n ++ (c ∷ s)
    → (m ≡ n) × (r ≡ s)
to_decimal-cancel m n c {r} {s} h e =
    let a = read_number-to_decimal m c r h in
    let b = read_number-to_decimal n c s h in ground (arith, ap (read_number 0) e)

pub to_decimal-injective : (m n : ℕ) → to_decimal m ≡ to_decimal n → m ≡ n
to_decimal-injective m n e = (to_decimal-cancel m n b':' refl (ap (λ s. s ++ (b':' ∷ [])) e)).0

pub digits_start :
    (fuel n : ℕ)
    → n < fuel
    → (c : ℕ) × (s : Text) × (digits fuel n ≡ c ∷ s) × (b'0' ≤ c) × (c ≤ b'9')
unfolding digits
digits_start zero n h = absurd (omega arith)
digits_start (suc fuel) n h = elim (Bool-cases (ltb n 10)) [
  | inl small ↦ (b'0' + n, [], rw small refl, omega arith, ground arith)
  | inr large ↦
      let (c, s, e, low, high) = digits_start fuel (n / 10) (ground arith) in
      (c, s ++ ((b'0' + n % 10) ∷ []), rw (large, e) refl, low, high)
]

pub int_text-injective : (a b : ℤ) → int_text a ≡ int_text b → a ≡ b
unfolding int_text to_decimal
int_text-injective (pos m) (pos n) e = ap pos (to_decimal-injective m n e)
int_text-injective (pos m) (negsuc n) e =
    let (c, s, q, low, high) = digits_start (suc m) m (omega arith) in absurd (grind arith)
int_text-injective (negsuc m) (pos n) e =
    let (c, s, q, low, high) = digits_start (suc n) n (omega arith) in absurd (grind arith)
int_text-injective (negsuc m) (negsuc n) e =
    let q : suc m ≡ suc n = to_decimal-injective (suc m) (suc n) (cc) in ap negsuc (omega arith)

decimal_probe : to_decimal 12034 ≡ bytes "12034"
unfolding to_decimal
decimal_probe = refl
