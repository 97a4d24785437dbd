-- ===== src/Prelude/Int.antt =====
-- Rust's `i64`: an integer in range, and its two's-complement bits.
use Prim.Native.Nat.{ℕ, ◌-◌, ◌^◌, ◌<◌}
use mathlib.Core.Path.{◌≡◌}
use native.Mathlib.Omega.{arith}
use native.Mathlib.Decide.{ℕ_discrete}
use a3sql.Prelude.Tests.{ltb, if◌then◌else◌}

-- `negsuc n` is -(n + 1).
pub data ℤ : Type 0 where
  pos : ℕ → ℤ
  negsuc : ℕ → ℤ

abbrev pub IsI64 : ℤ → Type 0
IsI64 (pos n) = n < 2 ^ 63
IsI64 (negsuc n) = n < 2 ^ 63

-- `n as u64`
unfoldable pub to_bits : ℤ → ℕ
to_bits (pos n) = n
to_bits (negsuc n) = 2 ^ 64 - 1 - n

-- `w as i64`
unfoldable pub of_bits : ℕ → ℤ
of_bits w = if ltb w (2 ^ 63) then pos w else negsuc (2 ^ 64 - 1 - w)

pub to_bits-lt : (z : ℤ) → IsI64 z → to_bits z < 2 ^ 64
unfolding to_bits
to_bits-lt (pos n) h = omega arith
to_bits-lt (negsuc n) h = omega arith

pub of_bits-to_bits : (z : ℤ) → IsI64 z → of_bits (to_bits z) ≡ z
unfolding of_bits to_bits
of_bits-to_bits (pos n) h = ground arith
of_bits-to_bits (negsuc n) h = ground arith

pub of_bits-IsI64 : (w : ℕ) → w < 2 ^ 64 → IsI64 (of_bits w)
unfolding of_bits
of_bits-IsI64 w h = ground arith

pub ℤ-discrete : Discrete ℤ
ℤ-discrete = hlevel ℕ_discrete
