-- ===== src/Serialize/Bytes.antt =====
-- What the binary format of engine/serialize/binary.rs uses of Rust's standard library: little-endian
-- numbers, `std::str::from_utf8`, and the bit tests of a flag byte; and its FNV-1a checksum.
use Prim.Native.Nat.{bit_and, bit_or, bit_xor}
use a3sql.Prelude.{
  ℕ, zero, suc, ◌+◌, ◌*◌, ◌/◌, ◌%◌, ◌^◌, ◌<◌, ◌≡◌, refl, Bool, true, false, ◌&&◌, not, Option, none,
  some, [], ◌∷◌, ◌++◌, arith, leb, ◌==◌, if◌then◌else◌, length,
}
use native.Mathlib.Nat.{pow-suc}
use a3sql.Prelude.Text.{Text}

-- `n.to_le_bytes()` in `width` bytes.
unfoldable pub le_bytes : ℕ → ℕ → Text
le_bytes zero n = []
le_bytes (suc width) n = (n % 256) ∷ le_bytes width (n / 256)

-- The number in the next `width` bytes and the bytes after them; nothing where they are too few.
unfoldable pub read_le : ℕ → Text → Option (ℕ × Text)
read_le zero input = some (0, input)
read_le (suc width) [] = none
read_le (suc width) (b ∷ input) = elim (read_le width input) [
  | none ↦ none
  | some (n, rest) ↦ some (b + 256 * n, rest)
]

pub read_le-le_bytes :
    (width n : ℕ) (rest : Text)
    → n < 256 ^ width
    → read_le width (le_bytes width n ++ rest) ≡ some (n, rest)
unfolding read_le le_bytes
read_le-le_bytes zero n rest h = ground arith
read_le-le_bytes (suc width) n rest h =
    ground (arith, read_le-le_bytes width (n / 256) rest (omega (arith, pow-suc 256 width)))

-- The next `n` bytes and the bytes after them.
unfoldable pub split_at : ℕ → Text → Option (Text × Text)
split_at zero input = some ([], input)
split_at (suc n) [] = none
split_at (suc n) (b ∷ input) = elim (split_at n input) [
  | none ↦ none
  | some (s, rest) ↦ some (b ∷ s, rest)
]

pub split_at-append : (s rest : Text) → split_at (length s) (s ++ rest) ≡ some (s, rest)
unfolding split_at
split_at-append [] rest = refl
split_at-append (b ∷ s) rest = ground (arith, split_at-append s rest)

-- The continuation bytes that are due: how many, and the range of the next one.
pub data Due : Type 0 where
  start : Due
  due : ℕ → ℕ → ℕ → Due

abbrev between : ℕ → ℕ → ℕ → Bool
between low high b = leb low b && leb b high

-- The first byte of a character; nothing where no character begins with it.
abbrev first_byte : ℕ → Option Due
first_byte b =
    if leb b 0x7f
    then some start
    else (if between 0xc2 0xdf b
        then some (due 0 0x80 0xbf)
        else (if b == 0xe0
            then some (due 1 0xa0 0xbf)
            else (if b == 0xed
                then some (due 1 0x80 0x9f)
                else (if between 0xe1 0xef b
                    then some (due 1 0x80 0xbf)
                    else (if b == 0xf0
                        then some (due 2 0x90 0xbf)
                        else (if between 0xf1 0xf3 b
                            then some (due 2 0x80 0xbf)
                            else (if b == 0xf4 then some (due 2 0x80 0x8f) else none)))))))

abbrev next_byte : Due → ℕ → Option Due
next_byte start b = first_byte b
next_byte (due zero low high) b = if between low high b then some start else none
next_byte (due (suc n) low high) b = if between low high b then some (due n 0x80 0xbf) else none

unfoldable pub utf8_from : Due → Text → Bool
utf8_from start [] = true
utf8_from (due n low high) [] = false
utf8_from d (b ∷ input) = elim (next_byte d b) [ none ↦ false | some d' ↦ utf8_from d' input ]

-- `std::str::from_utf8(s).is_ok()`
unfoldable pub is_utf8 : Text → Bool
unfolding utf8_from
is_utf8 s = utf8_from start s

-- `1 << i` where the flag is set.
abbrev flag : Bool → ℕ → ℕ
flag false mask = 0
flag true mask = mask

unfoldable pub pack_flags : Bool → Bool → Bool → Bool → Bool → ℕ
pack_flags auto_inc not_null unique has_default has_default_expr =
    bit_or
      (bit_or (bit_or (bit_or (bit_or 0 (flag auto_inc 1)) (flag not_null 2)) (flag unique 4))
        (flag has_default 8))
      (flag has_default_expr 16)

-- `flags & mask != 0`
unfoldable pub has_flag : ℕ → ℕ → Bool
has_flag flags mask = not (bit_and flags mask == 0)

abbrev pub same : Bool → Bool → Bool
same true b = b
same false b = not b

abbrev every : (Bool → Bool) → Bool
every f = f true && f false

every-at : (f : Bool → Bool) (b : Bool) → every f ≡ true → f b ≡ true
every-at f true e = ground arith
every-at f false e = ground arith

pub same-eq : (a b : Bool) → same a b ≡ true → a ≡ b
same-eq true b e = ground arith
same-eq false b e = ground arith

abbrev pub flags_kept : Bool → Bool → Bool → Bool → Bool → Bool
flags_kept a n u d e =
    same (has_flag (pack_flags a n u d e) 1) a
    && (same (has_flag (pack_flags a n u d e) 2) n
        && (same (has_flag (pack_flags a n u d e) 4) u
            && (same (has_flag (pack_flags a n u d e) 8) d
                && same (has_flag (pack_flags a n u d e) 16) e)))

pub pack_flags-kept : (a n u d e : Bool) → flags_kept a n u d e ≡ true
unfolding pack_flags has_flag
pack_flags-kept a n u d e = every-at (flags_kept a n u d) e (
    every-at (λ d. every (flags_kept a n u d)) d
      (every-at (λ u. every (λ d. every (flags_kept a n u d))) u
        (every-at (λ n. every (λ u. every (λ d. every (flags_kept a n u d)))) n
          (every-at (λ a. every (λ n. every (λ u. every (λ d. every (flags_kept a n u d))))) a
            refl))))

-- The loop of `checksum`, FNV-1a in 64 bits.
unfoldable pub checksum_from : ℕ → Text → ℕ
checksum_from hash [] = hash
checksum_from hash (b ∷ input) = checksum_from (bit_xor hash b * 0x100000001b3 % 2 ^ 64) input

unfoldable pub checksum : Text → ℕ
unfolding checksum_from
checksum input = checksum_from 0xcbf29ce484222325 input
