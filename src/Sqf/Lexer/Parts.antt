-- ===== src/Sqf/Lexer/Parts.antt =====
-- What the loops inside the lexer read: runs of characters, string literals and numbers.
use a3sql.Prelude.{
  ℕ, ◌≤◌, ◌≡◌, refl, Bool, true, false, some, [], ◌∷◌, ◌++◌, append_assoc, arith, length, All,
  Bool-cases, inl, inr, ◌⊎◌, ◌==◌,
}
use a3sql.Prelude.Text.{Text, is_digit}
use a3sql.Prelude.Quote.{double_quotes}
use a3sql.Sqf.Lexer.{span, read_string, read_number, next_is, push_char}

-- The text ends here or goes on with a space.
abbrev pub Ends : Text → Type 0
Ends [] = Unit
Ends (c ∷ cs) = c ≡ 32

-- The next character, if there is one, does not pass.
abbrev pub Halts : (ℕ → Bool) → Text → Type 0
Halts p [] = Unit
Halts p (c ∷ cs) = p c ≡ false

pub span-All :
    (p : ℕ → Bool) (s rest : Text)
    → All (λ c. p c ≡ true) s
    → Halts p rest
    → span p (s ++ rest) ≡ (s, rest)
unfolding span
span-All p [] [] a h = refl
span-All p [] (c ∷ rest) a h = rw (span, h) refl
span-All p (c ∷ s) rest (passes, a) h = rw (span, passes, span-All p s rest a h) refl

read_string-other :
    (c : ℕ) (s rest : Text)
    → (c == b'"') ≡ false
    → read_string (c ∷ (s ++ (b'"' ∷ rest))) ≡ push_char c (read_string (s ++ (b'"' ∷ rest)))
unfolding read_string
read_string-other c [] rest other = rw (read_string, other) refl
read_string-other c (d ∷ s) rest other = rw (read_string, other) refl

read_string-close :
    (rest : Text) → Halts (λ c. c == b'"') rest → read_string (b'"' ∷ rest) ≡ some ([], rest)
unfolding read_string
read_string-close [] h = refl
read_string-close (c ∷ rest) h = rw (read_string, h) refl

read_string-doubled :
    (c : ℕ) (cs : Text) {s rest : Text}
    → (c == b'"') ≡ true
    → read_string cs ≡ some (s, rest)
    → read_string (c ∷ c ∷ cs) ≡ some (c ∷ s, rest)
unfolding read_string
read_string-doubled c cs quote e = let same : c ≡ b'"' = ground arith in rw (same, e) refl

-- An escaped text is read back, up to the closing quote.
pub read_string-double_quotes :
    (s rest : Text)
    → Halts (λ c. c == b'"') rest
    → read_string (double_quotes s ++ (b'"' ∷ rest)) ≡ some (s, rest)
unfolding double_quotes
read_string-double_quotes [] rest h = read_string-close rest h
read_string-double_quotes (c ∷ s) rest h = elim (Bool-cases (c == b'"')) [
  | inl quote ↦
      rw (double_quotes, quote)
        (read_string-doubled c (double_quotes s ++ (b'"' ∷ rest)) quote
          (read_string-double_quotes s rest h))
  | inr other ↦
      rw
        (
          double_quotes,
          other,
          read_string-other c (double_quotes s) rest other,
          read_string-double_quotes s rest h,
        )
        refl
]

-- Digits, and a point with digits behind it or not.
abbrev pub IsNumber : Text → Type 0
IsNumber s =
    (whole : Text) × (1 ≤ length whole)
    × All (λ c. is_digit c ≡ true) whole
    × ((s ≡ whole)
        ⊎ ((fraction : Text) × All (λ c. is_digit c ≡ true) fraction
            × (s ≡ whole ++ (b'.' ∷ fraction))))

Ends-Halts_digit : (rest : Text) → Ends rest → Halts is_digit rest
Ends-Halts_digit [] e = tt
Ends-Halts_digit (c ∷ rest) e = ground arith

pub Ends-Halts_quote : (rest : Text) → Ends rest → Halts (λ c. c == b'"') rest
Ends-Halts_quote [] e = tt
Ends-Halts_quote (c ∷ rest) e = ground arith

pub Ends-next_is : (d : ℕ) (rest : Text) → Ends rest → 33 ≤ d → next_is d rest ≡ false
Ends-next_is d [] e h = refl
Ends-next_is d (c ∷ rest) e h = ground arith

pub read_number-IsNumber :
    (s rest : Text) → IsNumber s → Ends rest → read_number (s ++ rest) ≡ (s, rest)
unfolding read_number
read_number-IsNumber s rest (whole, n, digits, inl same) e =
    rw
      (
        same,
        read_number,
        span-All is_digit whole rest digits (Ends-Halts_digit rest e),
        Ends-next_is b'.' rest e (omega arith),
      )
      refl
read_number-IsNumber s rest (whole, n, digits, inr (fraction, more, same)) e =
    rw
      (
        same,
        append_assoc,
        read_number,
        span-All is_digit whole (b'.' ∷ (fraction ++ rest)) digits refl,
        span-All is_digit fraction rest more (Ends-Halts_digit rest e),
      )
      refl

pub IsNumber-head :
    (s : Text) → IsNumber s → (c : ℕ) × (cs : Text) × (s ≡ c ∷ cs) × (is_digit c ≡ true)
IsNumber-head s ([], n, digits, same) = absurd (omega arith)
IsNumber-head s (c ∷ whole, n, (digit, digits), inl same) = (c, whole, same, digit)
IsNumber-head s (c ∷ whole, n, (digit, digits), inr (fraction, more, same)) =
    (c, whole ++ (b'.' ∷ fraction), same, digit)
