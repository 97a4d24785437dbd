-- ===== src/Sqf/Lexer/Settles.antt =====
-- The fuel of the lexer: every round leaves less than it was given.
use a3sql.Prelude.{
  ℕ, zero, suc, ◌<◌, ◌≤◌, ◌≡◌, refl, Bool, true, false, Option, none, some, List, [], ◌∷◌, arith,
  length, Result, err, ok, ◌>>=◌, Bool-cases, inl, inr, ◌==◌, if◌then◌else◌, drop,
}
use a3sql.Prelude.Text.{Text, is_digit}
use a3sql.Sqf.Token.{Token}
use a3sql.Sqf.Lexer.{
  Unicode, LexError, Round, is_space, is_ident_start, is_ident_char, span, read_string, push_char,
  read_number, operator, round, string_round, operator_round, tokenize_from, tokenize, push_token,
}

length-span : (p : ℕ → Bool) (cs : Text) → length (span p cs).1 ≤ length cs
unfolding span
length-span p [] = omega arith
length-span p (c ∷ cs) = ground (arith, length-span p cs)

-- What a string literal leaves, if it ends.
abbrev IsShorter : ℕ → Option (Text × Text) → Type 0
IsShorter n none = Unit
IsShorter n (some (s, rest)) = length rest < n

push-IsShorter :
    (m n ch : ℕ) (r : Option (Text × Text)) → m ≤ n → IsShorter m r → IsShorter n (push_char ch r)
push-IsShorter m n ch none le h = tt
push-IsShorter m n ch (some (s, rest)) le h = omega arith

read_string-IsShorter : (cs : Text) → IsShorter (length cs) (read_string cs)
unfolding read_string
read_string-IsShorter [] = tt
read_string-IsShorter (c ∷ []) = elim (Bool-cases (c == b'"')) [
  | inl quote ↦ rw (IsShorter, quote) (omega arith)
  | inr other ↦ rw (IsShorter, other) tt
]
read_string-IsShorter (c ∷ d ∷ cs) = elim (Bool-cases (c == b'"')) [
  | inl quote ↦ elim (Bool-cases (d == b'"')) [
    | inl second ↦
        rw (IsShorter, quote, second)
          (push-IsShorter (length cs) (suc (suc (length cs))) b'"' (read_string cs) (omega arith)
            (read_string-IsShorter cs))
    | inr closed ↦ rw (IsShorter, quote, closed) (omega arith)
  ]
  | inr other ↦
      rw (IsShorter, other)
        (push-IsShorter (suc (length cs)) (suc (suc (length cs))) c (read_string (d ∷ cs))
          (omega arith) (read_string-IsShorter (d ∷ cs)))
]

length-drop : (cs : Text) → length (drop 1 cs) ≤ length cs
length-drop [] = omega arith
length-drop (c ∷ cs) = omega arith

length-read_number :
    (c : ℕ) (cs : Text) → is_digit c ≡ true → length (read_number (c ∷ cs)).1 ≤ length cs
unfolding read_number span
length-read_number c cs digit =
    let whole = length-span is_digit cs in
    let behind = length-drop (span is_digit cs).1 in
    let fraction = length-span is_digit (drop 1 (span is_digit cs).1) in ground arith

-- The round has no lack of fuel, and leaves at most `n` characters.
abbrev Settled : ℕ → Round → Type 0
Settled n (err failure) = ¬ (failure ≡ LexError.out_of_fuel)
Settled n (ok (t, rest)) = length rest ≤ n

abbrev left : Option (Token × Text) → ℕ
left none = 0
left (some (t, rest)) = length rest

left-operator : (c : ℕ) (cs : Text) → left (operator c cs) ≤ length cs
unfolding operator
left-operator c cs = let dropped = length-drop cs in ground arith

operator_round-Settled :
    (n c : ℕ) (r : Option (Token × Text)) → left r ≤ n → Settled n (operator_round c r)
operator_round-Settled n c none h = λ same. cc
operator_round-Settled n c (some (t, rest)) h = h

string_round-Settled :
    (n : ℕ) (r : Option (Text × Text)) → IsShorter n r → Settled n (string_round r)
string_round-Settled n none h = λ same. cc
string_round-Settled n (some (s, rest)) h = omega arith

if-Settled :
    (n : ℕ) (b : Bool) (x y : Round)
    → (b ≡ true → Settled n x)
    → (b ≡ false → Settled n y)
    → Settled n (if b then x else y)
if-Settled n true x y hx hy = hx refl
if-Settled n false x y hx hy = hy refl

round-Settled : (u : Unicode) (c : ℕ) (cs : Text) → Settled (length cs) (round u c cs)
unfolding round
round-Settled u c cs =
    if-Settled n (is_space u c) _ _ (λ _. omega arith)
      λ _.
        if-Settled n (c == b'"') _ _
          (λ _. string_round-Settled n (read_string cs) (read_string-IsShorter cs))
          λ _.
            if-Settled n (is_ident_start c) _ _ (λ _. length-span (is_ident_char u) cs)
              λ _.
                if-Settled n (is_digit c) _ _ (length-read_number c cs)
                  λ _. operator_round-Settled n c (operator c cs) (left-operator c cs)
  where
    n : ℕ
    n = length cs

tokenize_from_terminates :
    (u : Unicode) (fuel : ℕ) (cs : Text)
    → length cs ≤ fuel
    → ¬ (tokenize_from u fuel cs ≡ err LexError.out_of_fuel)
unfolding tokenize_from
tokenize_from_terminates u fuel [] h = λ same. cc
tokenize_from_terminates u zero (c ∷ cs) h = absurd (omega arith)
tokenize_from_terminates u (suc fuel) (c ∷ cs) h =
    after (round u c cs) (round-Settled u c cs) (tokenize_from_terminates u fuel)
  where
    pushed :
        (t : Option Token) (r : Result (List Token) LexError)
        → ¬ (r ≡ err LexError.out_of_fuel)
        → ¬ ((r >>= λ ts. ok (push_token t ts)) ≡ err LexError.out_of_fuel)
    pushed t (ok ts) ends same = absurd (cc)
    pushed t (err failure) ends same = ends (cc)

    after :
        (r : Round)
        → Settled (length cs) r
        → ((rest : Text)
            → length rest ≤ fuel
            → ¬ (tokenize_from u fuel rest ≡ err LexError.out_of_fuel))
        → ¬ (
            (r >>= λ (t, rest). tokenize_from u fuel rest >>= λ ts. ok (push_token t ts))
            ≡ err LexError.out_of_fuel)
    after (err failure) settled again = λ same. settled (cc)
    after (ok (t, rest)) settled again =
        pushed t (tokenize_from u fuel rest) (again rest (omega arith))

-- With one unit of fuel for each character, the lexer never runs out: on every text it ends
-- with tokens or one of the source's errors.
pub tokenize_terminates : (u : Unicode) (cs : Text) → ¬ (tokenize u cs ≡ err LexError.out_of_fuel)
unfolding tokenize
tokenize_terminates u cs = tokenize_from_terminates u (length cs) cs (omega arith)
