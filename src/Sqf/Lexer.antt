-- ===== src/Sqf/Lexer.antt =====
-- sqf/lexer.rs: `tokenize`. Each round of its loop reads one token or one space; the loop runs on
-- fuel, one unit for each character.
pub mod Parts
pub mod RoundTrip
pub mod Settles
use a3sql.Prelude.{
  ℕ, zero, suc, Bool, true, false, ◌&&◌, ◌||◌, Option, none, some, List, [], ◌∷◌, ◌++◌, ite, leb,
  ltb, ◌==◌, if◌then◌else◌, length, drop, Result, err, ok, ◌>>=◌,
}
use a3sql.Prelude.Text.{Text, Text-discrete, bytes, is_digit}
use a3sql.Sqf.Token.{Token}

-- What Rust's tables say of the characters that are not ASCII.
pub record Unicode : Type 0 where
  pub is_whitespace : ℕ → Bool
  pub is_alphanumeric : ℕ → Bool

pub data LexError : Type 0 where
  unclosed_string out_of_fuel : LexError
  unexpected_character : ℕ → LexError

abbrev pub is_letter : ℕ → Bool
is_letter c = leb b'A' c && leb c b'Z' || leb b'a' c && leb c b'z'

-- `char::is_whitespace`
abbrev pub is_space : Unicode → ℕ → Bool
is_space u c = if ltb c 128 then leb 9 c && leb c 13 || c == 32 else u.is_whitespace c

-- `c == '_' || c.is_ascii_alphabetic()`
abbrev pub is_ident_start : ℕ → Bool
is_ident_start c = c == b'_' || is_letter c

-- `ch.is_alphanumeric() || ch == '_'`
abbrev pub is_ident_char : Unicode → ℕ → Bool
is_ident_char u c =
    if ltb c 128 then is_letter c || is_digit c || c == b'_' else u.is_alphanumeric c

-- The inner `while let` loops: the characters that pass, and what is left.
unfoldable pub span : (ℕ → Bool) → Text → Text × Text
span p [] = ([], [])
span p (c ∷ cs) = let (run, rest) = span p cs in if p c then (c ∷ run, rest) else ([], c ∷ cs)

abbrev pub push_char : ℕ → Option (Text × Text) → Option (Text × Text)
push_char ch none = none
push_char ch (some (s, rest)) = some (ch ∷ s, rest)

-- The string literal behind its opening quote; `none` if it does not end.
unfoldable pub read_string : Text → Option (Text × Text)
read_string [] = none
read_string (c ∷ []) = if c == b'"' then some ([], []) else none
read_string (c ∷ d ∷ cs) = elim (c == b'"') [
  | true ↦ elim (d == b'"') [ true ↦ push_char b'"' (read_string cs) | false ↦ some ([], d ∷ cs) ]
  | false ↦ push_char c (read_string (d ∷ cs))
]

-- The `match ident.as_str()`.
unfoldable pub word_token : Text → Token
word_token w = ite (Text-discrete w (bytes "true")) Token.keyword_true (
    ite (Text-discrete w (bytes "false")) Token.keyword_false (
      ite (Text-discrete w (bytes "nil")) Token.keyword_nil
        (ite (Text-discrete w (bytes "select")) Token.select (Token.ident w))))

-- `chars.peek() == Some(&d)`
abbrev pub next_is : ℕ → Text → Bool
next_is d [] = false
next_is d (c ∷ cs) = c == d

-- The digits, and a point with the digits behind it if one follows.
unfoldable pub read_number : Text → Text × Text
unfolding span
read_number cs =
    let (whole, rest) = span is_digit cs in
    let (fraction, behind) = span is_digit (drop 1 rest) in
    if next_is b'.' rest then (whole ++ (b'.' ∷ fraction), behind) else (whole, rest)

-- The `match next` of the operators.
unfoldable pub operator : ℕ → Text → Option (Token × Text)
operator c cs =
    if c == b'|' && next_is b'|' cs
    then some (Token.or, drop 1 cs)
    else if c == b'&' && next_is b'&' cs
    then some (Token.and, drop 1 cs)
    else if c == b'=' && next_is b'=' cs
    then some (Token.eq, drop 1 cs)
    else if c == b'!' && next_is b'=' cs
    then some (Token.neq, drop 1 cs)
    else if c == b'<' && next_is b'=' cs
    then some (Token.le, drop 1 cs)
    else if c == b'>' && next_is b'=' cs
    then some (Token.ge, drop 1 cs)
    else if c == b'+'
    then some (Token.plus, cs)
    else if c == b'-'
    then some (Token.minus, cs)
    else if c == b'*'
    then some (Token.star, cs)
    else if c == b'/'
    then some (Token.slash, cs)
    else if c == b'%'
    then some (Token.percent, cs)
    else if c == b'<'
    then some (Token.lt, cs)
    else if c == b'>'
    then some (Token.gt, cs)
    else if c == b'!'
    then some (Token.not, cs)
    else if c == b'#'
    then some (Token.hash, cs)
    else if c == b'('
    then some (Token.l_paren, cs)
    else if c == b')'
    then some (Token.r_paren, cs)
    else if c == b'['
    then some (Token.l_bracket, cs)
    else if c == b']'
    then some (Token.r_bracket, cs)
    else if c == b','
    then some (Token.comma, cs)
    else none

abbrev pub Round : Type 0
Round = Result (Option Token × Text) LexError

abbrev pub string_round : Option (Text × Text) → Round
string_round none = err LexError.unclosed_string
string_round (some (s, rest)) = ok (some (Token.string s), rest)

abbrev pub operator_round : ℕ → Option (Token × Text) → Round
operator_round c none = err (LexError.unexpected_character c)
operator_round c (some (t, rest)) = ok (some t, rest)

abbrev pub word_round : ℕ → Text × Text → Round
word_round c (run, rest) = ok (some (word_token (c ∷ run)), rest)

abbrev pub number_round : Text × Text → Round
number_round (num, rest) = ok (some (Token.number num), rest)

-- One round of the loop on the character `c` and what follows it: a token unless `c` is white space,
-- and the input that is left.
unfoldable pub round : Unicode → ℕ → Text → Round
unfolding span read_string word_token read_number operator
round u c cs =
    if is_space u c
    then ok (none, cs)
    else if c == b'"'
    then string_round (read_string cs)
    else if is_ident_start c
    then word_round c (span (is_ident_char u) cs)
    else if is_digit c
    then number_round (read_number (c ∷ cs))
    else operator_round c (operator c cs)

abbrev pub push_token : Option Token → List Token → List Token
push_token none ts = ts
push_token (some t) ts = t ∷ ts

unfoldable pub tokenize_from : Unicode → ℕ → Text → Result (List Token) LexError
unfolding round
tokenize_from u fuel [] = ok []
tokenize_from u zero (c ∷ cs) = err LexError.out_of_fuel
tokenize_from u (suc fuel) (c ∷ cs) =
    round u c cs >>= λ (t, rest). tokenize_from u fuel rest >>= λ ts. ok (push_token t ts)

unfoldable pub tokenize : Unicode → Text → Result (List Token) LexError
unfolding tokenize_from
tokenize u cs = tokenize_from u (length cs) cs
