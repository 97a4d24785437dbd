-- ===== src/Sqf/Lexer/RoundTrip.antt =====
-- The lexer on the display of tokens.
use a3sql.Prelude.{
  ℕ, zero, suc, ◌≤◌, ◌≡◌, refl, ap, sym, subst, true, false, some, List, [], ◌∷◌, ◌++◌, map,
  append_assoc, append-nil, arith, length, length-append, All, ok, ◌∙◌, ◌==◌,
}
use a3sql.Prelude.Text.{Text, Text-discrete, bytes, is_digit}
use a3sql.Prelude.Quote.{double_quotes, double_quotes-plain}
use a3sql.Index.{join}
use a3sql.Sqf.Token.{Token, display}
use a3sql.Sqf.Lexer.{
  Unicode, is_space, is_ident_start, is_ident_char, read_string, read_number, word_token, operator,
  round, number_round, tokenize_from, tokenize,
}
use a3sql.Sqf.Lexer.Parts.{
  Ends, Halts, span-All, read_string-double_quotes, IsNumber, Ends-Halts_quote, Ends-next_is,
  read_number-IsNumber, IsNumber-head,
}

module _ (u : Unicode) where
  abbrev IsWordChar : ℕ → Type 0
  IsWordChar c = is_ident_char u c ≡ true

  -- The tokens that can be displayed and read again: a number or a name that the lexer could have
  -- read, and a string without quotes.
  unfoldable pub IsToken : Token → Type 0
  unfolding word_token
  IsToken (Token.number s) = IsNumber s
  IsToken (Token.string s) = All (λ c. (c == b'"') ≡ false) s
  IsToken (Token.ident []) = ⊥
  IsToken (Token.ident (c ∷ cs)) =
      (is_ident_start c ≡ true) × All IsWordChar cs × (word_token (c ∷ cs) ≡ Token.ident (c ∷ cs))
  IsToken _ = Unit

  -- The round that reads the token.
  abbrev IsRead : Token → Text → Type 0
  IsRead t rest =
      (c : ℕ) × (cs : Text) × (display t ≡ c ∷ cs) × (round u c (cs ++ rest) ≡ ok (some t, rest))

  Ends-Halts_word : (rest : Text) → Ends rest → Halts (is_ident_char u) rest
  Ends-Halts_word [] e = tt
  Ends-Halts_word (c ∷ rest) e = rw e refl

  round-word :
      (c : ℕ) (cs rest : Text)
      → is_ident_start c ≡ true
      → All IsWordChar cs
      → Ends rest
      → round u c (cs ++ rest) ≡ ok (some (word_token (c ∷ cs)), rest)
  unfolding round
  round-word c cs rest start word e =
      let no_space : is_space u c ≡ false = ground arith in
      let no_quote : (c == b'"') ≡ false = ground arith in
      rw
        (
          round,
          no_space,
          no_quote,
          start,
          span-All (is_ident_char u) cs rest word (Ends-Halts_word rest e),
        )
        refl

  round-number :
      (c : ℕ) (cs rest : Text)
      → IsNumber (c ∷ cs)
      → is_digit c ≡ true
      → Ends rest
      → round u c (cs ++ rest) ≡ ok (some (Token.number (c ∷ cs)), rest)
  unfolding round
  round-number c cs rest number digit e =
      let no_space : is_space u c ≡ false = ground arith in
      let no_quote : (c == b'"') ≡ false = ground arith in
      let no_word : is_ident_start c ≡ false = ground arith in
      let step : round u c (cs ++ rest) ≡ number_round (read_number (c ∷ (cs ++ rest))) =
        rw (round, no_space, no_quote, no_word, digit) refl in
      step ∙ ap number_round (read_number-IsNumber (c ∷ cs) rest number e)

  number-IsRead : (s rest : Text) → IsNumber s → Ends rest → IsRead (Token.number s) rest
  unfolding display
  number-IsRead s rest number e =
      let (c, cs, same, digit) = IsNumber-head s number in
      (
        c,
        cs,
        same,
        round-number c cs rest (subst IsNumber same number) digit e
            ∙ ap (λ num. ok (some (Token.number num), rest)) (sym same),
      )

  string-IsRead :
      (s rest : Text) → All (λ c. (c == b'"') ≡ false) s → Ends rest → IsRead (Token.string s) rest
  unfolding display round
  string-IsRead s rest plain e =
      let read : read_string (s ++ (b'"' ∷ rest)) ≡ some (s, rest) =
        rw (double_quotes-plain s plain) at
          (read_string-double_quotes s rest (Ends-Halts_quote rest e)) in
      (b'"', s ++ (b'"' ∷ []), refl, rw (append_assoc, read) refl)

  IsToken-IsRead : (t : Token) (rest : Text) → IsToken t → Ends rest → IsRead t rest
  unfolding IsToken display round operator word_token Text-discrete
  IsToken-IsRead (Token.number s) rest well e = number-IsRead s rest well e
  IsToken-IsRead (Token.string s) rest well e = string-IsRead s rest well e
  IsToken-IsRead (Token.ident []) rest well e = absurd well
  IsToken-IsRead (Token.ident (c ∷ cs)) rest (start, word, name) e =
      (c, cs, refl, round-word c cs rest start word e ∙ ap (λ t. ok (some t, rest)) name)
  IsToken-IsRead Token.keyword_true rest well e = (
    b't',
    bytes "rue",
    refl,
    round-word b't' (bytes "rue") rest refl (refl, (refl, (refl, tt))) e,
  )
  IsToken-IsRead Token.keyword_false rest well e = (
    b'f',
    bytes "alse",
    refl,
    round-word b'f' (bytes "alse") rest refl (refl, (refl, (refl, (refl, tt)))) e,
  )
  IsToken-IsRead Token.keyword_nil rest well e =
      (b'n', bytes "il", refl, round-word b'n' (bytes "il") rest refl (refl, (refl, tt)) e)
  IsToken-IsRead Token.select rest well e = (
    b's',
    bytes "elect",
    refl,
    round-word b's' (bytes "elect") rest refl (refl, (refl, (refl, (refl, (refl, tt))))) e,
  )
  IsToken-IsRead Token.plus rest well e = (b'+', [], refl, refl)
  IsToken-IsRead Token.minus rest well e = (b'-', [], refl, refl)
  IsToken-IsRead Token.star rest well e = (b'*', [], refl, refl)
  IsToken-IsRead Token.slash rest well e = (b'/', [], refl, refl)
  IsToken-IsRead Token.percent rest well e = (b'%', [], refl, refl)
  IsToken-IsRead Token.eq rest well e = (b'=', bytes "=", refl, refl)
  IsToken-IsRead Token.neq rest well e = (b'!', bytes "=", refl, refl)
  IsToken-IsRead Token.le rest well e = (b'<', bytes "=", refl, refl)
  IsToken-IsRead Token.ge rest well e = (b'>', bytes "=", refl, refl)
  IsToken-IsRead Token.and rest well e = (b'&', bytes "&", refl, refl)
  IsToken-IsRead Token.or rest well e = (b'|', bytes "|", refl, refl)
  IsToken-IsRead Token.lt rest well e =
      (b'<', [], refl, rw (Ends-next_is b'=' rest e (omega arith)) refl)
  IsToken-IsRead Token.gt rest well e =
      (b'>', [], refl, rw (Ends-next_is b'=' rest e (omega arith)) refl)
  IsToken-IsRead Token.not rest well e =
      (b'!', [], refl, rw (Ends-next_is b'=' rest e (omega arith)) refl)
  IsToken-IsRead Token.hash rest well e = (b'#', [], refl, refl)
  IsToken-IsRead Token.l_paren rest well e = (b'(', [], refl, refl)
  IsToken-IsRead Token.r_paren rest well e = (b')', [], refl, refl)
  IsToken-IsRead Token.l_bracket rest well e = (b'[', [], refl, refl)
  IsToken-IsRead Token.r_bracket rest well e = (b']', [], refl, refl)
  IsToken-IsRead Token.comma rest well e = (b',', [], refl, refl)

  abbrev Scans : Text → List Token → Type 0
  Scans cs ts = (fuel : ℕ) → length cs ≤ fuel → tokenize_from u fuel cs ≡ ok ts

  Scans-token :
      (t : Token) (rest : Text) {ts : List Token}
      → IsToken t
      → Ends rest
      → Scans rest ts
      → Scans (display t ++ rest) (t ∷ ts)
  unfolding tokenize_from
  Scans-token t rest {ts} well e scans fuel h =
      let (c, cs, shown, read) = IsToken-IsRead t rest well e in
      let enough : length (c ∷ (cs ++ rest)) ≤ fuel =
        subst (λ s. length (s ++ rest) ≤ fuel) shown h in
      subst (λ s. tokenize_from u fuel (s ++ rest) ≡ ok (t ∷ ts)) (sym shown)
        (run c cs fuel read enough)
    where
      run :
          (c : ℕ) (cs : Text) (fuel : ℕ)
          → round u c (cs ++ rest) ≡ ok (some t, rest)
          → length (c ∷ (cs ++ rest)) ≤ fuel
          → tokenize_from u fuel (c ∷ (cs ++ rest)) ≡ ok (t ∷ ts)
      run c cs zero read h = absurd (omega arith)
      run c cs (suc fuel) read h =
          let len = length-append cs rest in rw (read, scans fuel (omega arith)) refl

  Scans-space : (rest : Text) {ts : List Token} → Scans rest ts → Scans (32 ∷ rest) ts
  unfolding tokenize_from round
  Scans-space rest scans zero h = absurd (omega arith)
  Scans-space rest scans (suc fuel) h = rw (scans fuel (omega arith)) refl

  Scans-join : (ts : List Token) → All IsToken ts → Scans (join (bytes " ") (map display ts)) ts
  unfolding join tokenize_from
  Scans-join [] well = λ fuel h. refl
  Scans-join (t ∷ []) (well, _) =
      subst (λ s. Scans s (t ∷ [])) (append-nil (display t))
        (Scans-token t [] well tt λ fuel h. refl)
  Scans-join (t ∷ t' ∷ ts) (well, more) =
      Scans-token t (32 ∷ join (bytes " ") (map display (t' ∷ ts))) well refl
        (Scans-space (join (bytes " ") (map display (t' ∷ ts))) (Scans-join (t' ∷ ts) more))

  -- Numbers and names that the lexer can read, strings without quotes and all other tokens,
  -- displayed with spaces between them, are tokenized back.
  pub tokenize-display :
      (ts : List Token) → All IsToken ts → tokenize u (join (bytes " ") (map display ts)) ≡ ok ts
  unfolding tokenize
  tokenize-display ts well =
      Scans-join ts well (length (join (bytes " ") (map display ts))) (omega arith)

  -- Every text is read back from its string literal.
  tokenize-double_quotes :
      (s : Text) → tokenize u (b'"' ∷ (double_quotes s ++ (b'"' ∷ []))) ≡ ok (Token.string s ∷ [])
  unfolding tokenize tokenize_from round
  tokenize-double_quotes s =
      rw (tokenize, tokenize_from, round, read_string-double_quotes s [] tt) refl
