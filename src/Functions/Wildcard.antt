-- ===== src/Functions/Wildcard.antt =====
-- functions/eval/ops.rs: `wildcard_match`, the REGEXP operator. A position in the value or the pattern
-- is what follows it, and the pattern is the first argument, on which the recursion goes.
use a3sql.Prelude.{
  ℕ, ◌≡◌, refl, sym, ap, subst, ◌∙◌, ◌⊎◌, ◌↔◌, inl, inr, Bool, true, false, ◌&&◌, ◌||◌, [], ◌∷◌,
  ◌++◌, arith, ◌==◌, if◌then◌else◌, Bool-cases, length,
}
use a3sql.Prelude.Text.{Text}

-- `while vi2 <= val.len()`
unfoldable pub any_suffix : (Text → Bool) → Text → Bool
any_suffix matches [] = matches []
any_suffix matches (v ∷ val) = matches (v ∷ val) || any_suffix matches val

unfoldable pub is_end : Text → Bool
is_end [] = true
is_end (_ ∷ _) = false

-- `vi < val.len() && ... && wildcard_match(val, pat, vi + 1, pi + 1)`
unfoldable pub next_char : (ℕ → Bool) → (Text → Bool) → Text → Bool
next_char passes matches [] = false
next_char passes matches (v ∷ val) = passes v && matches val

unfoldable pub wildcard_match : Text → Text → Bool
unfolding any_suffix next_char is_end
wildcard_match [] val = is_end val
wildcard_match (c ∷ pat) val =
    if c == b'*'
    then any_suffix (wildcard_match pat) val
    else if c == b'?'
    then next_char (λ v. true) (wildcard_match pat) val
    else next_char (λ v. v == c) (wildcard_match pat) val

-- What one character of a pattern stands for.
abbrev pub IsPiece : ℕ → Text → Type 0
IsPiece c run = (c ≡ b'*') ⊎ ((c ≡ b'?') × (length run ≡ 1)) ⊎ (run ≡ c ∷ [])

-- The value can be cut into pieces, one for each character of the pattern in their order.
unfoldable pub Matches : Text → Text → Type 0
Matches [] val = val ≡ []
Matches (c ∷ pat) val =
    (run : Text) × (rest : Text) × (val ≡ run ++ rest) × IsPiece c run × Matches pat rest

-- A test of what is left behind some run of characters.
abbrev Suffix : (Text → Bool) → Text → Type 0
Suffix matches val = (run : Text) × (rest : Text) × (val ≡ run ++ rest) × (matches rest ≡ true)

any_suffix_sound :
    (matches : Text → Bool) (val : Text) → any_suffix matches val ≡ true → Suffix matches val
unfolding any_suffix
any_suffix_sound matches [] h = ([], [], refl, h)
any_suffix_sound matches (v ∷ val) h = elim (Bool-cases (matches (v ∷ val))) [
  | inl here ↦ ([], v ∷ val, refl, here)
  | inr later ↦
      let (run, rest, cut, found) = any_suffix_sound matches val (ground arith) in
      (v ∷ run, rest, ap (λ s. v ∷ s) cut, found)
]

any_suffix_complete :
    (matches : Text → Bool) (run rest : Text)
    → matches rest ≡ true
    → any_suffix matches (run ++ rest) ≡ true
unfolding any_suffix
any_suffix_complete matches [] [] h = h
any_suffix_complete matches [] (v ∷ rest) h = rw (any_suffix, h) refl
any_suffix_complete matches (v ∷ run) rest h =
    ground (arith, any_suffix_complete matches run rest h)

next_char_sound :
    (passes : ℕ → Bool) (matches : Text → Bool) (val : Text)
    → next_char passes matches val ≡ true
    → (v : ℕ) × (rest : Text) × (val ≡ v ∷ rest) × (passes v ≡ true) × (matches rest ≡ true)
unfolding next_char
next_char_sound passes matches [] h = cc
next_char_sound passes matches (v ∷ val) h = (v, val, refl, ground arith, ground arith)

star-step :
    (c : ℕ) (pat val : Text)
    → (c == b'*') ≡ true
    → wildcard_match (c ∷ pat) val ≡ any_suffix (wildcard_match pat) val
unfolding wildcard_match
star-step c pat val star = rw (wildcard_match, star) refl

any-step :
    (c : ℕ) (pat val : Text)
    → (c == b'*') ≡ false
    → (c == b'?') ≡ true
    → wildcard_match (c ∷ pat) val ≡ next_char (λ v. true) (wildcard_match pat) val
unfolding wildcard_match
any-step c pat val star any = rw (wildcard_match, star, any) refl

char-step :
    (c : ℕ) (pat val : Text)
    → (c == b'*') ≡ false
    → (c == b'?') ≡ false
    → wildcard_match (c ∷ pat) val ≡ next_char (λ v. v == c) (wildcard_match pat) val
unfolding wildcard_match
char-step c pat val star any = rw (wildcard_match, star, any) refl

wildcard_match_sound : (pat val : Text) → wildcard_match pat val ≡ true → Matches pat val
unfolding wildcard_match Matches is_end
wildcard_match_sound [] [] h = refl
wildcard_match_sound [] (v ∷ val) h = absurd (cc)
wildcard_match_sound (c ∷ pat) val h = elim (Bool-cases (c == b'*')) [
  | inl star ↦
      let (run, rest, cut, found) =
        any_suffix_sound (wildcard_match pat) val (sym (star-step c pat val star) ∙ h) in
      (run, rest, cut, inl (ground arith), wildcard_match_sound pat rest found)
  | inr no_star ↦ elim (Bool-cases (c == b'?')) [
    | inl any ↦
        let (v, rest, cut, _, found) =
          next_char_sound (λ v. true) (wildcard_match pat) val
            (sym (any-step c pat val no_star any) ∙ h) in
        (v ∷ [], rest, cut, inr (inl (ground arith, refl)), wildcard_match_sound pat rest found)
    | inr no_any ↦
        let (v, rest, cut, same, found) =
          next_char_sound (λ v. v == c) (wildcard_match pat) val
            (sym (char-step c pat val no_star no_any) ∙ h) in
        let equal : v ≡ c = ground arith in
        (v ∷ [], rest, cut, inr (inr (ap (λ d. d ∷ []) equal)), wildcard_match_sound pat rest found)
  ]
]

-- The piece of a character that is no star is one character.
piece-next_char :
    (c : ℕ) (run rest : Text) (matches : Text → Bool) (passes : ℕ → Bool)
    → (length run ≡ 1) × ((v : ℕ) → run ≡ v ∷ [] → passes v ≡ true)
    → matches rest ≡ true
    → next_char passes matches (run ++ rest) ≡ true
unfolding next_char
piece-next_char c [] rest matches passes (n, ok) h = absurd (omega arith)
piece-next_char c (v ∷ []) rest matches passes (n, ok) h = rw (ok v refl, h) refl
piece-next_char c (v ∷ w ∷ run) rest matches passes (n, ok) h = absurd (omega arith)

wildcard_match_complete : (pat val : Text) → Matches pat val → wildcard_match pat val ≡ true
unfolding wildcard_match Matches is_end
wildcard_match_complete [] val h = rw h refl
wildcard_match_complete (c ∷ pat) val (run, rest, cut, piece, more) =
    let found : wildcard_match pat rest ≡ true = wildcard_match_complete pat rest more in
    subst (λ s. wildcard_match (c ∷ pat) s ≡ true) (sym cut)
      (elim (Bool-cases (c == b'*')) [
        | inl star ↦
            star-step c pat (run ++ rest) star
            ∙ any_suffix_complete (wildcard_match pat) run rest found
        | inr no_star ↦ elim (Bool-cases (c == b'?')) [
          | inl any ↦
              any-step c pat (run ++ rest) no_star any
              ∙ piece-next_char c run rest (wildcard_match pat) (λ v. true)
                  (one piece no_star, λ v _. refl) found
          | inr no_any ↦
              char-step c pat (run ++ rest) no_star no_any
              ∙ piece-next_char c run rest (wildcard_match pat) (λ v. v == c)
                  (one piece no_star, λ v e. the_char piece no_star no_any v e) found
        ]
      ])
  where
    one : IsPiece c run → (c == b'*') ≡ false → length run ≡ 1
    one (inl star) nostar = absurd (ground arith)
    one (inr (inl (any, n))) nostar = n
    one (inr (inr same)) nostar = rw same refl

    the_char :
        IsPiece c run
        → (c == b'*') ≡ false
        → (c == b'?') ≡ false
        → (v : ℕ) → run ≡ v ∷ []
        → (v == c) ≡ true
    the_char (inl star) nostar no_any v e = absurd (ground arith)
    the_char (inr (inl (any, n))) nostar no_any v e = absurd (ground arith)
    the_char (inr (inr same)) nostar no_any v e = let equal : v ≡ c = cc in ground arith

-- The REGEXP operator's matcher accepts a value if and only if the value can be cut into
-- pieces, one for each character of the pattern in order: any piece for a star, one character
-- for a question mark, the character itself otherwise.
pub wildcard_match-Matches : (pat val : Text) → (wildcard_match pat val ≡ true) ↔ Matches pat val
wildcard_match-Matches pat val = (wildcard_match_sound pat val, wildcard_match_complete pat val)
