-- ===== src/Query/Paging.antt =====
-- engine/stmts/select/sort.rs: LIMIT and OFFSET.
use a3sql.Prelude.{
  ℕ, zero, suc, ◌+◌, ◌-◌, ◌%◌, ◌^◌, ◌<◌, ◌≤◌, ◌≡◌, refl, sym, ap, ◌∙◌, min, false, Option, none,
  some, List, [], ◌∷◌, arith, ltb, ◌==◌, if◌then◌else◌, length, take, drop, Bool-cases, inl, inr,
}
use a3sql.Prelude.Text.{Text, to_decimal, digits_start}
use a3sql.Prelude.ParseInt.{parse_nat, parse_nat-to_decimal}

-- sqlparser's nodes, as far as this code looks into them.
pub data LimitExpr : Type 0 where
  number : Text → LimitExpr
  other : LimitExpr

pub data LimitClause : Type 0 where
  limit_offset : Option LimitExpr → Option LimitExpr → LimitClause
  offset_comma_limit : LimitExpr → LimitExpr → LimitClause

abbrev in_range : Option ℕ → Option ℕ
in_range none = none
in_range (some n) = if ltb n (2 ^ 64) then some n else none

-- `s.parse::<usize>()`
unfoldable pub parse_usize : Text → Option ℕ
unfolding parse_nat
parse_usize [] = none
parse_usize (c ∷ s) = if c == b'+' then in_range (parse_nat s) else in_range (parse_nat (c ∷ s))

unfoldable pub parse_expr_as_usize : Option LimitExpr → Option ℕ
unfolding parse_usize
parse_expr_as_usize none = none
parse_expr_as_usize (some LimitExpr.other) = none
parse_expr_as_usize (some (LimitExpr.number s)) = parse_usize s

abbrev or_zero : Option ℕ → ℕ
or_zero none = 0
or_zero (some n) = n

-- `(offset_val, limit_val)`
unfoldable pub offset_and_limit : Option LimitClause → ℕ × Option ℕ
unfolding parse_expr_as_usize
offset_and_limit none = (0, none)
offset_and_limit (some (LimitClause.limit_offset limit offset)) =
    (or_zero (parse_expr_as_usize offset), parse_expr_as_usize limit)
offset_and_limit (some (LimitClause.offset_comma_limit offset limit)) =
    (or_zero (parse_expr_as_usize (some offset)), parse_expr_as_usize (some limit))

-- The number that a LIMIT or an OFFSET writes: none where it is absent or no number, else a number
-- below 2^64, in decimal.
abbrev pub Asks : Option LimitExpr → Option ℕ → Type 0
Asks none none = Unit
Asks (some LimitExpr.other) none = Unit
Asks (some (LimitExpr.number s)) (some n) = (s ≡ to_decimal n) × (n < 2 ^ 64)
Asks _ _ = ⊥

-- The OFFSET and the LIMIT that a clause writes, the OFFSET first: `LIMIT l OFFSET o`, `LIMIT o, l`.
abbrev pub AsksFor : Option LimitClause → Option ℕ → Option ℕ → Type 0
AsksFor none offset limit = (offset ≡ none) × (limit ≡ none)
AsksFor (some (LimitClause.limit_offset l o)) offset limit = Asks o offset × Asks l limit
AsksFor (some (LimitClause.offset_comma_limit o l)) offset limit =
    Asks (some o) offset × Asks (some l) limit

parse_usize-digit :
    (c n : ℕ) (s : Text)
    → b'0' ≤ c
    → n < 2 ^ 64
    → parse_nat (c ∷ s) ≡ some n
    → parse_usize (c ∷ s) ≡ some n
unfolding parse_usize
parse_usize-digit c n s low h e = ground arith

parse_usize-to_decimal : (n : ℕ) → n < 2 ^ 64 → parse_usize (to_decimal n) ≡ some n
unfolding to_decimal
parse_usize-to_decimal n h =
    let (c, s, e, low, high) = digits_start (suc n) n (omega arith) in
    ap parse_usize e ∙ parse_usize-digit c n s low h (sym (ap parse_nat e) ∙ parse_nat-to_decimal n)

Asks-parse_expr_as_usize :
    (e : Option LimitExpr) (n : Option ℕ) → Asks e n → parse_expr_as_usize e ≡ n
unfolding parse_expr_as_usize
Asks-parse_expr_as_usize none none h = refl
Asks-parse_expr_as_usize none (some n) h = absurd h
Asks-parse_expr_as_usize (some LimitExpr.other) none h = refl
Asks-parse_expr_as_usize (some LimitExpr.other) (some n) h = absurd h
Asks-parse_expr_as_usize (some (LimitExpr.number s)) none h = absurd h
Asks-parse_expr_as_usize (some (LimitExpr.number s)) (some n) (e, h) =
    ap parse_usize e ∙ parse_usize-to_decimal n h

AsksFor-offset_and_limit :
    (clause : Option LimitClause) (offset limit : Option ℕ)
    → AsksFor clause offset limit
    → offset_and_limit clause ≡ (or_zero offset, limit)
unfolding offset_and_limit
AsksFor-offset_and_limit none offset limit (e, f) = rw (e, f) refl
AsksFor-offset_and_limit (some (LimitClause.limit_offset l o)) offset limit (h, k) =
    rw (Asks-parse_expr_as_usize o offset h, Asks-parse_expr_as_usize l limit k) refl
AsksFor-offset_and_limit (some (LimitClause.offset_comma_limit o l)) offset limit (h, k) =
    rw (Asks-parse_expr_as_usize (some o) offset h, Asks-parse_expr_as_usize (some l) limit k) refl

-- `start + l` wraps in a release build.
abbrev end_of : ℕ → Option ℕ → ℕ → ℕ
end_of start none len = len
end_of start (some l) len = min ((start + l) % 2 ^ 64) len

module _ {R : Type 0} where
  -- `rows[start..end]`; `none` is its panic.
  unfoldable pub slice : ℕ → ℕ → List R → Option (List R)
  slice start end rows = if ltb end start then none else some (take (end - start) (drop start rows))

  unfoldable pub apply_limit_offset : List R → Option LimitClause → Option (List R)
  unfolding offset_and_limit slice
  apply_limit_offset rows clause =
      let (offset_val, limit_val) = offset_and_limit clause in
      let start = min offset_val (length rows) in
      slice start (end_of start limit_val (length rows)) rows

  -- The rows behind the offset, up to the limit.
  abbrev pub limited : Option ℕ → List R → List R
  limited none rows = rows
  limited (some l) rows = take l rows

  take-all : (n : ℕ) (rows : List R) → length rows ≤ n → take n rows ≡ rows
  take-all zero [] h = refl
  take-all zero (r ∷ rows) h = absurd (omega arith)
  take-all (suc n) [] h = refl
  take-all (suc n) (r ∷ rows) h = ap (λ rs. r ∷ rs) (take-all n rows (omega arith))

  length-drop : (n : ℕ) (rows : List R) → length (drop n rows) ≡ length rows - n
  length-drop zero rows = omega arith
  length-drop (suc n) [] = omega arith
  length-drop (suc n) (r ∷ rows) = ground (arith, length-drop n rows)

  drop-all : (n : ℕ) (rows : List R) → length rows ≤ n → drop n rows ≡ []
  drop-all zero [] h = refl
  drop-all zero (r ∷ rows) h = absurd (omega arith)
  drop-all (suc n) [] h = refl
  drop-all (suc n) (r ∷ rows) h = drop-all n rows (omega arith)

  drop-min : (n : ℕ) (rows : List R) → drop (min n (length rows)) rows ≡ drop n rows
  drop-min n rows = elim (Bool-cases (ltb n (length rows))) [
    | inl inside ↦ ap (λ k. drop k rows) (ground arith)
    | inr beyond ↦
        drop-all (min n (length rows)) rows (ground arith) ∙ sym (drop-all n rows (ground arith))
  ]

  -- A slice from `start` of at most `l` rows.
  slice-take :
      (start l : ℕ) (rows : List R)
      → start ≤ length rows
      → slice start (min (start + l) (length rows)) rows ≡ some (take l (drop start rows))
  unfolding slice
  slice-take start l rows h =
      let len = length-drop start rows in
      let ordered : ltb (min (start + l) (length rows)) start ≡ false = ground arith in
      rw (slice, ordered)
        (ap some (elim (Bool-cases (ltb (start + l) (length rows))) [
          | inl inside ↦ ap (λ k. take k (drop start rows)) (ground arith)
          | inr beyond ↦
              take-all (min (start + l) (length rows) - start) (drop start rows) (ground arith)
              ∙ sym (take-all l (drop start rows) (ground arith))
        ]))

  slice-rest :
      (start : ℕ) (rows : List R)
      → start ≤ length rows
      → slice start (length rows) rows ≡ some (drop start rows)
  unfolding slice
  slice-rest start rows h =
      let len = length-drop start rows in
      let ordered : ltb (length rows) start ≡ false = ground arith in
      rw (slice, ordered) (ap some (take-all (length rows - start) (drop start rows) (omega arith)))

  -- The end of the page is below 2^64.
  abbrev EndFits : ℕ → Option ℕ → List R → Type 0
  EndFits offset none rows = Unit
  EndFits offset (some l) rows = min offset (length rows) + l < 2 ^ 64

  page :
      (offset : ℕ) (limit : Option ℕ) (rows : List R)
      → EndFits offset limit rows
      → slice
          (min offset (length rows))
          (end_of (min offset (length rows)) limit (length rows))
          rows
        ≡ some (limited limit (drop offset rows))
  page offset none rows fits =
      slice-rest (min offset (length rows)) rows (ground arith) ∙ ap some (drop-min offset rows)
  page offset (some l) rows fits =
      ap (λ k. slice (min offset (length rows)) (min k (length rows)) rows) (omega arith)
      ∙ slice-take (min offset (length rows)) l rows (ground arith)
      ∙ ap (λ rs. some (take l rs)) (drop-min offset rows)

  -- The rows behind the offset, if there is one.
  abbrev pub behind : Option ℕ → List R → List R
  behind none rows = rows
  behind (some n) rows = drop n rows

  -- The end of the page is below 2^64.
  abbrev pub Fits : Option ℕ → Option ℕ → List R → Type 0
  Fits offset none rows = Unit
  Fits none (some l) rows = l < 2 ^ 64
  Fits (some n) (some l) rows = min n (length rows) + l < 2 ^ 64

  apply_limit_offset-read :
      (rows : List R) (clause : Option LimitClause) (offset limit : Option ℕ)
      → offset_and_limit clause ≡ (or_zero offset, limit)
      → Fits offset limit rows
      → apply_limit_offset rows clause ≡ some (limited limit (behind offset rows))
  unfolding apply_limit_offset
  apply_limit_offset-read rows clause none none e fits = rw e (page 0 none rows tt)
  apply_limit_offset-read rows clause none (some l) e fits =
      rw e (page 0 (some l) rows (ground arith))
  apply_limit_offset-read rows clause (some n) none e fits = rw e (page n none rows tt)
  apply_limit_offset-read rows clause (some n) (some l) e fits = rw e (page n (some l) rows fits)

  -- If the OFFSET and the LIMIT of a clause are each absent, no number, or a decimal number
  -- below 2^64, in either form of the clause, and the end of the page is below 2^64, the code
  -- does not panic and gives the rows behind the OFFSET, up to the LIMIT.
  pub apply_limit_offset-limited :
      (rows : List R) (clause : Option LimitClause) (offset limit : Option ℕ)
      → AsksFor clause offset limit
      → Fits offset limit rows
      → apply_limit_offset rows clause ≡ some (limited limit (behind offset rows))
  apply_limit_offset-limited rows clause offset limit asks fits =
      apply_limit_offset-read rows clause offset limit
        (AsksFor-offset_and_limit clause offset limit asks) fits
