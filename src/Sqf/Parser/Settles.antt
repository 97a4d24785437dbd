-- ===== src/Sqf/Parser/Settles.antt =====
-- The fuel of the SQF parser: how much each call needs for the tokens it is given.
use a3sql.Prelude.{
  ℕ, zero, suc, ◌+◌, ◌*◌, ◌<◌, ◌≤◌, ◌≡◌, Option, none, some, [], ◌∷◌, arith, length, err, ok, ◌>>=◌,
  Bool-cases, inl, inr, Option-cases,
}
use a3sql.Prelude.Int.{ℤ}
use a3sql.Prelude.Text.{Text}
use a3sql.Sqf.Token.{Token}
use a3sql.Sqf.Parser.{
  Tokens, Parsed, parse, parse_bp, parse_prefix, parse_infix, parse_operation, expect_r_paren,
  number_literal, float_literal, int_literal, lookup_prefix, breaks, binding, finish, has_point,
  name_of, infix_command,
}
use a3sql.Sqf.Parser.Syntax.{Arity, Env, Expr, ParseError, op_from_token}
use a3sql.Prelude.ParseInt.{parse_int}

-- The call did not run out of fuel, and what it left is shorter than `n`.
abbrev pub Settled : ℕ → Parsed → Type 0
Settled n (err failure) = ¬ (failure ≡ ParseError.out_of_fuel)
Settled n (ok (e, rest)) = length rest < n

bind-Settled :
    {n : ℕ} (m : ℕ) (r : Parsed) (next : Expr × Tokens → Parsed)
    → Settled n r
    → ((e : Expr) (rest : Tokens) → length rest < n → Settled m (next (e, rest)))
    → Settled m (r >>= next)
bind-Settled m (ok (e, rest)) next h k = k e rest h
bind-Settled m (err failure) next h k = h

Settled-weaken : {m n : ℕ} (r : Parsed) → m ≤ n → Settled m r → Settled n r
Settled-weaken (ok (e, rest)) le h = omega arith
Settled-weaken (err failure) le h = h

number_literal-Settled :
    (env : Env) (s : Text) (ts : Tokens) → Settled (suc (length ts)) (number_literal env s ts)
unfolding number_literal
number_literal-Settled env s ts = elim (Bool-cases (has_point s)) [
  | inl float ↦ rw float (read_float (env.parse_float s))
  | inr int ↦ rw int (read_int (parse_int s))
]
  where
    read_float : (w : Option ℕ) → Settled (suc (length ts)) (float_literal s ts w)
    read_float none = (λ same. cc)
    read_float (some w) = omega arith

    read_int : (n : Option ℤ) → Settled (suc (length ts)) (int_literal s ts n)
    read_int none = (λ same. cc)
    read_int (some n) = omega arith

expect-Settled :
    (e : Expr) (rest : Tokens) (n : ℕ) → length rest < n → Settled n (expect_r_paren e rest)
unfolding expect_r_paren
expect-Settled e [] n h = (λ same. cc)
expect-Settled e (Token.r_paren ∷ ts) n h = omega arith
expect-Settled e (_ ∷ ts) n h = (λ same. cc)

mutual
  unfolding parse_bp

  parse_bp-Settled :
      (env : Env) (fuel min_prec : ℕ) (ts : Tokens)
      → 3 * length ts + 2 < fuel
      → Settled (length ts) (parse_bp env fuel min_prec ts)
  parse_bp-Settled env zero min_prec ts h = absurd (omega arith)
  parse_bp-Settled env (suc fuel) min_prec ts h =
      bind-Settled (length ts) (parse_prefix env fuel ts) _
        (parse_prefix-Settled env fuel ts (omega arith))
        λ e rest less.
          Settled-weaken (parse_infix env fuel min_prec e rest) (omega arith)
            (parse_infix-Settled env fuel min_prec e rest (omega arith))

  parse_infix-Settled :
      (env : Env) (fuel min_prec : ℕ) (lhs : Expr) (ts : Tokens)
      → 3 * length ts + 1 < fuel
      → Settled (suc (length ts)) (parse_infix env fuel min_prec lhs ts)
  parse_infix-Settled env zero min_prec lhs ts h = absurd (omega arith)
  parse_infix-Settled env (suc fuel) min_prec lhs [] h = omega arith
  parse_infix-Settled env (suc fuel) min_prec lhs (t ∷ ts) h =
      elim (Bool-cases (breaks min_prec (binding env t))) [
        | inl stop ↦ rw (Settled, stop) (omega arith)
        | inr go ↦
            rw (Settled, go)
              (Settled-weaken (parse_operation env fuel min_prec lhs t ts) (omega arith)
                (parse_operation-Settled env fuel min_prec lhs t ts (omega arith)))
      ]

  parse_operation-Settled :
      (env : Env) (fuel min_prec : ℕ) (lhs : Expr) (t : Token) (ts : Tokens)
      → 3 * length ts + 3 < fuel
      → Settled (length ts) (parse_operation env fuel min_prec lhs t ts)
  parse_operation-Settled env zero min_prec lhs t ts h = absurd (omega arith)
  parse_operation-Settled env (suc fuel) min_prec lhs t ts h =
      let again : (e : Expr) (rest : Tokens)
          → length rest < length ts
          → Settled (length ts) (parse_infix env fuel min_prec e rest) =
        λ e rest less.
          Settled-weaken (parse_infix env fuel min_prec e rest) (omega arith)
            (parse_infix-Settled env fuel min_prec e rest (omega arith)) in
      elim (Option-cases (name_of t)) [
        | inr (name, named) ↦
            rw (Settled, named)
              (bind-Settled (length ts) (parse_bp env fuel 0 ts) _
                (parse_bp-Settled env fuel 0 ts (omega arith))
                λ e rest. again (infix_command name lhs e) rest)
        | inl symbol ↦
            rw (Settled, symbol)
              (bind-Settled (length ts) (parse_bp env fuel ((binding env t).1 + 1) ts) _
                (parse_bp-Settled env fuel ((binding env t).1 + 1) ts (omega arith))
                λ e rest less. elim (Option-cases (op_from_token t)) [
                  | inl unknown ↦ rw (Settled, unknown) (λ same. cc)
                  | inr (op, known) ↦ rw (Settled, known) (again (Expr.binary op lhs e) rest less)
                ])
      ]

  parse_prefix-Settled :
      (env : Env) (fuel : ℕ) (ts : Tokens)
      → 3 * length ts + 1 < fuel
      → Settled (length ts) (parse_prefix env fuel ts)
  parse_prefix-Settled env zero ts h = absurd (omega arith)
  parse_prefix-Settled env (suc fuel) [] h = (λ same. cc)
  parse_prefix-Settled env (suc fuel) (Token.number s ∷ ts) h = number_literal-Settled env s ts
  parse_prefix-Settled env (suc fuel) (Token.string s ∷ ts) h = omega arith
  parse_prefix-Settled env (suc fuel) (Token.ident name ∷ ts) h =
      elim (Option-cases (lookup_prefix env name)) [
        | inl e ↦ rw (Settled, e) (omega arith)
        | inr (Arity.nular, e) ↦ rw (Settled, e) (omega arith)
        | inr (Arity.unary, e) ↦
            rw (Settled, e)
              (bind-Settled (suc (length ts)) (parse_bp env fuel 7 ts) _
                (parse_bp-Settled env fuel 7 ts (omega arith)) λ e rest less. omega arith)
        | inr (Arity.binary, e) ↦ rw (Settled, e) (λ same. cc)
      ]
  parse_prefix-Settled env (suc fuel) (Token.keyword_true ∷ ts) h = omega arith
  parse_prefix-Settled env (suc fuel) (Token.keyword_false ∷ ts) h = omega arith
  parse_prefix-Settled env (suc fuel) (Token.keyword_nil ∷ ts) h = omega arith
  parse_prefix-Settled env (suc fuel) (Token.minus ∷ ts) h =
      bind-Settled (suc (length ts)) (parse_bp env fuel 6 ts) _
        (parse_bp-Settled env fuel 6 ts (omega arith)) λ e rest less. omega arith
  parse_prefix-Settled env (suc fuel) (Token.not ∷ ts) h =
      bind-Settled (suc (length ts)) (parse_bp env fuel 6 ts) _
        (parse_bp-Settled env fuel 6 ts (omega arith)) λ e rest less. omega arith
  parse_prefix-Settled env (suc fuel) (Token.l_paren ∷ ts) h =
      bind-Settled (suc (length ts)) (parse_bp env fuel 0 ts) _
        (parse_bp-Settled env fuel 0 ts (omega arith))
        λ e rest less. expect-Settled e rest (suc (length ts)) (omega arith)
  parse_prefix-Settled env (suc fuel) (_ ∷ ts) h = (λ same. cc)

finish-Settled :
    (n : ℕ) (r : Parsed) → Settled n r → ¬ ((r >>= finish) ≡ err ParseError.out_of_fuel)
unfolding finish
finish-Settled n (ok (e, [])) h same = absurd (cc)
finish-Settled n (ok (e, t ∷ ts)) h same = absurd (cc)
finish-Settled n (err failure) h same = h (cc)

-- With the fuel that `parse` gives it, the SQF parser never runs out: on every list of tokens
-- it ends with an expression or one of the source's errors.
pub parse_terminates : (env : Env) (ts : Tokens) → ¬ (parse env ts ≡ err ParseError.out_of_fuel)
unfolding parse
parse_terminates env ts =
    finish-Settled (length ts) (parse_bp env (3 * length ts + 3) 0 ts)
      (parse_bp-Settled env (3 * length ts + 3) 0 ts (omega arith))
