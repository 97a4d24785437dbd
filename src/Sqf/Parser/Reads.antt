-- ===== src/Sqf/Parser/Reads.antt =====
-- What a call of the SQF parser gives with every fuel that is enough for its tokens, and how the
-- calls compose.
use a3sql.Prelude.{
  ℕ, zero, suc, ◌+◌, ◌*◌, ◌<◌, ◌≤◌, ◌≡◌, refl, true, false, some, [], ◌∷◌, arith, length, ok, ◌>>=◌,
}
use a3sql.Prelude.Text.{Text}
use a3sql.Sqf.Token.{Token}
use a3sql.Sqf.Parser.{
  Tokens, parse_bp, parse_prefix, parse_infix, parse_operation, expect_r_paren, lookup_prefix,
  breaks, binding, infix_command, name_of, is_binary_cmd,
}
use a3sql.Sqf.Parser.Syntax.{
  Arity, Env, Expr, Op, UnaryOp, no_args, arg, to_ascii_lowercase, precedence, is_binary_op,
  op_from_token,
}

-- The token of an operator.
unfoldable pub op_token : Op → Token
op_token Op.add = Token.plus
op_token Op.sub = Token.minus
op_token Op.mul = Token.star
op_token Op.div = Token.slash
op_token Op.modulo = Token.percent
op_token Op.eq = Token.eq
op_token Op.neq = Token.neq
op_token Op.lt = Token.lt
op_token Op.gt = Token.gt
op_token Op.le = Token.le
op_token Op.ge = Token.ge
op_token Op.and = Token.and
op_token Op.or = Token.or

abbrev pub level : Op → ℕ
level op = precedence (op_token op)

unfoldable pub unary_token : UnaryOp → Token
unary_token UnaryOp.neg = Token.minus
unary_token UnaryOp.not = Token.not

binding-op_token : (env : Env) (op : Op) → binding env (op_token op) ≡ (true, level op)
unfolding binding is_binary_cmd is_binary_op precedence op_token
binding-op_token env Op.add = refl
binding-op_token env _ = refl

operation-op_token :
    (env : Env) (fuel min_prec : ℕ) (lhs : Expr) (op : Op) (ts : Tokens)
    → parse_operation env (suc fuel) min_prec lhs (op_token op) ts ≡ (
        parse_bp env fuel (level op + 1) ts >>= λ (rhs, rest).
        parse_infix env fuel min_prec (Expr.binary op lhs rhs) rest)
unfolding parse_operation op_from_token name_of binding is_binary_cmd is_binary_op precedence
    op_token
operation-op_token env fuel min_prec lhs Op.add ts = refl
operation-op_token env fuel min_prec lhs _ ts = refl

binding-command :
    (env : Env) (name : Text)
    → env.lookup name ≡ some Arity.binary
    → binding env (Token.ident name) ≡ (true, 0)
unfolding binding is_binary_cmd
binding-command env name known = rw (binding, is_binary_cmd, known) refl

breaks-le : (k p : ℕ) → k ≤ p → breaks k (true, p) ≡ false
unfolding breaks
breaks-le k p h = ground arith

module _ (env : Env) where
  -- With enough fuel, `parse_bp` reads `e` and leaves `rest`.
  pub record Reads (min_prec : ℕ) (ts : Tokens) (e : Expr) (rest : Tokens) : Type 0 where
    pub runs : (fuel : ℕ) → 3 * length ts + 2 < fuel → parse_bp env fuel min_prec ts ≡ ok (e, rest)
    pub less : length rest < length ts

  pub record Starts (ts : Tokens) (e : Expr) (rest : Tokens) : Type 0 where
    pub runs : (fuel : ℕ) → 3 * length ts + 1 < fuel → parse_prefix env fuel ts ≡ ok (e, rest)
    pub less : length rest < length ts

  pub record Continues (min_prec : ℕ) (lhs : Expr) (ts : Tokens) (e : Expr) (rest : Tokens)
      : Type 0 where
    pub runs :
        (fuel : ℕ) → 3 * length ts + 1 < fuel → parse_infix env fuel min_prec lhs ts ≡ ok (e, rest)
    pub le : length rest ≤ length ts

  -- The loop at this binding power ends before these tokens.
  abbrev pub Stops : ℕ → Tokens → Type 0
  Stops k [] = Unit
  Stops k (t ∷ ts) = breaks k (binding env t) ≡ true

  pub Stops-le : (k m : ℕ) (ts : Tokens) → k ≤ m → Stops k ts → Stops m ts
  unfolding breaks
  Stops-le k m [] le h = tt
  Stops-le k m (t ∷ ts) le h = ground arith

  pub Stops-command :
      (name : Text) (k : ℕ) (ts : Tokens)
      → env.lookup name ≡ some Arity.binary
      → 1 ≤ k
      → Stops k (Token.ident name ∷ ts)
  unfolding breaks
  Stops-command name k ts known h = rw (binding-command env name known) (ground arith)

  pub Starts-Continues :
      {min_prec : ℕ} {ts mid rest : Tokens} {lhs e : Expr}
      → Starts ts lhs mid
      → Continues min_prec lhs mid e rest
      → Reads min_prec ts e rest
  unfolding parse_bp
  Starts-Continues {min_prec} {ts} {mid} {rest} {lhs} {e} start continue = record {
    runs = run;
    less = omega arith;
  }
    where
      run : (fuel : ℕ) → 3 * length ts + 2 < fuel → parse_bp env fuel min_prec ts ≡ ok (e, rest)
      run zero h = absurd (omega arith)
      run (suc fuel) h = rw (start.runs fuel (omega arith), continue.runs fuel (omega arith)) refl

  pub Continues-stop :
      (min_prec : ℕ) (e : Expr) (rest : Tokens)
      → Stops min_prec rest
      → Continues min_prec e rest e rest
  unfolding parse_infix
  Continues-stop min_prec e rest stop = record { runs = run rest stop; le = omega arith }
    where
      run :
          (ts : Tokens)
          → Stops min_prec ts
          → (fuel : ℕ) → 3 * length ts + 1 < fuel
          → parse_infix env fuel min_prec e ts ≡ ok (e, ts)
      run ts stop zero h = absurd (omega arith)
      run [] stop (suc fuel) h = refl
      run (t ∷ ts) stop (suc fuel) h = rw (parse_infix, stop) refl

  pub Continues-op :
      (min_prec : ℕ) (op : Op) {ts mid rest : Tokens} {lhs rhs e : Expr}
      → min_prec ≤ level op
      → Reads (level op + 1) ts rhs mid
      → Continues min_prec (Expr.binary op lhs rhs) mid e rest
      → Continues min_prec lhs (op_token op ∷ ts) e rest
  unfolding parse_infix
  Continues-op min_prec op {ts} {mid} {rest} {lhs} {rhs} {e} le read continue = record {
    runs = run;
    le = omega arith;
  }
    where
      go : breaks min_prec (binding env (op_token op)) ≡ false
      go = rw binding-op_token (breaks-le min_prec (level op) le)

      run :
          (fuel : ℕ)
          → 3 * length (op_token op ∷ ts) + 1 < fuel
          → parse_infix env fuel min_prec lhs (op_token op ∷ ts) ≡ ok (e, rest)
      run zero h = absurd (omega arith)
      run (suc zero) h = absurd (omega arith)
      run (suc (suc fuel)) h =
          rw
            (
              parse_infix,
              go,
              operation-op_token env fuel min_prec lhs op ts,
              read.runs fuel (omega arith),
              continue.runs fuel (omega arith),
            )
            refl

  pub Continues-command :
      (name : Text) {ts mid rest : Tokens} {lhs rhs e : Expr}
      → env.lookup name ≡ some Arity.binary
      → Reads 0 ts rhs mid
      → Continues 0 (infix_command name lhs rhs) mid e rest
      → Continues 0 lhs (Token.ident name ∷ ts) e rest
  unfolding parse_infix name_of
  Continues-command name {ts} {mid} {rest} {lhs} {rhs} {e} known read continue = record {
    runs = run;
    le = omega arith;
  }
    where
      go : breaks 0 (binding env (Token.ident name)) ≡ false
      go = rw (binding-command env name known) (breaks-le 0 0 (omega arith))

      run :
          (fuel : ℕ)
          → 3 * length (Token.ident name ∷ ts) + 1 < fuel
          → parse_infix env fuel 0 lhs (Token.ident name ∷ ts) ≡ ok (e, rest)
      run zero h = absurd (omega arith)
      run (suc zero) h = absurd (omega arith)
      run (suc (suc fuel)) h =
          rw (parse_infix, go, read.runs fuel (omega arith), continue.runs fuel (omega arith)) refl

  pub Starts-paren :
      {ts rest : Tokens} {e : Expr}
      → Reads 0 ts e (Token.r_paren ∷ rest)
      → Starts (Token.l_paren ∷ ts) e rest
  unfolding parse_prefix expect_r_paren
  Starts-paren {ts} {rest} {e} read = record { runs = run; less = omega arith }
    where
      run :
          (fuel : ℕ)
          → 3 * length (Token.l_paren ∷ ts) + 1 < fuel
          → parse_prefix env fuel (Token.l_paren ∷ ts) ≡ ok (e, rest)
      run zero h = absurd (omega arith)
      run (suc fuel) h = rw (read.runs fuel (omega arith)) refl

  pub Starts-unary :
      (op : UnaryOp) {ts rest : Tokens} {e : Expr}
      → Reads 6 ts e rest
      → Starts (unary_token op ∷ ts) (Expr.unary op e) rest
  unfolding parse_prefix unary_token
  Starts-unary op {ts} {rest} {e} read = record { runs = run op; less = omega arith }
    where
      run :
          (op : UnaryOp) (fuel : ℕ)
          → 3 * length (unary_token op ∷ ts) + 1 < fuel
          → parse_prefix env fuel (unary_token op ∷ ts) ≡ ok (Expr.unary op e, rest)
      run op zero h = absurd (omega arith)
      run UnaryOp.neg (suc fuel) h = rw (read.runs fuel (omega arith)) refl
      run UnaryOp.not (suc fuel) h = rw (read.runs fuel (omega arith)) refl

  pub Starts-command :
      (name : Text) {ts rest : Tokens} {e : Expr}
      → lookup_prefix env name ≡ some Arity.unary
      → Reads 7 ts e rest
      → Starts (Token.ident name ∷ ts) (Expr.command (to_ascii_lowercase name) (arg e no_args)) rest
  unfolding parse_prefix
  Starts-command name {ts} {rest} {e} known read = record { runs = run; less = omega arith }
    where
      run :
          (fuel : ℕ)
          → 3 * length (Token.ident name ∷ ts) + 1 < fuel
          → parse_prefix env fuel (Token.ident name ∷ ts)
            ≡ ok (Expr.command (to_ascii_lowercase name) (arg e no_args), rest)
      run zero h = absurd (omega arith)
      run (suc fuel) h = rw (parse_prefix, known, read.runs fuel (omega arith)) refl

  -- An expression of a single token.
  pub Starts-token :
      (t : Token) (e : Expr) (rest : Tokens)
      → ((fuel : ℕ) → parse_prefix env (suc fuel) (t ∷ rest) ≡ ok (e, rest))
      → Starts (t ∷ rest) e rest
  Starts-token t e rest same = record { runs = run; less = omega arith }
    where
      run :
          (fuel : ℕ)
          → 3 * length (t ∷ rest) + 1 < fuel
          → parse_prefix env fuel (t ∷ rest) ≡ ok (e, rest)
      run zero h = absurd (omega arith)
      run (suc fuel) h = same fuel
