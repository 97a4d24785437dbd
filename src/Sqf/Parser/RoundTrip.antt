-- ===== src/Sqf/Parser/RoundTrip.antt =====
-- The parser of SQF expressions on what the printer gives.
use a3sql.Prelude.{
  ℕ, zero, suc, ◌+◌, ◌*◌, ◌^◌, ◌<◌, ◌≤◌, ◌≡◌, refl, true, false, some, [], ◌∷◌, ◌++◌, append_assoc,
  append-nil, arith, length, ok, ltb, Bool-cases, inl, inr, ◌/◌, ◌%◌,
}
use a3sql.Prelude.Int.{pos, negsuc}
use a3sql.Prelude.Text.{Text, to_decimal, digits, int_text}
use a3sql.Prelude.ParseInt.{parse_int, parse_int-int_text}
use a3sql.Sqf.Token.{Token}
use a3sql.Sqf.Parser.{
  Tokens, parse_prefix, parse, finish, lookup_prefix, breaks, binding, has_point, number_literal,
}
use a3sql.Sqf.Parser.Syntax.{
  Arity, Env, Expr, Op, UnaryOp, no_args, arg, to_ascii_lowercase, precedence,
}
use a3sql.Sqf.Parser.Reads.{
  Reads, Continues, Stops, Stops-le, Starts-Continues, Continues-stop, Continues-op, Stops-command,
  Continues-command, Starts-paren, Starts-unary, Starts-command, Starts-token, op_token, level,
}
use a3sql.Sqf.Parser.Printer.{parens, emit, IsPrintable}

has_point-digits :
    (fuel n : ℕ) (rest : Text) → has_point rest ≡ false → has_point (digits fuel n ++ rest) ≡ false
unfolding digits has_point
has_point-digits zero n rest h = h
has_point-digits (suc fuel) n rest h = elim (Bool-cases (ltb n 10)) [
  | inl small ↦ ground arith
  | inr large ↦
      rw (large, append_assoc)
        (has_point-digits fuel (n / 10) ((b'0' + n % 10) ∷ rest) (ground arith))
]

has_point-to_decimal : (n : ℕ) → has_point (to_decimal n) ≡ false
unfolding to_decimal has_point
has_point-to_decimal n = rw append-nil at (has_point-digits (suc n) n [] refl)

parse_int-to_decimal : (n : ℕ) → n < 2 ^ 63 → parse_int (to_decimal n) ≡ some (pos n)
unfolding int_text
parse_int-to_decimal n small = parse_int-int_text (pos n) small

precedence-le : (t : Token) → precedence t ≤ 5
unfolding precedence
precedence-le Token.or = omega arith
precedence-le _ = omega arith

module _ (env : Env) (print_float : ℕ → Text) where
  -- What may follow an expression printed at `k`: at 0 nothing that continues it, above 0 an operator
  -- that binds at most as strongly.
  abbrev behind : ℕ → ℕ
  behind zero = zero
  behind (suc k) = suc (suc k)

  -- The printed expression is read, and the parser goes on with it as its left operand.
  abbrev IsRead : Expr → Type 0
  IsRead e =
      (k min_prec : ℕ) (rest left : Tokens) (e' : Expr)
      → min_prec ≤ k
      → Stops env (behind k) rest
      → Continues env min_prec e rest e' left
      → Reads env min_prec (emit env print_float k e ++ rest) e' left

  Stops-r_paren : (k : ℕ) (ts : Tokens) → Stops env k (Token.r_paren ∷ ts)
  unfolding breaks binding
  Stops-r_paren k ts = refl

  Stops-op : (op : Op) (ts : Tokens) → Stops env (behind (level op)) (op_token op ∷ ts)
  unfolding breaks binding op_token precedence
  Stops-op Op.add ts = refl
  Stops-op _ ts = refl

  -- No operator binds as strongly as a prefix.
  Stops-prefix : (k : ℕ) (ts : Tokens) → 6 ≤ k → Stops env k ts
  unfolding breaks binding
  Stops-prefix k [] h = tt
  Stops-prefix k (t ∷ ts) h = ground (arith, precedence-le t)

  behind-le : (k : ℕ) → (k ≤ behind k) × (behind k ≤ suc k)
  behind-le zero = (omega arith, omega arith)
  behind-le (suc k) = (omega arith, omega arith)

  Reads-parens :
      {min_prec : ℕ} {e e' : Expr} (ts : Tokens) {rest left : Tokens}
      → Reads env 0 (ts ++ (Token.r_paren ∷ rest)) e (Token.r_paren ∷ rest)
      → Continues env min_prec e rest e' left
      → Reads env min_prec (parens ts ++ rest) e' left
  Reads-parens ts inner more = rw append_assoc (Starts-Continues env (Starts-paren env inner) more)

  IsRead-token :
      (t : Token) (e : Expr)
      → ((k : ℕ) → emit env print_float k e ≡ t ∷ [])
      → ((fuel : ℕ) (rest : Tokens) → parse_prefix env (suc fuel) (t ∷ rest) ≡ ok (e, rest))
      → IsRead e
  IsRead-token t e printed start k min_prec rest left e' le stop more =
      rw printed (Starts-Continues env (Starts-token env t e rest λ fuel. start fuel rest) more)

  number-Starts :
      (n fuel : ℕ) (rest : Tokens)
      → n < 2 ^ 63
      → parse_prefix env (suc fuel) (Token.number (to_decimal n) ∷ rest)
        ≡ ok (Expr.int (pos n), rest)
  unfolding parse_prefix
  number-Starts n fuel rest small =
      rw (number_literal, has_point-to_decimal n, parse_int-to_decimal n small) refl

  -- Both operands are printed so that the parser takes them as the operands of this operator.
  Reads-operands :
      (op : Op) (a b : Expr)
      → IsRead a
      → IsRead b
      → (k min_prec : ℕ) (rest left : Tokens) (e' : Expr) → min_prec ≤ k
      → k ≤ level op
      → Stops env (suc (level op)) rest
      → Continues env min_prec (Expr.binary op a b) rest e' left
      → Reads env min_prec
          ((emit env print_float (level op) a
              ++ (op_token op ∷ emit env print_float (level op + 1) b))
            ++ rest)
          e'
          left
  Reads-operands op a b read_a read_b k min_prec rest left e' le low stop more = rw append_assoc (
      read_a (level op) min_prec (op_token op ∷ (emit env print_float (level op + 1) b ++ rest))
        left e' (omega arith) (Stops-op op (emit env print_float (level op + 1) b ++ rest))
        (Continues-op env min_prec op (omega arith) right more))
    where
      right : Reads env (level op + 1) (emit env print_float (level op + 1) b ++ rest) b rest
      right =
          let high = behind-le (level op + 1) in
          read_b (level op + 1) (level op + 1) rest rest b (omega arith)
            (Stops-le env (suc (level op)) (behind (level op + 1)) rest (omega arith) stop)
            (Continues-stop env (level op + 1) b rest
              (Stops-le env (suc (level op)) (level op + 1) rest (omega arith) stop))

  Reads-command_operands :
      (name : Text) (a b : Expr)
      → env.lookup name ≡ some Arity.binary
      → to_ascii_lowercase name ≡ name
      → IsRead a
      → IsRead b
      → (rest left : Tokens) (e' : Expr) → Stops env 0 rest
      → Continues env 0 (Expr.command name (arg a (arg b no_args))) rest e' left
      → Reads env 0
          ((emit env print_float 1 a ++ (Token.ident name ∷ emit env print_float 0 b)) ++ rest)
          e'
          left
  Reads-command_operands name a b known lower read_a read_b rest left e' stop more =
      rw append_assoc (
        read_a 1 0 (Token.ident name ∷ (emit env print_float 0 b ++ rest)) left e' (omega arith)
          (Stops-command env name 2 (emit env print_float 0 b ++ rest) known (omega arith))
          (Continues-command env name known
            (read_b 0 0 rest rest b (omega arith) stop (Continues-stop env 0 b rest stop))
            (rw lower more)))

  emit-IsRead_binary : (op : Op) (a b : Expr) → IsRead a → IsRead b → IsRead (Expr.binary op a b)
  unfolding emit
  emit-IsRead_binary op a b read_a read_b k min_prec rest left e' le stop more =
      elim (Bool-cases (ltb (level op) k)) [
        | inl high ↦ rw high (
            Reads-parens
              (emit env print_float (level op) a
                ++ (op_token op ∷ emit env print_float (level op + 1) b))
              (Reads-operands op a b read_a read_b 0 0 (Token.r_paren ∷ rest) (Token.r_paren ∷ rest)
                (Expr.binary op a b) (omega arith) (omega arith)
                (Stops-r_paren (suc (level op)) rest)
                (Continues-stop env 0 (Expr.binary op a b) (Token.r_paren ∷ rest)
                  (Stops-r_paren 0 rest)))
              more)
        | inr low ↦
            let bounds = behind-le k in
            let small : k ≤ level op = ground arith in
            rw low (
              Reads-operands op a b read_a read_b k min_prec rest left e' le small
                (Stops-le env (behind k) (suc (level op)) rest (omega arith) stop) more)
      ]

  emit-IsRead_command :
      (name : Text) (a b : Expr)
      → env.lookup name ≡ some Arity.binary
      → to_ascii_lowercase name ≡ name
      → IsRead a
      → IsRead b
      → IsRead (Expr.command name (arg a (arg b no_args)))
  unfolding emit
  emit-IsRead_command name a b known lower read_a read_b zero min_prec rest left e' le stop more =
      let none_above : min_prec ≡ 0 = omega arith in
      rw none_above (
        Reads-command_operands name a b known lower read_a read_b rest left e' stop
          (rw none_above at more))
  emit-IsRead_command name a b known lower read_a read_b (suc k) min_prec rest left e' le stop
        more =
      Reads-parens (emit env print_float 1 a ++ (Token.ident name ∷ emit env print_float 0 b))
        (Reads-command_operands name a b known lower read_a read_b (Token.r_paren ∷ rest)
          (Token.r_paren ∷ rest) (Expr.command name (arg a (arg b no_args))) (Stops-r_paren 0 rest)
          (Continues-stop env 0 (Expr.command name (arg a (arg b no_args))) (Token.r_paren ∷ rest)
            (Stops-r_paren 0 rest)))
        more

  -- The operand of a prefix.
  IsRead-argument :
      (k : ℕ) (e : Expr) (rest : Tokens)
      → 6 ≤ k
      → IsRead e
      → Reads env k (emit env print_float k e ++ rest) e rest
  IsRead-argument k e rest h read_e =
      let high = behind-le k in
      read_e k k rest rest e (omega arith) (Stops-prefix (behind k) rest (omega arith))
        (Continues-stop env k e rest (Stops-prefix k rest h))

  emit-IsRead_unary : (op : UnaryOp) (e : Expr) → IsRead e → IsRead (Expr.unary op e)
  unfolding emit
  emit-IsRead_unary op e read_e k min_prec rest left e' le stop more =
      Starts-Continues env (Starts-unary env op (IsRead-argument 6 e rest (omega arith) read_e))
        more

  emit-IsRead_argument :
      (name : Text) (e : Expr)
      → lookup_prefix env name ≡ some Arity.unary
      → to_ascii_lowercase name ≡ name
      → IsRead e
      → IsRead (Expr.command name (arg e no_args))
  unfolding emit
  emit-IsRead_argument name e known lower read_e k min_prec rest left e' le stop more =
      Starts-Continues env
        (Starts-command env name known (IsRead-argument 7 e rest (omega arith) read_e))
        (rw lower more)

  emit-IsRead : (e : Expr) → IsPrintable env print_float e → IsRead e
  unfolding emit IsPrintable parse_prefix
  emit-IsRead (Expr.int (pos n)) p =
      IsRead-token (Token.number (to_decimal n)) (Expr.int (pos n)) (λ k. refl)
        λ fuel rest. number-Starts n fuel rest p
  emit-IsRead (Expr.int (negsuc n)) p = absurd p
  emit-IsRead (Expr.float w) (point, parsed) =
      IsRead-token (Token.number (print_float w)) (Expr.float w) (λ k. refl)
        λ fuel rest. unfold number_literal in rw (number_literal, point, parsed) refl
  emit-IsRead (Expr.string s) p =
      IsRead-token (Token.string s) (Expr.string s) (λ k. refl) λ fuel rest. refl
  emit-IsRead (Expr.bool true) p =
      IsRead-token Token.keyword_true (Expr.bool true) (λ k. refl) λ fuel rest. refl
  emit-IsRead (Expr.bool false) p =
      IsRead-token Token.keyword_false (Expr.bool false) (λ k. refl) λ fuel rest. refl
  emit-IsRead Expr.null p = IsRead-token Token.keyword_nil Expr.null (λ k. refl) λ fuel rest. refl
  emit-IsRead (Expr.variable name) p =
      IsRead-token (Token.ident name) (Expr.variable name) (λ k. refl)
        λ fuel rest. rw (parse_prefix, p) refl
  emit-IsRead (Expr.unary op e) p = emit-IsRead_unary op e (emit-IsRead e p)
  emit-IsRead (Expr.binary op a b) (pa, pb) =
      emit-IsRead_binary op a b (emit-IsRead a pa) (emit-IsRead b pb)
  emit-IsRead (Expr.command name no_args) (known, lower) =
      IsRead-token (Token.ident name) (Expr.command name no_args) (λ k. refl)
        λ fuel rest. rw (parse_prefix, known, lower) refl
  emit-IsRead (Expr.command name (arg e no_args)) (known, lower, p) =
      emit-IsRead_argument name e known lower (emit-IsRead e p)
  emit-IsRead (Expr.command name (arg a (arg b no_args))) (known, lower, pa, pb) =
      emit-IsRead_command name a b known lower (emit-IsRead a pa) (emit-IsRead b pb)
  emit-IsRead (Expr.command name (arg _ (arg _ (arg _ _)))) p = absurd p

  -- Whatever the commands and their arities, an expression with unsigned 64-bit integers,
  -- floats written as the parser reads them, names of the arity they are used with and commands
  -- in lower case is parsed from its tokens, printed with only the parentheses that the binding
  -- powers ask for.
  pub parse-emit :
      (e : Expr) → IsPrintable env print_float e → parse env (emit env print_float 0 e) ≡ ok e
  unfolding parse finish
  parse-emit e p =
      let whole : Reads env 0 (emit env print_float 0 e) e [] =
        rw append-nil at
          (emit-IsRead e p 0 0 [] [] e (omega arith) tt (Continues-stop env 0 e [] tt)) in
      rw (whole.runs (3 * length (emit env print_float 0 e) + 3) (omega arith)) refl
