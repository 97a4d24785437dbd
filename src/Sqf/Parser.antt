-- ===== src/Sqf/Parser.antt =====
-- sqf/parser.rs: the Pratt parser. `Parser` is the tokens from `pos` on, so a parse takes the tokens
-- and returns what is left; the calls run on fuel, and `Settles` has how much they need.
pub mod Syntax
pub mod Settles
pub mod Reads
pub mod Printer
pub mod RoundTrip
use a3sql.Prelude.{
  ℕ, zero, suc, ◌+◌, ◌*◌, Bool, true, false, ◌||◌, not, Option, none, some, List, [], ◌∷◌, map, leb,
  ltb, ◌==◌, if◌then◌else◌, length, Result, err, ok, ◌>>=◌,
}
use a3sql.Prelude.Int.{ℤ}
use a3sql.Prelude.Text.{Text, bytes}
use a3sql.Prelude.ParseInt.{parse_int}
use a3sql.Sqf.Token.{Token}
use a3sql.Sqf.Parser.Syntax.{
  Arity, Env, Expr, Op, UnaryOp, no_args, arg, ParseError, to_ascii_lowercase, precedence,
  is_binary_op, op_from_token,
}

abbrev pub Tokens : Type 0
Tokens = List Token

-- An expression with the tokens that are left.
abbrev pub Parsed : Type 0
Parsed = Result (Expr × Tokens) ParseError

unfoldable pub is_binary_cmd : Env → Token → Bool
is_binary_cmd env (Token.ident name) = is_binary (env.lookup name)
  where
    is_binary : Option Arity → Bool
    is_binary (some Arity.binary) = true
    is_binary _ = false
is_binary_cmd env _ = false

-- `(is_infix_binop, prec)`
unfoldable pub binding : Env → Token → Bool × ℕ
unfolding is_binary_cmd is_binary_op precedence
binding env t =
    if is_binary_cmd env t
    then (true, 0)
    else if is_binary_op t
    then (true, precedence t)
    else (false, 0)

-- `!is_infix_binop || prec < min_prec`
unfoldable pub breaks : ℕ → Bool × ℕ → Bool
breaks min_prec (is_infix_binop, prec) = not is_infix_binop || ltb prec min_prec

unfoldable pub expect_r_paren : Expr → Tokens → Parsed
expect_r_paren e (Token.r_paren ∷ ts) = ok (e, ts)
expect_r_paren e (t ∷ ts) = err (ParseError.expected Token.r_paren (some t))
expect_r_paren e [] = err (ParseError.expected Token.r_paren none)

abbrev float_literal : Text → Tokens → Option ℕ → Parsed
float_literal s ts none = err (ParseError.bad_number s)
float_literal s ts (some w) = ok (Expr.float w, ts)

abbrev int_literal : Text → Tokens → Option ℤ → Parsed
int_literal s ts none = err (ParseError.bad_number s)
int_literal s ts (some n) = ok (Expr.int n, ts)

-- `s.contains('.')`
unfoldable pub has_point : Text → Bool
has_point [] = false
has_point (c ∷ cs) = c == b'.' || has_point cs

unfoldable pub number_literal : Env → Text → Tokens → Parsed
unfolding has_point parse_int
number_literal env s ts =
    if has_point s then float_literal s ts (env.parse_float s) else int_literal s ts (parse_int s)

-- `name.starts_with('_')`
unfoldable pub is_private : Text → Bool
is_private [] = false
is_private (c ∷ cs) = c == b'_'

abbrev pub lookup_prefix : Env → Text → Option Arity
lookup_prefix env name = if is_private name then none else env.lookup (to_ascii_lowercase name)

-- `if let Token::Ident(name)`
unfoldable pub name_of : Token → Option Text
name_of (Token.ident name) = some name
name_of t = none

abbrev pub infix_command : Text → Expr → Expr → Expr
infix_command name lhs rhs = Expr.command (to_ascii_lowercase name) (arg lhs (arg rhs no_args))

unfoldable mutual
  unfolding is_private name_of expect_r_paren breaks binding number_literal op_from_token

  pub parse_bp : Env → ℕ → ℕ → Tokens → Parsed
  parse_bp env zero min_prec ts = err ParseError.out_of_fuel
  parse_bp env (suc fuel) min_prec ts =
      parse_prefix env fuel ts >>= λ (lhs, rest). parse_infix env fuel min_prec lhs rest

  -- The loop of `parse_bp`.
  pub parse_infix : Env → ℕ → ℕ → Expr → Tokens → Parsed
  parse_infix env zero min_prec lhs ts = err ParseError.out_of_fuel
  parse_infix env (suc fuel) min_prec lhs [] = ok (lhs, [])
  parse_infix env (suc fuel) min_prec lhs (t ∷ ts) = elim (breaks min_prec (binding env t)) [
    | true ↦ ok (lhs, t ∷ ts)
    | false ↦ parse_operation env fuel min_prec lhs t ts
  ]

  -- The body of the loop behind its `break`.
  pub parse_operation : Env → ℕ → ℕ → Expr → Token → Tokens → Parsed
  parse_operation env zero min_prec lhs t ts = err ParseError.out_of_fuel
  parse_operation env (suc fuel) min_prec lhs t ts = elim (name_of t) [
    | some name ↦ parse_bp env fuel 0 ts >>= λ (rhs, rest).
        parse_infix env fuel min_prec (infix_command name lhs rhs) rest
    | none ↦ parse_bp env fuel ((binding env t).1 + 1) ts >>= λ (rhs, rest).
        elim (op_from_token t) [
          | none ↦ err (ParseError.unknown_operator t)
          | some op ↦ parse_infix env fuel min_prec (Expr.binary op lhs rhs) rest
        ]
  ]

  pub parse_prefix : Env → ℕ → Tokens → Parsed
  parse_prefix env zero ts = err ParseError.out_of_fuel
  parse_prefix env (suc fuel) [] = err ParseError.unexpected_end
  parse_prefix env (suc fuel) (Token.number s ∷ ts) = number_literal env s ts
  parse_prefix env (suc fuel) (Token.string s ∷ ts) = ok (Expr.string s, ts)
  parse_prefix env (suc fuel) (Token.ident name ∷ ts) = elim (lookup_prefix env name) [
    | none ↦ ok (Expr.variable name, ts)
    | some Arity.nular ↦ ok (Expr.command (to_ascii_lowercase name) no_args, ts)
    | some Arity.unary ↦ parse_bp env fuel 7 ts >>= λ (e, rest).
        ok (Expr.command (to_ascii_lowercase name) (arg e no_args), rest)
    | some Arity.binary ↦ err (ParseError.binary_at_start (to_ascii_lowercase name))
  ]
  parse_prefix env (suc fuel) (Token.keyword_true ∷ ts) = ok (Expr.bool true, ts)
  parse_prefix env (suc fuel) (Token.keyword_false ∷ ts) = ok (Expr.bool false, ts)
  parse_prefix env (suc fuel) (Token.keyword_nil ∷ ts) = ok (Expr.null, ts)
  parse_prefix env (suc fuel) (Token.minus ∷ ts) =
      parse_bp env fuel 6 ts >>= λ (e, rest). ok (Expr.unary UnaryOp.neg e, rest)
  parse_prefix env (suc fuel) (Token.not ∷ ts) =
      parse_bp env fuel 6 ts >>= λ (e, rest). ok (Expr.unary UnaryOp.not e, rest)
  parse_prefix env (suc fuel) (Token.l_paren ∷ ts) =
      parse_bp env fuel 0 ts >>= λ (e, rest). expect_r_paren e rest
  parse_prefix env (suc fuel) (t ∷ ts) = err (ParseError.unexpected_token t)

unfoldable pub finish : Expr × Tokens → Result Expr ParseError
finish (e, []) = ok e
finish (e, t ∷ ts) = err (ParseError.trailing (t ∷ ts))

-- Three units of fuel for each token and three more.
unfoldable pub parse : Env → Tokens → Result Expr ParseError
unfolding parse_bp finish
parse env ts = parse_bp env (3 * length ts + 3) 0 ts >>= finish
