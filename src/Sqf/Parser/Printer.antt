-- ===== src/Sqf/Parser/Printer.antt =====
-- A printer of SQF expressions with as few parentheses as the binding powers allow, against which the
-- parser is checked.
use a3sql.Prelude.{
  ℕ, zero, suc, ◌+◌, ◌^◌, ◌<◌, ◌≡◌, Bool, true, false, some, none, [], ◌∷◌, ◌++◌, ltb,
  if◌then◌else◌,
}
use a3sql.Prelude.Int.{pos, negsuc}
use a3sql.Prelude.Text.{Text, to_decimal, int_text}
use a3sql.Sqf.Token.{Token}
use a3sql.Sqf.Parser.{Tokens, lookup_prefix, has_point}
use a3sql.Sqf.Parser.Syntax.{Arity, Env, Expr, no_args, arg, to_ascii_lowercase}
use a3sql.Sqf.Parser.Reads.{op_token, level, unary_token}

abbrev pub parens : Tokens → Tokens
parens ts = Token.l_paren ∷ (ts ++ (Token.r_paren ∷ []))

abbrev pub parens_if : Bool → Tokens → Tokens
parens_if b ts = if b then parens ts else ts

-- Only the whole expression and what stands in parentheses or behind a command is printed at 0.
abbrev pub parens_inside : ℕ → Tokens → Tokens
parens_inside zero ts = ts
parens_inside (suc k) ts = parens ts

abbrev bool_token : Bool → Token
bool_token true = Token.keyword_true
bool_token false = Token.keyword_false

-- How a float is written is left open.
module _ (env : Env) (print_float : ℕ → Text) where
  -- `emit k e` can stand where the parser reads with binding power `k`.
  unfoldable pub emit : ℕ → Expr → Tokens
  unfolding op_token unary_token
  emit k (Expr.int (pos n)) = Token.number (to_decimal n) ∷ []
  emit k (Expr.int (negsuc n)) = Token.number (int_text (negsuc n)) ∷ []
  emit k (Expr.float w) = Token.number (print_float w) ∷ []
  emit k (Expr.string s) = Token.string s ∷ []
  emit k (Expr.bool b) = bool_token b ∷ []
  emit k Expr.null = Token.keyword_nil ∷ []
  emit k (Expr.variable name) = Token.ident name ∷ []
  emit k (Expr.unary op e) = unary_token op ∷ emit 6 e
  emit k (Expr.binary op a b) =
      parens_if (ltb (level op) k) (emit (level op) a ++ (op_token op ∷ emit (level op + 1) b))
  emit k (Expr.command name no_args) = Token.ident name ∷ []
  emit k (Expr.command name (arg e no_args)) = Token.ident name ∷ emit 7 e
  emit k (Expr.command name (arg a (arg b _))) =
      parens_inside k (emit 1 a ++ (Token.ident name ∷ emit 0 b))

  -- The expressions that the parser can build: numbers without a sign and in range, names with the
  -- arity they are used with, commands in lower case.
  unfoldable pub IsPrintable : Expr → Type 0
  IsPrintable (Expr.int (pos n)) = n < 2 ^ 63
  IsPrintable (Expr.int (negsuc n)) = ⊥
  IsPrintable (Expr.float w) =
      (has_point (print_float w) ≡ true) × (env.parse_float (print_float w) ≡ some w)
  IsPrintable (Expr.variable name) = lookup_prefix env name ≡ none
  IsPrintable (Expr.unary op e) = IsPrintable e
  IsPrintable (Expr.binary op a b) = IsPrintable a × IsPrintable b
  IsPrintable (Expr.command name no_args) =
      (lookup_prefix env name ≡ some Arity.nular) × (to_ascii_lowercase name ≡ name)
  IsPrintable (Expr.command name (arg e no_args)) =
      (lookup_prefix env name ≡ some Arity.unary) × (to_ascii_lowercase name ≡ name) × IsPrintable e
  IsPrintable (Expr.command name (arg a (arg b no_args))) =
      (env.lookup name ≡ some Arity.binary)
      × (to_ascii_lowercase name ≡ name)
      × IsPrintable a
      × IsPrintable b
  IsPrintable (Expr.command name (arg _ (arg _ (arg _ _)))) = ⊥
  IsPrintable _ = Unit
