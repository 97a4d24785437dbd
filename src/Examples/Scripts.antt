-- ===== src/Examples/Scripts.antt =====
-- The theorems on SQF scripts at concrete texts and expressions.
use a3sql.Prelude.{
  Bool, ◌≡◌, refl, true, false, none, some, List, [], ◌∷◌, map, arith, err, ok, ite, inr,
}
use a3sql.Prelude.Int.{pos}
use a3sql.Prelude.Map
use a3sql.Prelude.Text.{Text, Text-discrete, bytes}
use a3sql.Index.{join}
use a3sql.Value.{DbValue, IsMachine}
use a3sql.Sqf.Token.{Token, display}
use a3sql.Sqf.Lexer.{Unicode, LexError, tokenize, word_token}
use a3sql.Sqf.Lexer.Parts.{IsNumber}
use a3sql.Sqf.Lexer.RoundTrip.{IsToken, tokenize-display}
use a3sql.Sqf.Lexer.Settles.{tokenize_terminates}
use a3sql.Sqf.Parser.{parse, is_private}
use a3sql.Sqf.Parser.Syntax.{
  Arity, Env, Expr, Op, UnaryOp, ParseError, no_args, arg, to_ascii_lowercase,
}
use a3sql.Sqf.Parser.Printer.{emit, IsPrintable}
use a3sql.Sqf.Parser.RoundTrip.{parse-emit}
use a3sql.Sqf.Parser.Settles.{parse_terminates}
use a3sql.Sqf.Eval.{Evaluated, eval}
use a3sql.Sqf.Eval.Bounds.{IsSound, IsScope, may_panic, eval-IsSound}
use a3sql.Examples.{example_host, example_machine, example_machine-IsFloatUnit}

-- No character but the ASCII ones is a space or a letter.
abbrev ascii_only : Unicode
ascii_only = record { is_whitespace = λ c. false; is_alphanumeric = λ c. false }

-- `abs` takes one operand and `min` two.
abbrev two_commands : Env
two_commands = record {
  lookup = λ name.
      ite (Text-discrete name (bytes "abs")) (some Arity.unary)
        (ite (Text-discrete name (bytes "min")) (some Arity.binary) none);
  parse_float = λ s. none;
}

-- _x <= 4.5
abbrev comparison : List Token
comparison = Token.ident (bytes "_x") ∷ Token.le ∷ Token.number (bytes "4.5") ∷ []

IsNumber-literal : IsNumber (bytes "4.5")
IsNumber-literal = (bytes "4", omega arith, (refl, tt), inr (bytes "5", (refl, tt), refl))

tokenize-display_example :
    tokenize ascii_only (join (bytes " ") (map display comparison)) ≡ ok comparison
unfolding IsToken word_token Text-discrete
tokenize-display_example =
    tokenize-display ascii_only comparison ((refl, (refl, tt), refl), (tt, (IsNumber-literal, tt)))

tokenize_terminates_example : ¬ (tokenize ascii_only (bytes "a\"") ≡ err LexError.out_of_fuel)
tokenize_terminates_example = tokenize_terminates ascii_only (bytes "a\"")

-- abs _x * (1 - 2) min !true
abbrev script : Expr
script = Expr.command (bytes "min") (
    arg
      (Expr.binary Op.mul (Expr.command (bytes "abs") (arg (Expr.variable (bytes "_x")) no_args))
        (Expr.binary Op.sub (Expr.int (pos 1)) (Expr.int (pos 2))))
      (arg (Expr.unary UnaryOp.not (Expr.bool true)) no_args))

parse-emit_example : parse two_commands (emit two_commands (λ w. []) 0 script) ≡ ok script
unfolding IsPrintable to_ascii_lowercase Text-discrete is_private
parse-emit_example =
    parse-emit two_commands (λ w. []) script
      (refl, refl, ((refl, refl, refl), (omega arith, omega arith)), tt)

parse_terminates_example :
    ¬ (parse two_commands (Token.l_paren ∷ Token.minus ∷ []) ≡ err ParseError.out_of_fuel)
parse_terminates_example = parse_terminates two_commands (Token.l_paren ∷ Token.minus ∷ [])

abbrev is_clamp : Text → Bool
is_clamp name = ite (Text-discrete name (bytes "clamp")) true false

-- `clamp` panics, every other command gives NULL, and no variable is bound.
abbrev clamp_only : Text → List DbValue → Evaluated
clamp_only name vs = ite (Text-discrete name (bytes "clamp")) none (some (ok DbValue.null))

clamp_only-IsSound :
    {P : Type 0} (d : Dec P)
    → IsSound (ite d true false) IsMachine (ite d none (some (ok DbValue.null)))
clamp_only-IsSound (yes p) = refl
clamp_only-IsSound (no q) = tt

example-IsScope : IsScope example_host example_machine (λ s. s) clamp_only Map.empty is_clamp
example-IsScope =
    (λ name vs ms. clamp_only-IsSound (Text-discrete name (bytes "clamp")), λ name. tt)

-- 7 / 0
abbrev by_zero : Expr
by_zero = Expr.binary Op.div (Expr.int (pos 7)) (Expr.int (pos 0))

eval-IsSound_example :
    IsSound
      (may_panic is_clamp by_zero)
      IsMachine
      (eval example_host example_machine (λ s. s) clamp_only Map.empty by_zero)
eval-IsSound_example =
    eval-IsSound example_host example_machine (λ s. s) clamp_only Map.empty is_clamp by_zero
      example_machine-IsFloatUnit example-IsScope (omega arith, omega arith)

-- An integer division by zero panics.
by_zero-panics : eval example_host example_machine (λ s. s) clamp_only Map.empty by_zero ≡ none
unfolding eval
by_zero-panics = refl
