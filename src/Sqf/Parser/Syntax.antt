-- ===== src/Sqf/Parser/Syntax.antt =====
-- sqf/parser.rs: the syntax tree, the operators and their precedence.
use a3sql.Prelude.{
  ℕ, ◌+◌, Bool, true, false, ◌&&◌, Option, none, some, List, map, leb, if◌then◌else◌,
}
use a3sql.Prelude.Int.{ℤ}
use a3sql.Prelude.Text.{Text}
use a3sql.Sqf.Token.{Token}

pub data Op : Type 0 where
  add sub mul div modulo eq neq lt gt le ge and or : Op

pub data UnaryOp : Type 0 where
  neg not : UnaryOp

-- `Exprs` is the `Vec` of a command's arguments.
mutual
  pub data Expr : Type 0 where
    int : ℤ → Expr
    float : ℕ → Expr
    string : Text → Expr
    bool : Bool → Expr
    null : Expr
    variable : Text → Expr
    command : Text → Exprs → Expr
    binary : Op → Expr → Expr → Expr
    unary : UnaryOp → Expr → Expr

  pub data Exprs : Type 0 where
    no_args : Exprs
    arg : Expr → Exprs → Exprs

-- `Arity` of sqf/database.rs.
pub data Arity : Type 0 where
  nular unary binary : Arity

-- `database::lookup`, and Rust's `s.parse::<f64>()`.
pub record Env : Type 0 where
  pub lookup : Text → Option Arity
  pub parse_float : Text → Option ℕ

-- The messages of the parser, with the values they print.
pub data ParseError : Type 0 where
  unexpected_end out_of_fuel : ParseError
  bad_number : Text → ParseError
  binary_at_start : Text → ParseError
  unexpected_token unknown_operator : Token → ParseError
  expected : Token → Option Token → ParseError
  trailing : List Token → ParseError

abbrev lower_char : ℕ → ℕ
lower_char c = if leb b'A' c && leb c b'Z' then c + 32 else c

unfoldable pub to_ascii_lowercase : Text → Text
to_ascii_lowercase s = map lower_char s

unfoldable pub precedence : Token → ℕ
precedence Token.or = 1
precedence Token.and = 2
precedence Token.eq = 3
precedence Token.neq = 3
precedence Token.lt = 3
precedence Token.gt = 3
precedence Token.le = 3
precedence Token.ge = 3
precedence Token.plus = 4
precedence Token.minus = 4
precedence Token.star = 5
precedence Token.slash = 5
precedence Token.percent = 5
precedence _ = 0

unfoldable pub is_binary_op : Token → Bool
is_binary_op Token.plus = true
is_binary_op Token.minus = true
is_binary_op Token.star = true
is_binary_op Token.slash = true
is_binary_op Token.percent = true
is_binary_op Token.eq = true
is_binary_op Token.neq = true
is_binary_op Token.lt = true
is_binary_op Token.gt = true
is_binary_op Token.le = true
is_binary_op Token.ge = true
is_binary_op Token.and = true
is_binary_op Token.or = true
is_binary_op _ = false

unfoldable pub op_from_token : Token → Option Op
op_from_token Token.plus = some Op.add
op_from_token Token.minus = some Op.sub
op_from_token Token.star = some Op.mul
op_from_token Token.slash = some Op.div
op_from_token Token.percent = some Op.modulo
op_from_token Token.eq = some Op.eq
op_from_token Token.neq = some Op.neq
op_from_token Token.lt = some Op.lt
op_from_token Token.gt = some Op.gt
op_from_token Token.le = some Op.le
op_from_token Token.ge = some Op.ge
op_from_token Token.and = some Op.and
op_from_token Token.or = some Op.or
op_from_token _ = none
