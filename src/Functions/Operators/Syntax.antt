-- ===== src/Functions/Operators/Syntax.antt =====
-- The operators of sqlparser, and the errors of functions/eval/ops.rs.
use a3sql.Prelude.Text.{Text}
use a3sql.Value.{DbValue}

-- sqlparser's operators: those that the code names, and any other.
pub data BinaryOperator : Type 0 where
  eq not_eq lt lt_eq gt gt_eq : BinaryOperator
  plus minus multiply divide modulo : BinaryOperator
  and or string_concat regexp match_operator : BinaryOperator
  other : Text → BinaryOperator

pub data UnaryOperator : Type 0 where
  not plus minus : UnaryOperator
  other : Text → UnaryOperator

-- The errors of this file, with what they print.
pub data OpError : Type 0 where
  division_by_zero : OpError
  numeric_type numeric_operands : DbValue → DbValue → OpError
  numeric : DbValue → OpError
  unsupported_operator unsupported_unary_operator : Text → OpError
