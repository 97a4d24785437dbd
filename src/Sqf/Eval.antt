-- ===== src/Sqf/Eval.antt =====
-- sqf/eval.rs: the evaluator of SQF expressions, as a release build runs it: `+`, `-`, `*` and the
-- negation of integers wrap, `/` and `%` panic by zero and on `MIN / -1`.
pub mod Bounds
use a3sql.Prelude.{
  ℕ, Bool, true, false, ◌&&◌, ◌||◌, not, Option, none, some, List, [], ◌∷◌, ◌++◌, map, ite, Result,
  err, ok, if◌then◌else◌, Ordering,
}
use a3sql.Prelude.Int.{ℤ, pos, negsuc, ℤ-discrete}
use a3sql.Prelude.Text.{Text, bytes, int_text}
use a3sql.Prelude.Order.{text_compare}
use a3sql.Prelude.Map.{Map}
use a3sql.Prelude.Wrap.{wrapping_add, wrapping_sub, wrapping_mul, wrapping_neg, int_div, int_rem}
use a3sql.Host.{Host}
use a3sql.Index.{join}
use a3sql.Value.{DbValue, is_null}
use a3sql.Value.Float.{is_zero, partial_cmp}
use a3sql.Functions.Operators.{
  Machine, bool_text, or_equal, is_lt, is_gt, is_le, is_ge, is_empty, float_neg,
}
use a3sql.Sqf.Parser.Syntax.{Expr, Exprs, Op, UnaryOp, no_args, arg}

-- The messages, with the values they print, and what a command reports.
pub data EvalError : Type 0 where
  undefined_variable : Text → EvalError
  cannot_negate cannot_apply_not : DbValue → EvalError
  type_mismatch : DbValue → DbValue → EvalError
  command : Text → EvalError

-- `none` is a panic.
abbrev pub Evaluated : Type 0
Evaluated = Option (Result DbValue EvalError)

abbrev pub value : DbValue → Evaluated
value v = some (ok v)

-- `?`, and then the code behind it.
abbrev pub and_then :
    {V W : Type 0}
    → Option (Result V EvalError)
    → (V → Option (Result W EvalError))
    → Option (Result W EvalError)
and_then none next = none
and_then (some (err e)) next = some (err e)
and_then (some (ok v)) next = next v

abbrev is_eq : Ordering → Bool
is_eq Ordering.eq = true
is_eq _ = false

unfoldable pub to_bool : DbValue → Bool
unfolding is_zero
to_bool (DbValue.bool b) = b
to_bool (DbValue.int n) = ite (ℤ-discrete n (pos 0)) false true
to_bool (DbValue.float f) = not (is_zero f)
to_bool DbValue.null = false
to_bool (DbValue.string s) = not (is_empty s)
to_bool _ = true

abbrev pub is_string : DbValue → Bool
is_string (DbValue.string s) = true
is_string _ = false

module _ {E : Type 0} (host : Host E) (machine : Machine) where
  unfoldable pub value_str : DbValue → Text
  unfolding join bool_text
  value_str DbValue.null = bytes "nil"
  value_str (DbValue.bool b) = bool_text b
  value_str (DbValue.int n) = int_text n
  value_str (DbValue.float f) = host.float_text f
  value_str (DbValue.string s) = s
  value_str (DbValue.strings arr) = join (bytes ",") arr
  value_str (DbValue.floats arr) = join (bytes ",") (map host.float_text arr)

  unfoldable pub to_f64 : DbValue → Option ℕ
  to_f64 (DbValue.int n) = some (host.float_of_int n)
  to_f64 (DbValue.float f) = some f
  to_f64 _ = none

  abbrev pub int_value : Option ℤ → Evaluated
  int_value none = none
  int_value (some n) = value (DbValue.int n)

  abbrev pub float_value : (ℕ → ℕ → ℕ) → DbValue → DbValue → Option ℕ → Option ℕ → Evaluated
  float_value float_op l r (some a) (some b) = value (DbValue.float (float_op a b))
  float_value float_op l r _ _ = some (err (EvalError.type_mismatch l r))

  unfoldable pub arith_op : (ℤ → ℤ → Option ℤ) → (ℕ → ℕ → ℕ) → DbValue → DbValue → Evaluated
  unfolding to_f64
  arith_op int_op float_op DbValue.null r = value DbValue.null
  arith_op int_op float_op l DbValue.null = value DbValue.null
  arith_op int_op float_op (DbValue.int a) (DbValue.int b) = int_value (int_op a b)
  arith_op int_op float_op l r = float_value float_op l r (to_f64 l) (to_f64 r)

  unfoldable pub arith_int : (ℤ → ℤ → Option ℤ) → DbValue → DbValue → Evaluated
  arith_int op DbValue.null r = value DbValue.null
  arith_int op l DbValue.null = value DbValue.null
  arith_int op (DbValue.int a) (DbValue.int b) = int_value (op a b)
  arith_int op l r = some (err (EvalError.type_mismatch l r))

  unfoldable pub add : DbValue → DbValue → Evaluated
  unfolding value_str arith_op wrapping_add
  add l r =
      if is_string l || is_string r
      then value (DbValue.string (value_str l ++ value_str r))
      else arith_op (λ a b. some (wrapping_add a b)) machine.float_add l r

  abbrev order_of : Option ℕ → Option ℕ → Ordering → Ordering
  order_of (some a) (some b) text = or_equal (partial_cmp a b)
  order_of _ _ text = text

  unfoldable pub cmp : (Ordering → Bool) → DbValue → DbValue → Evaluated
  unfolding partial_cmp value_str to_f64
  cmp test l r =
      if is_null l || is_null r
      then value (DbValue.bool false)
      else value (
          DbValue.bool
            (test (order_of (to_f64 l) (to_f64 r) (text_compare (value_str l) (value_str r)))))

  unfoldable pub apply_binary : Op → DbValue → DbValue → Evaluated
  unfolding add arith_op arith_int cmp to_bool wrapping_sub wrapping_mul int_div int_rem
  apply_binary Op.add l r = add l r
  apply_binary Op.sub l r = arith_op (λ a b. some (wrapping_sub a b)) machine.float_sub l r
  apply_binary Op.mul l r = arith_op (λ a b. some (wrapping_mul a b)) machine.float_mul l r
  apply_binary Op.div l r = arith_op int_div machine.float_div l r
  apply_binary Op.modulo l r = arith_int int_rem l r
  apply_binary Op.eq l r = cmp is_eq l r
  apply_binary Op.neq l r = cmp (λ o. not (is_eq o)) l r
  apply_binary Op.lt l r = cmp is_lt l r
  apply_binary Op.gt l r = cmp is_gt l r
  apply_binary Op.le l r = cmp is_le l r
  apply_binary Op.ge l r = cmp is_ge l r
  apply_binary Op.and l r = value (DbValue.bool (to_bool l && to_bool r))
  apply_binary Op.or l r = value (DbValue.bool (to_bool l || to_bool r))

  unfoldable pub apply_unary : UnaryOp → DbValue → Evaluated
  unfolding wrapping_neg float_neg
  apply_unary UnaryOp.neg (DbValue.int n) = value (DbValue.int (wrapping_neg n))
  apply_unary UnaryOp.neg (DbValue.float f) = value (DbValue.float (float_neg f))
  apply_unary UnaryOp.neg v = some (err (EvalError.cannot_negate v))
  apply_unary UnaryOp.not (DbValue.bool b) = value (DbValue.bool (not b))
  apply_unary UnaryOp.not (DbValue.int n) =
      value (DbValue.bool (ite (ℤ-discrete n (pos 0)) true false))
  apply_unary UnaryOp.not v = some (err (EvalError.cannot_apply_not v))

  -- The UTF-8 bytes of a script's characters, and `eval_command` of sqf/commands.rs, `none` where it
  -- panics, as `clamp` does on bounds in the wrong order.
  module _ (encode : Text → Text) (eval_command : Text → List DbValue → Evaluated)
      (bindings : Map DbValue) where
    abbrev pub bound : Text → Option DbValue → Evaluated
    bound name none = some (err (EvalError.undefined_variable name))
    bound name (some v) = value v

    unfoldable mutual
      unfolding apply_binary apply_unary

      pub eval : Expr → Evaluated
      eval (Expr.int n) = value (DbValue.int n)
      eval (Expr.float f) = value (DbValue.float f)
      eval (Expr.string s) = value (DbValue.string (encode s))
      eval (Expr.bool b) = value (DbValue.bool b)
      eval Expr.null = value DbValue.null
      eval (Expr.variable name) = bound (encode name) (bindings (encode name))
      eval (Expr.command name args) =
          and_then (eval_args args) λ evaluated. eval_command name evaluated
      eval (Expr.unary op rhs) = and_then (eval rhs) λ r. apply_unary op r
      eval (Expr.binary op lhs rhs) =
          and_then (eval lhs) λ l. and_then (eval rhs) λ r. apply_binary op l r

      pub eval_args : Exprs → Option (Result (List DbValue) EvalError)
      eval_args no_args = some (ok [])
      eval_args (arg e args) =
          and_then (eval e) λ v. and_then (eval_args args) λ vs. some (ok (v ∷ vs))
