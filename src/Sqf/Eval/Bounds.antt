-- ===== src/Sqf/Eval/Bounds.antt =====
-- The values of SQF expressions against what the machine can hold, and the panics of the evaluator.
use a3sql.Prelude.{
  ℕ, ◌≡◌, refl, inl, inr, Bool, true, false, ◌||◌, not, Option, none, some, List, All, arith,
  Result, err, ok, Bool-cases, Option-cases, Ordering,
}
use a3sql.Prelude.Int.{ℤ, IsI64}
use a3sql.Prelude.Text.{Text}
use a3sql.Prelude.Map.{Map}
use a3sql.Prelude.Wrap.{
  wrapping_add, wrapping_sub, wrapping_mul, int_div, int_rem, wrapping_add-IsI64,
  wrapping_sub-IsI64, wrapping_mul-IsI64, wrapping_neg-IsI64, int_div-IsI64, int_rem-IsI64,
}
use a3sql.Host.{Host}
use a3sql.Value.{DbValue, IsBits, IsMachine, is_null}
use a3sql.Functions.Operators.{Machine, float_neg, is_lt, is_gt, is_le, is_ge}
use a3sql.Functions.Operators.Bounds.{IsFloatUnit}
use a3sql.Sqf.Parser.Syntax.{Expr, Exprs, Op, UnaryOp, no_args, arg}
use a3sql.Sqf.Eval.{
  EvalError, Evaluated, and_then, arith_op, arith_int, is_string, int_value, float_value, to_f64,
  add, cmp, apply_binary, apply_unary, bound, eval, eval_args, is_eq,
}

abbrev pub divides : Op → Bool
divides Op.div = true
divides Op.modulo = true
divides _ = false

abbrev mutual
  -- A `/`, a `%` or a command that is said to be risky stands in the expression.
  pub may_panic : (Text → Bool) → Expr → Bool
  may_panic risky (Expr.binary op a b) = divides op || (may_panic risky a || may_panic risky b)
  may_panic risky (Expr.unary op e) = may_panic risky e
  may_panic risky (Expr.command name args) = risky name || any_may_panic risky args
  may_panic risky _ = false

  pub any_may_panic : (Text → Bool) → Exprs → Bool
  any_may_panic risky no_args = false
  any_may_panic risky (arg e args) = may_panic risky e || any_may_panic risky args

abbrev mutual
  -- The numbers in the expression are of the machine's types.
  pub IsLiteral : Expr → Type 0
  IsLiteral (Expr.int n) = IsI64 n
  IsLiteral (Expr.float w) = IsBits w
  IsLiteral (Expr.command name args) = AllLiteral args
  IsLiteral (Expr.unary op e) = IsLiteral e
  IsLiteral (Expr.binary op a b) = IsLiteral a × IsLiteral b
  IsLiteral _ = Unit

  pub AllLiteral : Exprs → Type 0
  AllLiteral no_args = Unit
  AllLiteral (arg e args) = IsLiteral e × AllLiteral args

-- A value of which `P` holds, or an error, or a panic where `d` says that one may be.
abbrev pub IsSound : {V : Type 0} → Bool → (V → Type 0) → Option (Result V EvalError) → Type 0
IsSound d P none = d ≡ true
IsSound d P (some (err e)) = Unit
IsSound d P (some (ok v)) = P v

or_left : (a b : Bool) → a ≡ true → (a || b) ≡ true
or_left a b h = ground arith

or_right : (a b : Bool) → b ≡ true → (a || b) ≡ true
or_right a b h = ground arith

and_then-IsSound :
    {V W : Type 0} (d : Bool) {d' : Bool} {P : V → Type 0} (Q : W → Type 0)
    (r : Option (Result V EvalError)) (next : V → Option (Result W EvalError))
    → (d' ≡ true → d ≡ true)
    → IsSound d' P r
    → ((v : V) → P v → IsSound d Q (next v))
    → IsSound d Q (and_then r next)
and_then-IsSound d Q none next weaken h k = weaken h
and_then-IsSound d Q (some (err e)) next weaken h k = tt
and_then-IsSound d Q (some (ok v)) next weaken h k = k v h

module _ {E : Type 0} (host : Host E) (machine : Machine) where
  float_value-IsSound :
      (d : Bool) (float_op : ℕ → ℕ → ℕ) (l r : DbValue) (x y : Option ℕ)
      → ((a b : ℕ) → IsBits (float_op a b))
      → IsSound d IsMachine (float_value host machine float_op l r x y)
  float_value-IsSound d float_op l r (some x) (some y) closed = closed x y
  float_value-IsSound d float_op l r none y closed = tt
  float_value-IsSound d float_op l r (some x) none closed = tt

  -- What an integer operation has to do.
  abbrev IsGoodInt : Bool → (ℤ → ℤ → Option ℤ) → Type 0
  IsGoodInt d int_op =
      (x y : ℤ) → IsI64 x → IsI64 y → IsSound d IsMachine (int_value host machine (int_op x y))

  arith-IsSound :
      (d : Bool) (int_op : ℤ → ℤ → Option ℤ) (float_op : ℕ → ℕ → ℕ) (l r : DbValue)
      → IsGoodInt d int_op
      → ((a b : ℕ) → IsBits (float_op a b))
      → IsMachine l
      → IsMachine r
      → IsSound d IsMachine (arith_op host machine int_op float_op l r)
  unfolding arith_op
  arith-IsSound d int_op float_op DbValue.null r good closed ml mr = tt
  arith-IsSound d int_op float_op (DbValue.int x) (DbValue.int y) good closed ml mr = good x y ml mr
  arith-IsSound d int_op float_op l DbValue.null good closed ml mr = tt
  arith-IsSound d int_op float_op l r good closed ml mr =
      float_value-IsSound d float_op l r (to_f64 host machine l) (to_f64 host machine r) closed

  arith_int-IsSound :
      (d : Bool) (int_op : ℤ → ℤ → Option ℤ) (l r : DbValue)
      → IsGoodInt d int_op
      → IsMachine l
      → IsMachine r
      → IsSound d IsMachine (arith_int host machine int_op l r)
  unfolding arith_int
  arith_int-IsSound d int_op DbValue.null r good ml mr = tt
  arith_int-IsSound d int_op (DbValue.int x) (DbValue.int y) good ml mr = good x y ml mr
  arith_int-IsSound d int_op l DbValue.null good ml mr = tt
  arith_int-IsSound d int_op l r good ml mr = tt

  int_div-IsGoodInt : IsGoodInt true int_div
  int_div-IsGoodInt x y hx hy = elim (Option-cases (int_div x y)) [
    | inl e ↦ rw (IsSound, e) refl
    | inr (q, e) ↦ rw (IsSound, e) (int_div-IsI64 x y q hx e)
  ]

  int_rem-IsGoodInt : IsGoodInt true int_rem
  int_rem-IsGoodInt x y hx hy = elim (Option-cases (int_rem x y)) [
    | inl e ↦ rw (IsSound, e) refl
    | inr (q, e) ↦ rw (IsSound, e) (int_rem-IsI64 x y q hx hy e)
  ]

  cmp-IsSound :
      (d : Bool) (test : Ordering → Bool) (l r : DbValue)
      → IsSound d IsMachine (cmp host machine test l r)
  unfolding cmp
  cmp-IsSound d test l r = elim (Bool-cases (is_null l || is_null r)) [
    | inl null ↦ rw (IsSound, null) tt
    | inr values ↦ rw (IsSound, values) tt
  ]

  add-IsSound :
      (l r : DbValue)
      → IsFloatUnit machine
      → IsMachine l
      → IsMachine r
      → IsSound false IsMachine (add host machine l r)
  unfolding add
  add-IsSound l r (plus, _, _, _, _) ml mr = elim (Bool-cases (is_string l || is_string r)) [
    | inl text ↦ rw (IsSound, text) tt
    | inr numbers ↦
        rw (IsSound, numbers)
          (arith-IsSound false (λ a b. some (wrapping_add a b)) machine.float_add l r
            (λ x y _ _. wrapping_add-IsI64 x y) plus ml mr)
  ]

  apply_binary-IsSound :
      (op : Op) (l r : DbValue)
      → IsFloatUnit machine
      → IsMachine l
      → IsMachine r
      → IsSound (divides op) IsMachine (apply_binary host machine op l r)
  unfolding apply_binary
  apply_binary-IsSound Op.add l r unit ml mr = add-IsSound l r unit ml mr
  apply_binary-IsSound Op.sub l r (_, minus, _, _, _) ml mr =
      arith-IsSound false (λ a b. some (wrapping_sub a b)) machine.float_sub l r
        (λ x y _ _. wrapping_sub-IsI64 x y) minus ml mr
  apply_binary-IsSound Op.mul l r (_, _, times, _, _) ml mr =
      arith-IsSound false (λ a b. some (wrapping_mul a b)) machine.float_mul l r
        (λ x y _ _. wrapping_mul-IsI64 x y) times ml mr
  apply_binary-IsSound Op.div l r (_, _, _, over, _) ml mr =
      arith-IsSound true int_div machine.float_div l r int_div-IsGoodInt over ml mr
  apply_binary-IsSound Op.modulo l r unit ml mr =
      arith_int-IsSound true int_rem l r int_rem-IsGoodInt ml mr
  apply_binary-IsSound Op.eq l r unit ml mr = cmp-IsSound false is_eq l r
  apply_binary-IsSound Op.neq l r unit ml mr = cmp-IsSound false (λ o. not (is_eq o)) l r
  apply_binary-IsSound Op.lt l r unit ml mr = cmp-IsSound false is_lt l r
  apply_binary-IsSound Op.gt l r unit ml mr = cmp-IsSound false is_gt l r
  apply_binary-IsSound Op.le l r unit ml mr = cmp-IsSound false is_le l r
  apply_binary-IsSound Op.ge l r unit ml mr = cmp-IsSound false is_ge l r
  apply_binary-IsSound Op.and l r unit ml mr = tt
  apply_binary-IsSound Op.or l r unit ml mr = tt

  apply_unary-IsSound :
      (d : Bool) (op : UnaryOp) (v : DbValue)
      → IsMachine v
      → IsSound d IsMachine (apply_unary host machine op v)
  unfolding apply_unary float_neg
  apply_unary-IsSound d UnaryOp.neg (DbValue.int n) m = wrapping_neg-IsI64 n m
  apply_unary-IsSound d UnaryOp.neg (DbValue.float w) m = ground arith
  apply_unary-IsSound d UnaryOp.neg _ m = tt
  apply_unary-IsSound d UnaryOp.not (DbValue.bool b) m = tt
  apply_unary-IsSound d UnaryOp.not (DbValue.int n) m = tt
  apply_unary-IsSound d UnaryOp.not _ m = tt

  module _ (encode : Text → Text) (eval_command : Text → List DbValue → Evaluated)
      (bindings : Map DbValue) (risky : Text → Bool) where
    -- Commands and variables give values that the machine can hold, and only risky commands panic.
    abbrev pub IsScope : Type 0
    IsScope =
        ((name : Text) (vs : List DbValue)
          → All IsMachine vs
          → IsSound (risky name) IsMachine (eval_command name vs))
        × ((name : Text)
            → IsSound false IsMachine
                (bound host machine encode eval_command bindings name (bindings name)))

    abbrev evaluated : Expr → Evaluated
    evaluated e = eval host machine encode eval_command bindings e

    abbrev evaluated_args : Exprs → Option (Result (List DbValue) EvalError)
    evaluated_args args = eval_args host machine encode eval_command bindings args

    Sound-or : (d d' : Bool) (r : Evaluated) → IsSound d IsMachine r → IsSound (d || d') IsMachine r
    Sound-or d d' none h = ground arith
    Sound-or d d' (some (err e)) h = tt
    Sound-or d d' (some (ok v)) h = h

    mutual
      unfolding eval

      evaluated-IsSound :
          (e : Expr)
          → IsFloatUnit machine
          → IsScope
          → IsLiteral e
          → IsSound (may_panic risky e) IsMachine (eval host machine encode eval_command bindings e)
      evaluated-IsSound (Expr.int n) unit scope lit = lit
      evaluated-IsSound (Expr.float w) unit scope lit = lit
      evaluated-IsSound (Expr.string s) unit scope lit = tt
      evaluated-IsSound (Expr.bool b) unit scope lit = tt
      evaluated-IsSound Expr.null unit scope lit = tt
      evaluated-IsSound (Expr.variable name) unit (commands, variables) lit =
          variables (encode name)
      evaluated-IsSound (Expr.command name args) unit (commands, variables) lit =
          and_then-IsSound (risky name || any_may_panic risky args) IsMachine (evaluated_args args)
            _ (or_right (risky name) (any_may_panic risky args))
            (eval_args-IsSound args unit (commands, variables) lit)
            λ vs ms.
              Sound-or (risky name) (any_may_panic risky args) (eval_command name vs)
                (commands name vs ms)
      evaluated-IsSound (Expr.unary op rhs) unit scope lit =
          and_then-IsSound (may_panic risky rhs) IsMachine (evaluated rhs) _ (λ d. d)
            (evaluated-IsSound rhs unit scope lit)
            λ r m. apply_unary-IsSound (may_panic risky rhs) op r m
      evaluated-IsSound (Expr.binary op lhs rhs) unit scope (left, right) =
          let d : Bool = divides op || (may_panic risky lhs || may_panic risky rhs) in
          and_then-IsSound d IsMachine (evaluated lhs) _
            (λ q. or_right (divides op) _ (or_left (may_panic risky lhs) (may_panic risky rhs) q))
            (evaluated-IsSound lhs unit scope left)
            λ l ml.
              and_then-IsSound d IsMachine (evaluated rhs) _
                (λ q.
                  or_right (divides op) _ (or_right (may_panic risky lhs) (may_panic risky rhs) q))
                (evaluated-IsSound rhs unit scope right)
                λ r mr.
                  Sound-or (divides op) (may_panic risky lhs || may_panic risky rhs)
                    (apply_binary host machine op l r) (apply_binary-IsSound op l r unit ml mr)

      eval_args-IsSound :
          (args : Exprs)
          → IsFloatUnit machine
          → IsScope
          → AllLiteral args
          → IsSound
              (any_may_panic risky args)
              (All IsMachine)
              (eval_args host machine encode eval_command bindings args)
      eval_args-IsSound no_args unit scope lit = tt
      eval_args-IsSound (arg e args) unit scope (first, others) =
          let d : Bool = may_panic risky e || any_may_panic risky args in
          and_then-IsSound d (All IsMachine) (evaluated e) _
            (or_left (may_panic risky e) (any_may_panic risky args))
            (evaluated-IsSound e unit scope first)
            λ v m.
              and_then-IsSound d (All IsMachine) (evaluated_args args) _
                (or_right (may_panic risky e) (any_may_panic risky args))
                (eval_args-IsSound args unit scope others) λ vs ms. (m, ms)

    -- If the float arithmetic gives floats, commands and variables give values of the machine's
    -- types, only commands said to be risky panic, and the numbers in the expression are of the
    -- machine's types, the evaluation of an SQF expression gives a value of these types or an
    -- error, and panics only if a division, a remainder or a risky command stands in the
    -- expression.
    pub eval-IsSound :
        (e : Expr)
        → IsFloatUnit machine
        → IsScope
        → IsLiteral e
        → IsSound (may_panic risky e) IsMachine (eval host machine encode eval_command bindings e)
    eval-IsSound e unit scope lit = evaluated-IsSound e unit scope lit
