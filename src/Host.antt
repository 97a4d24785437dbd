-- ===== src/Host.antt =====
-- What the engine takes from outside the repository: Rust's conversions of floats and of letter case, and the
-- sqlparser crate's syntax nodes, which are the type `E`. The engine's own evaluator of a DEFAULT
-- expression walks those nodes; it enters here as a function too.
use a3sql.Prelude.{ℕ, ◌≡◌, ◌⊎◌, true, Option, Result}
use a3sql.Prelude.Int.{ℤ}
use a3sql.Prelude.Text.{Text}
use a3sql.Error.{EngineError}
use a3sql.Value.{DbValue}
use a3sql.Value.Float.{is_nan}

pub record Host (E : Type 0) : Type 0 where
  -- `f.to_string()`, `s.parse::<f64>()`, `n as f64` and `f as i64`
  pub float_text : ℕ → Text
  pub parse_float : Text → Option ℕ
  pub float_of_int : ℤ → ℕ
  pub int_of_float : ℕ → ℤ
  -- `s.to_lowercase()` and `String::from_utf8_lossy`
  pub to_lowercase : Text → Text
  pub from_utf8_lossy : Text → Text
  -- the `Display` of a node, and `Expr::Identifier(Ident::new(s))`
  pub expr_text : E → Text
  pub identifier : Text → E
  -- `eval_literal_expr` of engine/functions/eval/expr.rs
  pub eval_literal_expr : E → Result DbValue EngineError

-- Rust's `Display` of an `f64` prints the shortest text that parses back to the value, and `NaN` for
-- every NaN: two floats with one text are the same bits, or both are NaN.
abbrev pub IsShortest : {E : Type 0} → Host E → Type 0
IsShortest host =
    (x y : ℕ)
    → host.float_text x ≡ host.float_text y
    → (x ≡ y) ⊎ ((is_nan x ≡ true) × (is_nan y ≡ true))
