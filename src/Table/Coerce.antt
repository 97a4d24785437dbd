-- ===== src/Table/Coerce.antt =====
-- engine/table/schema.rs: type affinity, and engine/table/row_ops.rs: the checks of one row.
pub mod Settled
pub mod Stored
use a3sql.Prelude.{
  ℕ, ◌≡◌, Bool, true, false, ◌&&◌, Option, none, some, List, [], ◌∷◌, Result, ok, err, ◌>>=◌, ◌>>◌,
  if◌then◌else◌,
}
use a3sql.Prelude.Text.{Text, int_text}
use a3sql.Prelude.ParseInt.{parse_int}
use a3sql.Error.{EngineError, column_cannot_be_null, type_error, exec, null_primary_key}
use a3sql.Host.{Host}
use a3sql.Value.{
  DbValue, null, bool, int, float, string, strings, floats, ColumnType, Column, is_null,
}
use a3sql.Table.Defs.{Row}

unfoldable pub type_match : ColumnType → DbValue → Bool
type_match ColumnType.bool null = true
type_match ColumnType.bool (bool b) = true
type_match ColumnType.int null = true
type_match ColumnType.int (int n) = true
type_match ColumnType.int (float f) = true
type_match ColumnType.float null = true
type_match ColumnType.float (float f) = true
type_match ColumnType.float (int n) = true
type_match ColumnType.string null = true
type_match ColumnType.string (string s) = true
type_match ColumnType.strings null = true
type_match ColumnType.strings (strings v) = true
type_match ColumnType.floats null = true
type_match ColumnType.floats (floats v) = true
type_match _ _ = false

module _ {E : Type 0} (host : Host E) where
  -- The new value, and whether it was coerced.
  unfoldable pub coerce_value : DbValue → ColumnType → DbValue × Bool
  coerce_value (int n) ColumnType.float = (float (host.float_of_int n), true)
  coerce_value (string s) ColumnType.float = elim (host.parse_float s) [
    | some f ↦ (float f, true)
    | none ↦ (string s, false)
  ]
  coerce_value (float f) ColumnType.int = (int (host.int_of_float f), true)
  coerce_value (string s) ColumnType.int = elim (parse_int s) [
    | some n ↦ (int n, true)
    | none ↦ (string s, false)
  ]
  coerce_value (int n) ColumnType.string = (string (int_text n), true)
  coerce_value (float f) ColumnType.string = (string (host.float_text f), true)
  coerce_value v _ = (v, false)

  -- A NULL takes the column's default: the expression's value if there is one, else the literal.
  abbrev pub default_of : Column E → Result DbValue EngineError
  default_of c = elim c.default_expr [
    | some e ↦ host.eval_literal_expr e
    | none ↦ elim c.default [ some d ↦ ok d | none ↦ ok null ]
  ]

  unfoldable pub apply_default : Column E → DbValue → Result DbValue EngineError
  apply_default c null = default_of c
  apply_default c v = ok v

  abbrev pub check_cell : Column E → DbValue → Result DbValue EngineError
  check_cell c v =
      if type_match c.dtype v
      then (if c.not_null && is_null v then err (exec (column_cannot_be_null c.name)) else ok v)
      else err (type_error c.dtype v)

  -- The body of the first loop of `insert`, on one cell.
  unfoldable pub prepare_cell : Column E → DbValue → Result DbValue EngineError
  unfolding apply_default coerce_value is_null type_match
  prepare_cell c v = do filled ← apply_default c v; check_cell c (coerce_value filled c.dtype).0

  unfoldable pub prepare : List (Column E) → Row → Result Row EngineError
  prepare (c ∷ cs) (v ∷ vs) = do v' ← prepare_cell c v; vs' ← prepare cs vs; ok (v' ∷ vs')
  prepare _ _ = ok []

  -- The second loop: PRIMARY KEY implies NOT NULL.
  unfoldable pub check_pk_null : List (Column E) → Row → Result (Unit {0}) EngineError
  unfolding is_null
  check_pk_null (c ∷ cs) (v ∷ vs) =
      let rest = check_pk_null cs vs in
      if c.primary_key && is_null v then err (null_primary_key c.name) else rest
  check_pk_null _ _ = ok tt
