-- ===== src/Examples.antt =====
-- Concrete data on which the theorems are applied: a host in which a syntax node is its text and a float
-- prints as the decimal of its bits, and a table with a PRIMARY KEY and a UNIQUE column.
pub mod Tables
pub mod Indices
pub mod Databases
pub mod Saves
pub mod Values
pub mod Scripts
pub mod Queries
use a3sql.Prelude.{
  ℕ, arith, ◌≡◌, ◌⊎◌, inl, Bool, true, false, Option, none, some, List, [], ◌∷◌, Result, ok,
}
use a3sql.Prelude.Int.{ℤ, pos, to_bits, of_bits}
use a3sql.Prelude.Map
use a3sql.Prelude.Text.{Text, bytes, to_decimal, to_decimal-injective}
use a3sql.Prelude.ParseInt.{parse_nat}
use a3sql.Host.{Host, IsShortest}
use a3sql.Value.{DbValue, ColumnType, Column}
use a3sql.Functions.Operators.{Machine}
use a3sql.Functions.Operators.Bounds.{IsFloatUnit}
use a3sql.Table.Defs.{Table, Row, fresh}

abbrev pub example_host : Host Text
example_host = record {
  float_text = to_decimal;
  parse_float = parse_nat;
  float_of_int = to_bits;
  int_of_float = of_bits;
  to_lowercase = λ s. s;
  from_utf8_lossy = λ s. s;
  expr_text = λ e. e;
  identifier = λ s. s;
  eval_literal_expr = λ e. ok (DbValue.string e);
}

-- A float unit whose every result is 0.
abbrev pub example_machine : Machine
example_machine = record {
  float_add = λ x y. 0;
  float_sub = λ x y. 0;
  float_mul = λ x y. 0;
  float_div = λ x y. 0;
  float_rem = λ x y. 0;
  chars = λ s. s;
}

pub example_machine-IsFloatUnit : IsFloatUnit example_machine
example_machine-IsFloatUnit = (
  λ x y. omega arith,
  λ x y. omega arith,
  λ x y. omega arith,
  λ x y. omega arith,
  λ x y. omega arith,
)

pub example_host-IsShortest : IsShortest example_host
example_host-IsShortest x y e = inl (to_decimal-injective x y e)

abbrev pub id_column : Column Text
id_column = record {
  name = bytes "id";
  dtype = ColumnType.int;
  primary_key = true;
  not_null = false;
  default = none;
  default_expr = none;
  auto_increment = false;
  unique = false;
}

abbrev pub code_column : Column Text
code_column = record {
  name = bytes "code";
  dtype = ColumnType.string;
  primary_key = false;
  not_null = true;
  default = none;
  default_expr = none;
  auto_increment = false;
  unique = true;
}

abbrev pub example_columns : List (Column Text)
example_columns = id_column ∷ code_column ∷ []

abbrev pub example_table : Table Text
example_table = fresh (bytes "t") example_columns Map.empty

abbrev pub row_one : Row
row_one = DbValue.int (pos 1) ∷ DbValue.string (bytes "a") ∷ []

abbrev pub row_two : Row
row_two = DbValue.int (pos 2) ∷ DbValue.string (bytes "b") ∷ []
