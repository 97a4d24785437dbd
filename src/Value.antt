-- ===== src/Value.antt =====
-- engine/value.rs: column types and definitions, and the runtime values of cells. An `i64` is an
-- integer in range, an `f64` is its 64 bits, and a string is its UTF-8 bytes.
pub mod Float
pub mod Group
use a3sql.Prelude.{ℕ, ◌^◌, ◌<◌, ◌≡◌, Bool, true, false, ◌&&◌, ◌||◌, Option, List, arith, All}
use a3sql.Prelude.Int.{ℤ, IsI64}
use a3sql.Prelude.Text.{Text}

pub data ColumnType : Type 0 where
  bool int float string strings floats : ColumnType

pub data DbValue : Type 0 where
  null : DbValue
  bool : Bool → DbValue
  int : ℤ → DbValue
  float : ℕ → DbValue
  string : Text → DbValue
  strings : List Text → DbValue
  floats : List ℕ → DbValue

-- `E` is the type of sqlparser's syntax nodes, which this code stores and never looks into.
pub record Column (E : Type 0) : Type 0 where
  pub name : Text
  pub dtype : ColumnType
  pub primary_key : Bool
  pub not_null : Bool
  pub default : Option DbValue
  pub default_expr : Option E
  pub auto_increment : Bool
  pub unique : Bool

abbrev pub IsBits : ℕ → Type 0
IsBits w = w < 2 ^ 64

-- The values that the Rust type holds: integers of 64 bits, floats of 64 bits.
abbrev pub IsMachine : DbValue → Type 0
IsMachine (DbValue.int n) = IsI64 n
IsMachine (DbValue.float w) = IsBits w
IsMachine (DbValue.floats ws) = All IsBits ws
IsMachine _ = Unit

unfoldable pub is_null : DbValue → Bool
is_null DbValue.null = true
is_null _ = false
