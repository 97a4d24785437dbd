-- ===== src/Functions/Cast/Typed.antt =====
-- CAST against the types of SQL (functions/eval/cast.rs).
use a3sql.Prelude.{err, ok}
use a3sql.Prelude.Text.{Text}
use a3sql.Host.{Host}
use a3sql.Value.{DbValue}
use a3sql.Functions.Cast.{DataType, Cast, Target}

module _ {E : Type 0} (host : Host E) (trim : Text → Text) where
  -- A value of the target's type; NULL is one of every type but text.
  abbrev pub IsOf : Target → DbValue → Type 0
  IsOf Target.to_text (DbValue.string s) = Unit
  IsOf Target.to_text _ = ⊥
  IsOf _ DbValue.null = Unit
  IsOf Target.to_bool (DbValue.bool b) = Unit
  IsOf Target.to_int (DbValue.int n) = Unit
  IsOf Target.to_float (DbValue.float w) = Unit
  IsOf _ _ = ⊥

  abbrev Casts : Target → Cast → Type 0
  Casts target (err e) = Unit
  Casts target (ok w) = IsOf target w

  -- A value of an SQL type: of BOOL and BOOLEAN the Booleans, of the integer types the integers, of
  -- FLOAT, DOUBLE, REAL, DECIMAL and NUMERIC the floats, each with NULL, of any other the texts.
  abbrev pub IsValueOf : DataType → DbValue → Type 0
  IsValueOf DataType.bool v = IsOf Target.to_bool v
  IsValueOf DataType.boolean v = IsOf Target.to_bool v
  IsValueOf DataType.int v = IsOf Target.to_int v
  IsValueOf DataType.big_int v = IsOf Target.to_int v
  IsValueOf DataType.small_int v = IsOf Target.to_int v
  IsValueOf DataType.tiny_int v = IsOf Target.to_int v
  IsValueOf DataType.float v = IsOf Target.to_float v
  IsValueOf DataType.double v = IsOf Target.to_float v
  IsValueOf DataType.real v = IsOf Target.to_float v
  IsValueOf DataType.decimal v = IsOf Target.to_float v
  IsValueOf DataType.numeric v = IsOf Target.to_float v
  IsValueOf DataType.varchar v = IsOf Target.to_text v
  IsValueOf DataType.char v = IsOf Target.to_text v
  IsValueOf DataType.text v = IsOf Target.to_text v
  IsValueOf DataType.string v = IsOf Target.to_text v
  IsValueOf DataType.uuid v = IsOf Target.to_text v
  IsValueOf DataType.other v = IsOf Target.to_text v

  -- Any other type.
  abbrev pub IsTextType : DataType → Type 0
  IsTextType DataType.bool = ⊥
  IsTextType DataType.boolean = ⊥
  IsTextType DataType.int = ⊥
  IsTextType DataType.big_int = ⊥
  IsTextType DataType.small_int = ⊥
  IsTextType DataType.tiny_int = ⊥
  IsTextType DataType.float = ⊥
  IsTextType DataType.double = ⊥
  IsTextType DataType.real = ⊥
  IsTextType DataType.decimal = ⊥
  IsTextType DataType.numeric = ⊥
  IsTextType _ = Unit
