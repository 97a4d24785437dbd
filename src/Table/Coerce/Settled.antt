-- ===== src/Table/Coerce/Settled.antt =====
-- The first loop of `insert` on a row that has been through it (engine/table/row_ops.rs).
use a3sql.Prelude.{
  ◌≡◌, refl, sym, ap, ◌∙◌, subst, true, false, ◌&&◌, ok, ok-injective, arith, Bool-cases, inl, inr,
}
use a3sql.Host.{Host}
use a3sql.Value.{
  DbValue, null, bool, int, float, string, strings, floats, ColumnType, Column, is_null,
}
use a3sql.Table.Coerce.{type_match, coerce_value, apply_default, check_cell}

module _ {E : Type 0} (host : Host E) where
  abbrev pub coerced : DbValue → ColumnType → DbValue
  coerced v d = (coerce_value host v d).0

  -- A coerced value that fits its type is not coerced further.
  pub coerced-settled :
      (v : DbValue) (d : ColumnType)
      → type_match d (coerced v d) ≡ true
      → coerced (coerced v d) d ≡ coerced v d
  unfolding coerce_value type_match
  coerced-settled null d h = refl
  coerced-settled (bool b) d h = refl
  coerced-settled (int n) ColumnType.bool h = refl
  coerced-settled (int n) ColumnType.int h = refl
  coerced-settled (int n) ColumnType.float h = refl
  coerced-settled (int n) ColumnType.string h = refl
  coerced-settled (int n) ColumnType.strings h = refl
  coerced-settled (int n) ColumnType.floats h = refl
  coerced-settled (float n) ColumnType.bool h = refl
  coerced-settled (float n) ColumnType.int h = refl
  coerced-settled (float n) ColumnType.float h = refl
  coerced-settled (float n) ColumnType.string h = refl
  coerced-settled (float n) ColumnType.strings h = refl
  coerced-settled (float n) ColumnType.floats h = refl
  coerced-settled (string s) ColumnType.bool h = refl
  coerced-settled (string s) ColumnType.int h = ground arith
  coerced-settled (string s) ColumnType.float h = ground arith
  coerced-settled (string s) ColumnType.string h = refl
  coerced-settled (string s) ColumnType.strings h = refl
  coerced-settled (string s) ColumnType.floats h = refl
  coerced-settled (strings ss) d h = refl
  coerced-settled (floats ws) d h = refl

  -- A cell that the checks let through fits its column.
  pub record Fits (c : Column E) (v : DbValue) : Type 0 where
    pub typed : type_match c.dtype v ≡ true
    pub filled : (c.not_null && is_null v) ≡ false

  pub check_cell-Fits :
      (c : Column E) (v : DbValue) {v' : DbValue}
      → check_cell host c v ≡ ok v'
      → (v ≡ v') × Fits c v
  check_cell-Fits c v e = ground arith

  pub Fits-check_cell : (c : Column E) (v : DbValue) → Fits c v → check_cell host c v ≡ ok v
  Fits-check_cell c v f = rw (f.typed, f.filled) refl

  is_null-coerced : (v : DbValue) (d : ColumnType) → is_null (coerced v d) ≡ is_null v
  unfolding coerce_value is_null
  is_null-coerced v d = ground arith

  apply_default-filled :
      (c : Column E) (v : DbValue) → is_null v ≡ false → apply_default host c v ≡ ok v
  unfolding apply_default is_null
  apply_default-filled c v h = ground arith

  is_null-eq : (v : DbValue) → is_null v ≡ true → v ≡ null
  unfolding is_null
  is_null-eq v h = ground arith

  -- A filled and coerced cell takes no default again.
  pub apply_default-settled :
      (c : Column E) (v w : DbValue)
      → apply_default host c v ≡ ok w
      → apply_default host c (coerced w c.dtype) ≡ ok (coerced w c.dtype)
  apply_default-settled c v w e = elim (Bool-cases (is_null w)) [
    | inr full ↦ apply_default-filled c (coerced w c.dtype) (is_null-coerced w c.dtype ∙ full)
    | inl empty ↦ elim (Bool-cases (is_null v)) [
      | inr full ↦ absurd (ground (arith, ok-injective (sym (apply_default-filled c v full) ∙ e)))
      | inl blank ↦
          let stays : coerced w c.dtype ≡ null =
            is_null-eq (coerced w c.dtype) (is_null-coerced w c.dtype ∙ empty) in
          rw stays (
            subst (λ x. apply_default host c x ≡ ok null) (is_null-eq v blank)
              (e ∙ ap ok (is_null-eq w empty)))
    ]
  ]
