-- ===== src/Table/Coerce/Stored.antt =====
-- What `insert` stores for a row: every cell filled, coerced and checked (engine/table/row_ops.rs).
use a3sql.Prelude.{
  ◌≡◌, refl, sym, subst, Bool, true, false, ◌⊎◌, some, none, Option-cases, ◌&&◌, List, [], ◌∷◌, ok,
  ◌>>=◌, >>=-eq-ok, ok-injective, arith, inl, inr,
}
use a3sql.Host.{Host}
use a3sql.Value.{
  DbValue, null, bool, int, float, string, strings, floats, ColumnType, Column, is_null,
}
use a3sql.Table.Defs.{Row}
use a3sql.Table.Coerce.{
  type_match, coerce_value, apply_default, check_cell, prepare_cell, prepare, check_pk_null,
}
use a3sql.Table.Coerce.Settled.{
  coerced, check_cell-Fits, Fits-check_cell, coerced-settled, apply_default-settled,
}

module _ {E : Type 0} (host : Host E) where
  -- A value of the column's type, or NULL.
  abbrev pub IsTyped : ColumnType → DbValue → Type 0
  IsTyped d null = Unit
  IsTyped ColumnType.bool (bool b) = Unit
  IsTyped ColumnType.int (int n) = Unit
  IsTyped ColumnType.float (float w) = Unit
  IsTyped ColumnType.string (string s) = Unit
  IsTyped ColumnType.strings (strings ss) = Unit
  IsTyped ColumnType.floats (floats ws) = Unit
  IsTyped _ _ = ⊥

  coerced-IsTyped :
      (v : DbValue) (d : ColumnType)
      → type_match d (coerced host v d) ≡ true
      → IsTyped d (coerced host v d)
  unfolding coerce_value type_match
  coerced-IsTyped null d h = tt
  coerced-IsTyped (bool b) ColumnType.bool h = tt
  coerced-IsTyped (bool b) _ h = absurd (cc)
  coerced-IsTyped (int n) ColumnType.int h = tt
  coerced-IsTyped (int n) ColumnType.float h = tt
  coerced-IsTyped (int n) ColumnType.string h = tt
  coerced-IsTyped (int n) _ h = absurd (cc)
  coerced-IsTyped (float w) ColumnType.int h = tt
  coerced-IsTyped (float w) ColumnType.float h = tt
  coerced-IsTyped (float w) ColumnType.string h = tt
  coerced-IsTyped (float w) _ h = absurd (cc)
  coerced-IsTyped (string s) ColumnType.string h = tt
  coerced-IsTyped (string s) ColumnType.int h = ground arith
  coerced-IsTyped (string s) ColumnType.float h = ground arith
  coerced-IsTyped (string s) _ h = absurd (cc)
  coerced-IsTyped (strings ss) ColumnType.strings h = tt
  coerced-IsTyped (strings ss) _ h = absurd (cc)
  coerced-IsTyped (floats ws) ColumnType.floats h = tt
  coerced-IsTyped (floats ws) _ h = absurd (cc)

  -- What is to be stored for a cell before any coercion: a value as it is given; for a NULL what the
  -- DEFAULT expression gives, or else the DEFAULT literal, or else NULL.
  abbrev pub IsFilled : Column E → DbValue → DbValue → Type 0
  IsFilled c null w =
      ((e : E) × (c.default_expr ≡ some e) × (host.eval_literal_expr e ≡ ok w))
      ⊎ ((c.default_expr ≡ none) × (c.default ≡ some w))
      ⊎ ((c.default_expr ≡ none) × (c.default ≡ none) × (w ≡ null))
  IsFilled c v w = w ≡ v

  apply_default-IsFilled :
      (c : Column E) (v w : DbValue) → apply_default host c v ≡ ok w → IsFilled c v w
  unfolding apply_default
  apply_default-IsFilled c null w e = elim (Option-cases c.default_expr) [
    | inr (x, p) ↦ inl (x, p, ground arith)
    | inl p ↦ elim (Option-cases c.default) [
      | inr (d, q) ↦ inr (inl (p, ground arith))
      | inl q ↦ inr (inr (p, q, ground arith))
    ]
  ]
  apply_default-IsFilled c (bool b) w e = sym (ok-injective e)
  apply_default-IsFilled c (int n) w e = sym (ok-injective e)
  apply_default-IsFilled c (float f) w e = sym (ok-injective e)
  apply_default-IsFilled c (string s) w e = sym (ok-injective e)
  apply_default-IsFilled c (strings ss) w e = sym (ok-injective e)
  apply_default-IsFilled c (floats ws) w e = sym (ok-injective e)

  -- A stored cell: the filled cell, coerced to a value of the column's type; it is NULL only in a column
  -- that allows it.
  pub record IsStored (c : Column E) (v v' : DbValue) : Type 0 where
    pub before : DbValue
    pub filled : IsFilled c v before
    pub coerced_from : v' ≡ (coerce_value host before c.dtype).0
    pub typed : IsTyped c.dtype v'
    pub not_null : (c.not_null ≡ false) ⊎ (¬ (v' ≡ null))

  is_null-not : (v : DbValue) → is_null v ≡ false → ¬ (v ≡ null)
  unfolding is_null
  is_null-not v h e = ground arith

  -- A column without the flag, or a value.
  flag_or_value :
      (flag : Bool) (v : DbValue) → (flag && is_null v) ≡ false → (flag ≡ false) ⊎ (¬ (v ≡ null))
  flag_or_value false v h = inl refl
  flag_or_value true v h = inr (is_null-not v h)

  -- No cell of a PRIMARY KEY column is NULL.
  abbrev pub KeysFilled : List (Column E) → Row → Type 0
  KeysFilled (c ∷ cs) (v ∷ vs) = ((c.primary_key ≡ false) ⊎ (¬ (v ≡ null))) × KeysFilled cs vs
  KeysFilled _ _ = Unit

  pub check_pk_null-KeysFilled :
      (cs : List (Column E)) (row : Row) → check_pk_null host cs row ≡ ok tt → KeysFilled cs row
  unfolding check_pk_null
  check_pk_null-KeysFilled [] row h = tt
  check_pk_null-KeysFilled (c ∷ cs) [] h = tt
  check_pk_null-KeysFilled (c ∷ cs) (v ∷ vs) h =
      (flag_or_value c.primary_key v (ground arith), check_pk_null-KeysFilled cs vs (ground arith))

  prepare_cell-settled :
      (c : Column E) (v : DbValue) {v' : DbValue}
      → prepare_cell host c v ≡ ok v'
      → (prepare_cell host c v' ≡ ok v') × IsStored c v v'
  unfolding prepare_cell
  prepare_cell-settled c v {v'} e =
      let (w, a, b) =
        >>=-eq-ok (apply_default host c v) (λ w. check_cell host c (coerced host w c.dtype)) e in
      let (same, fits) = check_cell-Fits host c (coerced host w c.dtype) b in
      subst (λ x. (prepare_cell host c x ≡ ok x) × IsStored c v x) same
        (
          rw (apply_default-settled host c v w a, coerced-settled host w c.dtype fits.typed)
              (Fits-check_cell host c (coerced host w c.dtype) fits),
          record {
            before = w;
            filled = apply_default-IsFilled c v w a;
            coerced_from = refl;
            typed = coerced-IsTyped w c.dtype fits.typed;
            not_null = flag_or_value c.not_null (coerced host w c.dtype) fits.filled;
          },
        )

  -- Every cell of the row is stored, in its place.
  abbrev pub AllStored : List (Column E) → Row → Row → Type 0
  AllStored (c ∷ cs) (v ∷ vs) (v' ∷ vs') = IsStored c v v' × AllStored cs vs vs'
  AllStored (c ∷ cs) (v ∷ vs) [] = ⊥
  AllStored _ _ _ = Unit

  -- What the first loop of `insert` returns for a row, it returns again for that result, and
  -- cell by cell it is the given value, or for a NULL the value of the DEFAULT expression, else
  -- the DEFAULT literal, else NULL, coerced to the column's type: a value of that type or NULL,
  -- and not NULL in a NOT NULL column.
  pub prepare-settled :
      (cs : List (Column E)) (row : Row) {row' : Row}
      → prepare host cs row ≡ ok row'
      → (prepare host cs row' ≡ ok row') × AllStored cs row row'
  unfolding prepare
  prepare-settled [] row e = (e, tt)
  prepare-settled (c ∷ cs) [] e =
      subst (λ x. (prepare host (c ∷ cs) x ≡ ok x) × AllStored (c ∷ cs) [] x) (ok-injective e)
        (refl, tt)
  prepare-settled (c ∷ cs) (v ∷ vs) {row'} e =
      let (w, p, rest) =
        >>=-eq-ok (prepare_cell host c v) (λ v'. prepare host cs vs >>= λ vs'. ok (v' ∷ vs')) e in
      let (ws, q, r) = >>=-eq-ok (prepare host cs vs) (λ vs'. ok (w ∷ vs')) rest in
      let (stable, stored) = prepare_cell-settled c v p in
      let (stables, all) = prepare-settled cs vs q in
      subst (λ x. (prepare host (c ∷ cs) x ≡ ok x) × AllStored (c ∷ cs) (v ∷ vs) x) (ok-injective r)
        (rw (stable, stables) refl, (stored, all))
