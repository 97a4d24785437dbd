-- ===== src/Table/Keys/Row.antt =====
-- The key texts of a whole row (engine/table/schema.rs).
use a3sql.Prelude.{
  ℕ, suc, ◌<◌, ◌≡◌, ◌≢◌, refl, true, false, List, [], ◌∷◌, ◌++◌, length, arith, inl, inr,
  Bool-cases,
}
use a3sql.Prelude.Text.{Text, to_decimal, to_decimal-cancel}
use a3sql.Prelude.Texts.{among, Distinct}
use a3sql.Host.{Host, IsShortest}
use a3sql.Value.{DbValue, Column}
use a3sql.Table.Keys.{
  encode_part, pk_parts, has_primary_key, pk_key_static, unique_keys_from, unique_keys,
}
use a3sql.Table.Keys.Injective.{SameValue, encode_part-cancel}

-- The rows hold the same values, up to the bits of a NaN, in the PRIMARY KEY columns.
abbrev pub SameKey : {E : Type 0} → List (Column E) → List DbValue → List DbValue → Type 0
SameKey (c ∷ cs) (v ∷ vs) (w ∷ ws) = (c.primary_key ≡ true → SameValue v w) × SameKey cs vs ws
SameKey _ _ _ = Unit

module _ {E : Type 0} (host : Host E) (shortest : IsShortest host) where
  pk_parts-injective :
      (columns : List (Column E)) (vs ws : List DbValue)
      → length vs ≡ length columns
      → length ws ≡ length columns
      → pk_parts host columns vs ≡ pk_parts host columns ws
      → SameKey columns vs ws
  unfolding pk_parts
  pk_parts-injective [] vs ws m n e = tt
  pk_parts-injective (c ∷ cs) [] ws m n e = absurd (omega arith)
  pk_parts-injective (c ∷ cs) (v ∷ vs) [] m n e = absurd (omega arith)
  pk_parts-injective (c ∷ cs) (v ∷ vs) (w ∷ ws) m n e = elim (Bool-cases c.primary_key) [
    | inl p ↦
        let parts : encode_part host v ++ pk_parts host cs vs
            ≡ encode_part host w ++ pk_parts host cs ws =
          rw p at e in
        let (same, rest) = encode_part-cancel host shortest v w parts in
        (λ _. same, pk_parts-injective cs vs ws (omega arith) (omega arith) rest)
    | inr p ↦
        let rest : pk_parts host cs vs ≡ pk_parts host cs ws = rw p at e in
        (λ q. absurd (cc (p, q)), pk_parts-injective cs vs ws (omega arith) (omega arith) rest)
  ]

  -- If floats print so that they can be told apart, then on columns with a PRIMARY KEY two rows
  -- as long as the columns have the same key text only if they hold the same values in every
  -- PRIMARY KEY column, where all NaNs count as one value.
  pub pk_key_static-injective :
      (columns : List (Column E)) (vs ws : List DbValue)
      → has_primary_key columns ≡ true
      → length vs ≡ length columns
      → length ws ≡ length columns
      → pk_key_static host columns vs ≡ pk_key_static host columns ws
      → SameKey columns vs ws
  unfolding pk_key_static
  pk_key_static-injective columns vs ws h m n e =
      pk_parts-injective columns vs ws m n (ground arith)

module _ {E : Type 0} (host : Host E) where
  key_ne : (i j : ℕ) (x y : Text) → i < j → to_decimal j ++ (b'|' ∷ y) ≢ to_decimal i ++ (b'|' ∷ x)
  key_ne i j x y h e = absurd (omega (arith, (to_decimal-cancel j i b'|' {r = y} {s = x} refl e).0))

  among-unique_keys_from :
      (i j : ℕ) (x : Text) (columns : List (Column E)) (vs : List DbValue)
      → i < j
      → among (to_decimal i ++ (b'|' ∷ x)) (unique_keys_from host j columns vs) ≡ false
  unfolding unique_keys_from
  among-unique_keys_from i j x [] vs h = refl
  among-unique_keys_from i j x (c ∷ cs) [] h = refl
  among-unique_keys_from i j x (c ∷ cs) (v ∷ vs) h =
      ground (arith, key_ne i j x (encode_part host v), among-unique_keys_from i (suc j) x cs vs)

  Distinct-unique_keys_from :
      (j : ℕ) (columns : List (Column E)) (vs : List DbValue)
      → Distinct (unique_keys_from host j columns vs)
  unfolding unique_keys_from
  Distinct-unique_keys_from j [] vs = tt
  Distinct-unique_keys_from j (c ∷ cs) [] = tt
  Distinct-unique_keys_from j (c ∷ cs) (v ∷ vs) = elim (Bool-cases c.unique) [
    | inl p ↦ rw p (
      among-unique_keys_from j (suc j) (encode_part host v) cs vs (omega arith),
      Distinct-unique_keys_from (suc j) cs vs,
    )
    | inr p ↦ rw p (Distinct-unique_keys_from (suc j) cs vs)
  ]

  -- The UNIQUE keys of one row, one for each UNIQUE column, are all different.
  pub Distinct-unique_keys :
      (columns : List (Column E)) (vs : List DbValue) → Distinct (unique_keys host columns vs)
  unfolding unique_keys
  Distinct-unique_keys columns vs = Distinct-unique_keys_from 0 columns vs
