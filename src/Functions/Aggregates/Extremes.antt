-- ===== src/Functions/Aggregates/Extremes.antt =====
-- MIN and MAX against the order of the values.
use a3sql.Prelude.{
  ◌≡◌, refl, sym, ◌⊎◌, inl, inr, Bool, true, false, not, Option, List, [], ◌∷◌, All, ok,
  ok-injective, Bool-cases, subst, arith,
}
use a3sql.Host.{Host}
use a3sql.Value.{DbValue}
use a3sql.Functions.Operators.{db_value_cmp, is_gt}
use a3sql.Functions.Aggregates.{
  group_values, min_by, min_of, max_by, max_of, aggregate_min, aggregate_max,
}

module _ {E : Type 0} (host : Host E) where
  -- `a` does not come after `b`.
  abbrev pub before : DbValue → DbValue → Bool
  before a b = not (is_gt (db_value_cmp host a b))

  -- `db_value_cmp` orders the values of which `P` holds.
  pub record IsOrder (P : DbValue → Type 0) : Type 0 where
    pub reflexive : (a : DbValue) → P a → before a a ≡ true
    pub total : (a b : DbValue) → P a → P b → before a b ≡ false → before b a ≡ true
    pub transitive :
        (a b c : DbValue)
        → P a
        → P b
        → P c
        → before a b ≡ true
        → before b c ≡ true
        → before a c ≡ true

  abbrev pub IsAmong : DbValue → List DbValue → Type 0
  IsAmong v [] = ⊥
  IsAmong v (w ∷ ws) = (v ≡ w) ⊎ IsAmong v ws

  IsAmong-skip :
      (v w : DbValue) (vs : List DbValue) {m : DbValue}
      → IsAmong m (w ∷ vs)
      → IsAmong m (w ∷ v ∷ vs)
  IsAmong-skip v w vs (inl same) = inl same
  IsAmong-skip v w vs (inr more) = inr (inr more)

  module _ {R : Type 0} (eval : R → Option DbValue) (filter : Option (R → Option DbValue)) where
    abbrev least_of : DbValue → List DbValue → DbValue
    least_of v vs = min_by host eval filter v vs

    -- The least of some values is one of them and comes before all of them.
    abbrev pub IsLeast : DbValue → List DbValue → Type 0
    IsLeast v vs = IsAmong v vs × All (λ w. before v w ≡ true) vs

    abbrev greatest_of : DbValue → List DbValue → DbValue
    greatest_of v vs = max_by host eval filter v vs

    -- The greatest is one of them and comes after all of them.
    abbrev pub IsGreatest : DbValue → List DbValue → Type 0
    IsGreatest v vs = IsAmong v vs × All (λ w. before w v ≡ true) vs

    module _ (P : DbValue → Type 0) (order : IsOrder P) where
      min_by-IsLeast :
          (least : DbValue) (vs : List DbValue)
          → P least
          → All P vs
          → P (least_of least vs) × IsLeast (least_of least vs) (least ∷ vs)
      unfolding min_by
      min_by-IsLeast least [] p ps = (p, (inl refl, (order.reflexive least p, tt)))
      min_by-IsLeast least (v ∷ vs) p (pv, ps) =
          elim (Bool-cases (is_gt (db_value_cmp host least v))) [
            | inl later ↦
                let (pm, (among, (first, rest))) = min_by-IsLeast v vs pv ps in
                let down : before v least ≡ true = order.total least v p pv (ground arith) in
                let same : least_of least (v ∷ vs) ≡ least_of v vs = rw (min_by, later) refl in
                subst (λ m. P m × IsLeast m (least ∷ v ∷ vs)) (sym same)
                  (
                    pm,
                    (
                      inr among,
                      (order.transitive (least_of v vs) v least pm pv p first down, (first, rest)),
                    ),
                  )
            | inr kept ↦
                let (pm, (among, (first, rest))) = min_by-IsLeast least vs p ps in
                let up : before least v ≡ true = ground arith in
                let same : least_of least (v ∷ vs) ≡ least_of least vs = rw (min_by, kept) refl in
                subst (λ m. P m × IsLeast m (least ∷ v ∷ vs)) (sym same)
                  (
                    pm,
                    (
                      IsAmong-skip v least vs among,
                      (
                        first,
                        (order.transitive (least_of least vs) least v pm p pv first up, rest),
                      ),
                    ),
                  )
          ]

      min_of-IsLeast :
          (vs : List DbValue) {v : DbValue}
          → All P vs
          → min_of host eval filter vs ≡ ok v
          → IsLeast v vs
      min_of-IsLeast [] ps e = absurd (cc)
      min_of-IsLeast (w ∷ vs) (p, ps) e =
          subst (λ m. IsLeast m (w ∷ vs)) (ok-injective e) (min_by-IsLeast w vs p ps).1

      max_by-IsGreatest :
          (greatest : DbValue) (vs : List DbValue)
          → P greatest
          → All P vs
          → P (greatest_of greatest vs) × IsGreatest (greatest_of greatest vs) (greatest ∷ vs)
      unfolding max_by
      max_by-IsGreatest greatest [] p ps = (p, (inl refl, (order.reflexive greatest p, tt)))
      max_by-IsGreatest greatest (v ∷ vs) p (pv, ps) =
          elim (Bool-cases (is_gt (db_value_cmp host greatest v))) [
            | inl kept ↦
                let (pm, (among, (first, rest))) = max_by-IsGreatest greatest vs p ps in
                let down : before v greatest ≡ true = order.total greatest v p pv (ground arith) in
                let same : greatest_of greatest (v ∷ vs) ≡ greatest_of greatest vs =
                  rw (max_by, kept) refl in
                subst (λ m. P m × IsGreatest m (greatest ∷ v ∷ vs)) (sym same)
                  (
                    pm,
                    (
                      IsAmong-skip v greatest vs among,
                      (
                        first,
                        (
                          order.transitive v greatest (greatest_of greatest vs) pv p pm down first,
                          rest,
                        ),
                      ),
                    ),
                  )
            | inr later ↦
                let (pm, (among, (first, rest))) = max_by-IsGreatest v vs pv ps in
                let up : before greatest v ≡ true = ground arith in
                let same : greatest_of greatest (v ∷ vs) ≡ greatest_of v vs =
                  rw (max_by, later) refl in
                subst (λ m. P m × IsGreatest m (greatest ∷ v ∷ vs)) (sym same)
                  (
                    pm,
                    (
                      inr among,
                      (
                        order.transitive greatest v (greatest_of v vs) p pv pm up first,
                        (first, rest),
                      ),
                    ),
                  )
          ]

      max_of-IsGreatest :
          (vs : List DbValue) {v : DbValue}
          → All P vs
          → max_of host eval filter vs ≡ ok v
          → IsGreatest v vs
      max_of-IsGreatest [] ps e = absurd (cc)
      max_of-IsGreatest (w ∷ vs) (p, ps) e =
          subst (λ m. IsGreatest m (w ∷ vs)) (ok-injective e) (max_by-IsGreatest w vs p ps).1

      -- If `db_value_cmp` orders the values of a group, a NULL or filtered row not counting,
      -- MIN gives one of these values that comes before all of them, and MAX one that comes
      -- after all of them, where they give a value.
      pub values-IsExtreme :
          (rows : List R) (v w : DbValue)
          → All P (group_values host eval filter rows)
          → aggregate_min host eval filter rows ≡ ok v
          → aggregate_max host eval filter rows ≡ ok w
          → IsLeast v (group_values host eval filter rows)
            × IsGreatest w (group_values host eval filter rows)
      unfolding aggregate_min aggregate_max
      values-IsExtreme rows v w ps least greatest = (
        min_of-IsLeast (group_values host eval filter rows) ps least,
        max_of-IsGreatest (group_values host eval filter rows) ps greatest,
      )
