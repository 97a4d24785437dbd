-- ===== src/Query/SetOps/Bags.antt =====
-- The set operations against bags: how often each row occurs in the result.
use a3sql.Prelude.{
  ℕ, ◌+◌, ◌-◌, ◌≡◌, min, Bool, true, false, ◌&&◌, Option, none, some, List, drop, ltb,
  if◌then◌else◌,
}
use a3sql.Query.SetOps.{SetOperator}
use a3sql.Query.SetOps.Counts.{IsEquality, bit, count}

-- How often a row that occurs `l` and `r` times occurs in the result. EXCEPT without ALL keeps the
-- duplicates of the left side.
unfoldable pub multiplicity : SetOperator → Bool → ℕ → ℕ → ℕ
multiplicity SetOperator.union true l r = l + r
multiplicity SetOperator.union false l r = bit (ltb 0 (l + r))
multiplicity SetOperator.except true l r = l - r
multiplicity SetOperator.except false l r = if ltb 0 r then 0 else l
multiplicity SetOperator.minus _ l r = if ltb 0 r then 0 else l
multiplicity SetOperator.intersect true l r = min l r
multiplicity SetOperator.intersect false l r = bit (ltb 0 l && ltb 0 r)

module _ {R : Type 0} (same : R → R → Bool) (laws : IsEquality same) where
  -- The rows behind the header occur as often as the bag has them.
  abbrev pub Represents : (R → ℕ) → Option (List R) → Type 0
  Represents bag none = ⊥
  Represents bag (some rows) = (x : R) → count same x (drop 1 rows) ≡ bag x
