-- ===== src/Functions/Aggregates.antt =====
-- functions/aggregate.rs: COUNT, MIN and MAX over the rows of a group. The evaluation of the
-- argument and of the FILTER on a row are parameters, `none` where it fails.
pub mod Counted
pub mod Extremes
pub mod Sums
use a3sql.Prelude.{
  ℕ, zero, suc, ◌+◌, ◌%◌, ◌^◌, Bool, true, false, ◌&&◌, ◌||◌, not, Option, none, some, List, [],
  ◌∷◌, ◌++◌, if◌then◌else◌, Result, err, ok, length, Ordering,
}
use a3sql.Prelude.Int.{pos}
use a3sql.Host.{Host}
use a3sql.Value.{DbValue, is_null}
use a3sql.Functions.Operators.{db_value_cmp, is_truthy, is_gt}

pub data AggregateError : Type 0 where
  min_on_empty max_on_empty : AggregateError

module _ {R E : Type 0} (host : Host E) (eval : R → Option DbValue)
    (filter : Option (R → Option DbValue)) where
  abbrev holds : Option DbValue → Bool
  holds none = true
  holds (some v) = is_truthy v

  unfoldable pub passes_filter : R → Bool
  unfolding is_truthy
  passes_filter row = elim filter [ none ↦ true | some condition ↦ holds (condition row) ]

  abbrev pub keep_value : Option DbValue → List DbValue → List DbValue
  keep_value none vs = vs
  keep_value (some v) vs = if is_null v then vs else v ∷ vs

  -- The values of the rows that pass, without NULLs.
  unfoldable pub group_values : List R → List DbValue
  unfolding passes_filter is_null
  group_values [] = []
  group_values (row ∷ rows) =
      let vs = group_values rows in if passes_filter row then keep_value (eval row) vs else vs

  -- COUNT(*) and COUNT(expr)
  unfoldable pub count_star : List R → DbValue
  unfolding passes_filter
  count_star rows = DbValue.int (pos (passing rows))
    where
      passing : List R → ℕ
      passing [] = 0
      passing (row ∷ rows) = let n = passing rows in if passes_filter row then suc n else n

  unfoldable pub count_values : List R → DbValue
  unfolding group_values
  count_values rows = DbValue.int (pos (length (group_values rows)))

  -- `min_by` keeps the first of equal values, `max_by` the last.
  unfoldable pub min_by : DbValue → List DbValue → DbValue
  unfolding db_value_cmp
  min_by least [] = least
  min_by least (v ∷ vs) = min_by (if is_gt (db_value_cmp host least v) then v else least) vs

  unfoldable pub max_by : DbValue → List DbValue → DbValue
  unfolding db_value_cmp
  max_by greatest [] = greatest
  max_by greatest (v ∷ vs) =
      max_by (if is_gt (db_value_cmp host greatest v) then greatest else v) vs

  abbrev pub min_of : List DbValue → Result DbValue AggregateError
  min_of [] = err AggregateError.min_on_empty
  min_of (v ∷ vs) = ok (min_by v vs)

  abbrev pub max_of : List DbValue → Result DbValue AggregateError
  max_of [] = err AggregateError.max_on_empty
  max_of (v ∷ vs) = ok (max_by v vs)

  unfoldable pub aggregate_min : List R → Result DbValue AggregateError
  unfolding group_values min_by
  aggregate_min rows = min_of (group_values rows)

  unfoldable pub aggregate_max : List R → Result DbValue AggregateError
  unfolding group_values max_by
  aggregate_max rows = max_of (group_values rows)
