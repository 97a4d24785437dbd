-- ===== src/Functions/Aggregates/Sums.antt =====
-- functions/aggregate.rs: SUM and AVG. SUM goes by the type of the first row's value, and its float branch
-- does not look at the FILTER.
use a3sql.Prelude.{ℕ, zero, suc, Option, none, some, List, [], ◌∷◌, if◌then◌else◌, Result, err, ok}
use a3sql.Prelude.Int.{ℤ, pos}
use a3sql.Prelude.Wrap.{wrapping_add}
use a3sql.Host.{Host}
use a3sql.Value.{DbValue}
use a3sql.Functions.Operators.{Machine}
use a3sql.Functions.Aggregates.{passes_filter}

pub data SumError : Type 0 where
  not_numeric : DbValue → SumError
  not_evaluated : SumError

-- `start` is where Rust's sum of floats starts, a zero.
module _ {R E : Type 0} (host : Host E) (machine : Machine) (start : ℕ) (eval : R → Option DbValue)
    (filter : Option (R → Option DbValue)) where
  abbrev add_int : ℤ → Option DbValue → ℤ
  add_int sum (some (DbValue.int n)) = wrapping_add sum n
  add_int sum _ = sum

  unfoldable pub sum_ints : ℤ → List R → ℤ
  unfolding passes_filter wrapping_add
  sum_ints sum [] = sum
  sum_ints sum (row ∷ rows) =
      sum_ints (if passes_filter host eval filter row then add_int sum (eval row) else sum) rows

  abbrev add_float : ℕ → Option DbValue → ℕ
  add_float sum (some (DbValue.float f)) = machine.float_add sum f
  add_float sum (some (DbValue.int n)) = machine.float_add sum (host.float_of_int n)
  add_float sum _ = sum

  unfoldable pub sum_floats : ℕ → List R → ℕ
  sum_floats sum [] = sum
  sum_floats sum (row ∷ rows) = sum_floats (add_float sum (eval row)) rows

  abbrev sum_of : List R → Option DbValue → Result DbValue SumError
  sum_of rows none = err SumError.not_evaluated
  sum_of rows (some (DbValue.int n)) = ok (DbValue.int (sum_ints (pos 0) rows))
  sum_of rows (some (DbValue.float f)) = ok (DbValue.float (sum_floats start rows))
  sum_of rows (some v) = err (SumError.not_numeric v)

  unfoldable pub aggregate_sum : List R → Result DbValue SumError
  unfolding sum_ints sum_floats
  aggregate_sum [] = ok DbValue.null
  aggregate_sum (row ∷ rows) = sum_of (row ∷ rows) (eval row)

  abbrev tally : ℕ × ℕ → Option DbValue → ℕ × ℕ
  tally (sum, count) (some (DbValue.int n)) =
      (machine.float_add sum (host.float_of_int n), suc count)
  tally (sum, count) (some (DbValue.float f)) = (machine.float_add sum f, suc count)
  tally (sum, count) _ = (sum, count)

  unfoldable pub avg_loop : ℕ × ℕ → List R → ℕ × ℕ
  unfolding passes_filter
  avg_loop acc [] = acc
  avg_loop acc (row ∷ rows) =
      avg_loop (if passes_filter host eval filter row then tally acc (eval row) else acc) rows

  abbrev quotient : ℕ × ℕ → DbValue
  quotient (sum, zero) = DbValue.null
  quotient (sum, suc count) =
      DbValue.float (machine.float_div sum (host.float_of_int (pos (suc count))))

  unfoldable pub aggregate_avg : List R → DbValue
  unfolding avg_loop
  aggregate_avg rows = quotient (avg_loop (0, 0) rows)
