-- ===== src/Query/SetOps.antt =====
-- engine/stmts/select/union.rs: UNION, EXCEPT and INTERSECT on the rows of two finished queries. The
-- first row of a result is its header. `none` is a panic of the slice `r_rows[1..]`.
pub mod Counts
pub mod Entries
pub mod Bags
use a3sql.Prelude.{
  ℕ, zero, suc, ◌+◌, min, Bool, true, false, ◌&&◌, ◌||◌, not, Option, none, some, List, [], ◌∷◌,
  ◌++◌, ltb, if◌then◌else◌, length, Result, err, ok,
}
use a3sql.Prelude.Text.{Text}
use a3sql.Error.{EngineError, Message}

-- sqlparser's `SetOperator`.
pub data SetOperator : Type 0 where
  union except intersect minus : SetOperator

-- sqlparser's `SetExpr`, as far as this code looks into it; `E` is what it does not look into.
pub data SetExpr (E : Type 0) : Type 0 where
  set_operation : SetOperator → Bool → E → E → SetExpr E
  other : E → SetExpr E

-- `R` is a row of JSON values, and `same` its `==`.
module _ {R : Type 0} (same : R → R → Bool) where
  unfoldable pub contains : R → List R → Bool
  contains row [] = false
  contains row (r ∷ rows) = same r row || contains row rows

  -- `rows.push(row)` unless it is there.
  unfoldable pub push_new : List R → R → List R
  unfolding contains
  push_new rows row = if contains row rows then rows else rows ++ (row ∷ [])

  unfoldable pub push_all : List R → List R → List R
  unfolding push_new
  push_all rows [] = rows
  push_all rows (row ∷ more) = push_all (push_new rows row) more

  unfoldable pub union_all : List R → List R → List R
  union_all (l ∷ ls) (r ∷ rs) = l ∷ (ls ++ rs)
  union_all l_rows r_rows = l_rows ++ r_rows

  unfoldable pub union_distinct : List R → List R → Option (List R)
  unfolding push_all
  union_distinct [] r_rows = some []
  union_distinct (l ∷ ls) [] = none
  union_distinct (l ∷ ls) (r ∷ rs) = some (l ∷ push_all (push_all [] ls) rs)

  -- `position` and `remove`
  unfoldable pub remove_first : R → List R → List R
  remove_first row [] = []
  remove_first row (d ∷ input) = if same d row then input else d ∷ remove_first row input

  unfoldable pub remove_all : List R → List R → List R
  unfolding remove_first
  remove_all input [] = input
  remove_all input (r ∷ rs) = remove_all (remove_first r input) rs

  unfoldable pub except_all : List R → List R → List R
  unfolding remove_all
  except_all (l ∷ l' ∷ ls) (r ∷ r' ∷ rs) = l ∷ remove_all (l' ∷ ls) (r' ∷ rs)
  except_all l_rows r_rows = l_rows

  unfoldable pub outside : List R → List R → List R
  unfolding contains
  outside [] rs = []
  outside (l ∷ ls) rs = if contains l rs then outside ls rs else l ∷ outside ls rs

  -- The slice is taken inside the loop, so a left side without rows does not reach it.
  unfoldable pub except_distinct : List R → List R → Option (List R)
  unfolding outside
  except_distinct [] r_rows = some []
  except_distinct (l ∷ []) r_rows = some (l ∷ [])
  except_distinct (l ∷ l' ∷ ls) [] = none
  except_distinct (l ∷ l' ∷ ls) (r ∷ rs) = some (l ∷ outside (l' ∷ ls) rs)

  -- `row_counts`: every row once, with how often it occurs.
  unfoldable pub count_row : List (R × ℕ) → R → List (R × ℕ)
  count_row [] row = (row, 1) ∷ []
  count_row ((r, n) ∷ counts) row =
      if same r row then (r, n + 1) ∷ counts else (r, n) ∷ count_row counts row

  unfoldable pub count_rows : List (R × ℕ) → List R → List (R × ℕ)
  unfolding count_row
  count_rows counts [] = counts
  count_rows counts (row ∷ rows) = count_rows (count_row counts row) rows

  unfoldable pub row_counts : List R → List (R × ℕ)
  unfolding count_rows
  row_counts rows = count_rows [] rows

  unfoldable pub find_count : R → List (R × ℕ) → Option ℕ
  find_count row [] = none
  find_count row ((r, n) ∷ counts) = if same r row then some n else find_count row counts

  abbrev pub repeat : ℕ → R → List R
  repeat zero row = []
  repeat (suc n) row = row ∷ repeat n row

  abbrev pub shared_entry : R → ℕ → Option ℕ → List R
  shared_entry l_row l_cnt none = []
  shared_entry l_row l_cnt (some r_cnt) = repeat (min l_cnt r_cnt) l_row

  unfoldable pub shared : List (R × ℕ) → List (R × ℕ) → List R
  unfolding find_count
  shared [] r_counts = []
  shared ((l_row, l_cnt) ∷ l_counts) r_counts =
      shared_entry l_row l_cnt (find_count l_row r_counts) ++ shared l_counts r_counts

  unfoldable pub intersect_all : List R → List R → List R
  unfolding shared row_counts
  intersect_all (l ∷ ls) (r ∷ r' ∷ rs) = l ∷ shared (row_counts ls) (row_counts (r' ∷ rs))
  intersect_all l_rows r_rows = []

  unfoldable pub keep_common : List R → List R → List R → List R
  unfolding contains
  keep_common rows [] rs = rows
  keep_common rows (l ∷ ls) rs =
      keep_common (if contains l rs && not (contains l rows) then rows ++ (l ∷ []) else rows) ls rs

  unfoldable pub intersect_distinct : List R → List R → Option (List R)
  unfolding keep_common
  intersect_distinct [] r_rows = some []
  intersect_distinct (l ∷ []) r_rows = some (l ∷ [])
  intersect_distinct (l ∷ l' ∷ ls) [] = none
  intersect_distinct (l ∷ l' ∷ ls) (r ∷ rs) = some (l ∷ keep_common [] (l' ∷ ls) rs)

  -- The `match op`.
  unfoldable pub combine : SetOperator → Bool → List R → List R → Option (List R)
  unfolding union_all union_distinct except_all except_distinct intersect_all intersect_distinct
  combine SetOperator.union true l_rows r_rows = some (union_all l_rows r_rows)
  combine SetOperator.union false l_rows r_rows = union_distinct l_rows r_rows
  combine SetOperator.except true l_rows r_rows = some (except_all l_rows r_rows)
  combine SetOperator.except false l_rows r_rows = except_distinct l_rows r_rows
  combine SetOperator.minus is_all l_rows r_rows = except_distinct l_rows r_rows
  combine SetOperator.intersect true l_rows r_rows = some (intersect_all l_rows r_rows)
  combine SetOperator.intersect false l_rows r_rows = intersect_distinct l_rows r_rows

  -- `exec_select`, which may change the database `D`, and serde_json's `from_str` (a failure is no rows)
  -- and `to_string` are outside this file.
  module _ {E D : Type 0} (exec_select : E → D → Result Text EngineError × D)
      (parse : Text → List R) (print : List R → Text) where
    abbrev printed : Option (List R) → Option (Result Text EngineError)
    printed none = none
    printed (some rows) = some (ok (print rows))

    abbrev right_side :
        SetOperator
        → Bool
        → Text
        → Result Text EngineError × D
        → Option (Result Text EngineError) × D
    right_side op is_all lj (err failure, db) = (some (err failure), db)
    right_side op is_all lj (ok rj, db) = (printed (combine op is_all (parse lj) (parse rj)), db)

    abbrev left_side :
        SetOperator → Bool → E → Result Text EngineError × D → Option (Result Text EngineError) × D
    left_side op is_all rq (err failure, db) = (some (err failure), db)
    left_side op is_all rq (ok lj, db) = right_side op is_all lj (exec_select rq db)

    unfoldable pub exec_union : SetExpr E → D → Option (Result Text EngineError) × D
    unfolding combine
    exec_union (SetExpr.set_operation op is_all lq rq) db =
        left_side op is_all rq (exec_select lq db)
    exec_union (SetExpr.other e) db =
        (some (err (EngineError.exec Message.expected_set_operation)), db)
