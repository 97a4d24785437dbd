-- ===== src/Query/Groups.antt =====
-- functions/aggregate.rs: `partition_by_group`. The `IndexMap` is its entries in the order of insertion.
pub mod Partition
use a3sql.Prelude.{List, [], ◌∷◌, ◌++◌, map, Result, ok, ◌>>=◌, if◌then◌else◌}
use a3sql.Value.{DbValue}
use a3sql.Value.Group.{group_keys_equal}

abbrev pub Key : Type 0
Key = List DbValue

abbrev pub Groups : Type 0 → Type 0
Groups R = List (Key × List R)

module _ {R : Type 0} where
  -- `groups.entry(key).or_default().push(row)`
  unfoldable pub push_row : Key → R → Groups R → Groups R
  push_row key row [] = (key, row ∷ []) ∷ []
  push_row key row ((k, rows) ∷ groups) =
      if group_keys_equal k key
      then (k, rows ++ (row ∷ [])) ∷ groups
      else (k, rows) ∷ push_row key row groups

module _ {R F : Type 0} where
  -- `exprs.iter().map(|e| eval_expr(e, row, col_map)).collect()` is the argument `key_of`.
  unfoldable pub group_rows : (R → Result Key F) → Groups R → List R → Result (Groups R) F
  unfolding push_row
  group_rows key_of groups [] = ok groups
  group_rows key_of groups (row ∷ rows) =
      key_of row >>= λ key. group_rows key_of (push_row key row groups) rows

  unfoldable pub partition_by_group : (R → Result Key F) → List R → Result (List (List R)) F
  unfolding group_rows
  partition_by_group key_of rows =
      group_rows key_of [] rows >>= λ groups. ok (map (λ g. g.1) groups)
