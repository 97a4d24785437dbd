-- ===== src/Examples/Queries.antt =====
-- The theorems on set operations, paging, grouping and operators at concrete rows and values.
use a3sql.Prelude.{
  ℕ, ◌-◌, ◌^◌, ◌≡◌, ◌↔◌, refl, Bool, true, false, Option, some, List, [], ◌∷◌, map, sym, inl, inr,
  arith, Result, ok, ◌==◌,
}
use mathlib.Core.Option.{some-injective}
use a3sql.Prelude.Int.{negsuc}
use a3sql.Prelude.Text.{Text-discrete, bytes, to_decimal}
use a3sql.Value.{DbValue}
use a3sql.Value.Group.{group_keys_equal}
use a3sql.Functions.Operators.{apply_binary_op}
use a3sql.Functions.Operators.Syntax.{BinaryOperator}
use a3sql.Functions.Operators.Bounds.{IsSound, IsOverflow, apply_binary_op-IsSound}
use a3sql.Functions.Wildcard.{wildcard_match, Matches, wildcard_match-Matches}
use a3sql.Prelude.Order.{text_compare}
use a3sql.Prelude.ParseInt.{parse_nat}
use a3sql.Functions.Operators.{db_value_cmp, is_truthy}
use a3sql.Functions.Aggregates.{aggregate_min, aggregate_max}
use a3sql.Functions.Aggregates.Extremes.{before, IsOrder}
use a3sql.Functions.Aggregates.Counted.{HasValue, IsMinimum, IsMaximum, aggregate-IsExtreme}
use a3sql.Query.Paging.{LimitExpr, LimitClause, apply_limit_offset, apply_limit_offset-limited}
use a3sql.Query.Groups.{Key, partition_by_group}
use a3sql.Query.Groups.Partition.{IsGrouping, partition_by_group-IsGrouping}
use a3sql.Serialize.Csv.{csv_line, parse_csv_line}
use a3sql.Serialize.Csv.RoundTrip.{parse_csv_line-csv_line}
use a3sql.Examples.{example_host, example_machine, example_machine-IsFloatUnit}

abbrev same_number : ℕ → ℕ → Bool
same_number m n = m == n

abbrev three_rows : List ℕ
three_rows = 5 ∷ 6 ∷ 7 ∷ []

-- LIMIT 1, 2
abbrev last_two : Option LimitClause
last_two =
    some
      (LimitClause.offset_comma_limit (LimitExpr.number (bytes "1")) (LimitExpr.number (bytes "2")))

apply_limit_offset-limited_example : apply_limit_offset three_rows last_two ≡ some (6 ∷ 7 ∷ [])
unfolding to_decimal
apply_limit_offset-limited_example =
    apply_limit_offset-limited three_rows last_two (some 1) (some 2)
      ((refl, omega arith), (refl, omega arith)) (omega arith)

-- A row that is its own key.
abbrev whole_key : Key → Result Key ℕ
whole_key row = ok row

abbrev keys : List Key
keys =
    (DbValue.string (bytes "a") ∷ []) ∷ (DbValue.null ∷ []) ∷ (DbValue.string (bytes "a") ∷ []) ∷ []

abbrev grouped_keys : List (List Key)
grouped_keys =
    ((DbValue.string (bytes "a") ∷ []) ∷ (DbValue.string (bytes "a") ∷ []) ∷ [])
    ∷ ((DbValue.null ∷ []) ∷ [])
    ∷ []

keys_grouped : partition_by_group whole_key keys ≡ ok grouped_keys
unfolding partition_by_group group_keys_equal Text-discrete
keys_grouped = refl

partition_by_group-IsGrouping_example : IsGrouping whole_key keys grouped_keys
partition_by_group-IsGrouping_example =
    partition_by_group-IsGrouping whole_key keys grouped_keys keys_grouped

-- `i64::MIN / -1`
abbrev least : DbValue
least = DbValue.int (negsuc (2 ^ 63 - 1))

abbrev minus_one : DbValue
minus_one = DbValue.int (negsuc 0)

apply_binary_op-IsSound_example :
    IsSound
      (IsOverflow example_host example_machine BinaryOperator.divide least minus_one)
      (apply_binary_op example_host example_machine least BinaryOperator.divide minus_one)
apply_binary_op-IsSound_example =
    apply_binary_op-IsSound example_host example_machine BinaryOperator.divide least minus_one
      example_machine-IsFloatUnit (omega arith) (omega arith)

wildcard_match-Matches_example :
    (wildcard_match (bytes "a*?c") (bytes "abbc") ≡ true) ↔ Matches (bytes "a*?c") (bytes "abbc")
wildcard_match-Matches_example = wildcard_match-Matches (bytes "a*?c") (bytes "abbc")

parse_csv_line-csv_line_example :
    parse_csv_line (λ s. s) (csv_line (bytes "a,b" ∷ bytes "\"c" ∷ []))
    ≡ map (λ s. s) (bytes "a,b" ∷ bytes "\"c" ∷ [])
parse_csv_line-csv_line_example = parse_csv_line-csv_line (λ s. s) (bytes "a,b") (bytes "\"c" ∷ [])

abbrev pick : Bool → DbValue
pick true = DbValue.string (bytes "b")
pick false = DbValue.string (bytes "a")

abbrev IsPick : DbValue → Type 0
IsPick v = (b : Bool) × (v ≡ pick b)

pick-reflexive : (x : Bool) → before example_host (pick x) (pick x) ≡ true
unfolding db_value_cmp text_compare parse_nat
pick-reflexive true = refl
pick-reflexive false = refl

pick-total :
    (x y : Bool)
    → before example_host (pick x) (pick y) ≡ false
    → before example_host (pick y) (pick x) ≡ true
unfolding db_value_cmp text_compare parse_nat
pick-total true true h = refl
pick-total true false h = refl
pick-total false true h = absurd (cc)
pick-total false false h = refl

pick-transitive :
    (x y z : Bool)
    → before example_host (pick x) (pick y) ≡ true
    → before example_host (pick y) (pick z) ≡ true
    → before example_host (pick x) (pick z) ≡ true
unfolding db_value_cmp text_compare parse_nat
pick-transitive false y z h k = elim z as (λ z. before example_host (pick false) (pick z) ≡ true) [
  | true ↦ refl
  | false ↦ refl
]
pick-transitive true true z h k = k
pick-transitive true false z h k = absurd (cc)

IsPick-IsOrder : IsOrder example_host IsPick
IsPick-IsOrder = record {
  reflexive = λ a (x, e). rw e (pick-reflexive x);
  total = λ a b (x, e) (y, f) h. rw (e, f) (pick-total x y (rw (e, f) at h));
  transitive = λ a b c (x, e) (y, f) (z, g) h k.
      rw (e, g) (pick-transitive x y z (rw (e, f) at h) (rw (f, g) at k));
}

-- Rows with one cell, one of them NULL, and one that the FILTER, the cell itself, refuses.
abbrev cells : List DbValue
cells = pick true ∷ DbValue.null ∷ pick false ∷ DbValue.bool false ∷ pick true ∷ []

abbrev itself : Option (DbValue → Option DbValue)
itself = some some

cells-IsPick : (x : DbValue) → HasValue example_host some itself cells x → IsPick x
cells-IsPick x (inl c) = (true, sym (some-injective _ _ c.evaluated))
cells-IsPick x (inr (inl c)) = absurd (c.not_null (sym (some-injective _ _ c.evaluated)))
cells-IsPick x (inr (inr (inl c))) = (false, sym (some-injective _ _ c.evaluated))
cells-IsPick x (inr (inr (inr (inl c)))) =
    absurd (c.allowed (DbValue.bool false, refl, unfold is_truthy in refl))
cells-IsPick x (inr (inr (inr (inr (inl c))))) = (true, sym (some-injective _ _ c.evaluated))
cells-IsPick x (inr (inr (inr (inr (inr h))))) = absurd h

cells_least : aggregate_min example_host some itself cells ≡ ok (pick false)
unfolding aggregate_min text_compare parse_nat
cells_least = refl

cells_greatest : aggregate_max example_host some itself cells ≡ ok (pick true)
unfolding aggregate_max text_compare parse_nat
cells_greatest = refl

aggregate-IsExtreme_example :
    IsMinimum example_host some itself cells (pick false)
    × IsMaximum example_host some itself cells (pick true)
aggregate-IsExtreme_example =
    aggregate-IsExtreme example_host some itself IsPick cells (pick false) (pick true)
      IsPick-IsOrder cells-IsPick cells_least cells_greatest
