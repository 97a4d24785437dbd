-- ===== src/Functions/Aggregates/Counted.antt =====
-- MIN and MAX against the rows that count in a group: those that the FILTER does not refuse and whose
-- argument gives a value other than NULL (functions/aggregate.rs).
use a3sql.Prelude.{
  ◌≡◌, refl, ◌∙◌, sym, ◌⊎◌, inl, inr, Bool, true, false, Option, none, some, List, [], ◌∷◌, All, ok,
  Bool-cases, arith, subst, ap, Option-cases, if◌then◌else◌,
}
use a3sql.Host.{Host}
use a3sql.Value.{DbValue, is_null}
use a3sql.Functions.Operators.{is_truthy}
use a3sql.Functions.Aggregates.{
  passes_filter, keep_value, group_values, aggregate_min, aggregate_max,
}
use a3sql.Functions.Aggregates.Extremes.{before, IsOrder, IsAmong, values-IsExtreme}

module _ {R E : Type 0} (host : Host E) (eval : R → Option DbValue)
    (filter : Option (R → Option DbValue)) where
  -- The FILTER gives the row a value that is not true; a FILTER that fails refuses no row.
  abbrev pub Refuses : Option (R → Option DbValue) → R → Type 0
  Refuses none row = ⊥
  Refuses (some condition) row = (v : DbValue) × (condition row ≡ some v) × (is_truthy v ≡ false)

  -- The row counts, with the value.
  pub record Counts (row : R) (v : DbValue) : Type 0 where
    pub allowed : ¬ Refuses filter row
    pub evaluated : eval row ≡ some v
    pub not_null : ¬ (v ≡ DbValue.null)

  -- A row that counts has the value.
  abbrev pub HasValue : List R → DbValue → Type 0
  HasValue [] v = ⊥
  HasValue (row ∷ rows) v = Counts row v ⊎ HasValue rows v

  -- A value of the rows that comes before all others, and one that comes after all others.
  abbrev pub IsMinimum : List R → DbValue → Type 0
  IsMinimum rows m = HasValue rows m × ((v : DbValue) → HasValue rows v → before host m v ≡ true)

  abbrev pub IsMaximum : List R → DbValue → Type 0
  IsMaximum rows m = HasValue rows m × ((v : DbValue) → HasValue rows v → before host v m ≡ true)

  abbrev passes : R → Bool
  passes row = passes_filter host eval filter row

  abbrev values : List R → List DbValue
  values rows = group_values host eval filter rows

  is_null-no : (v : DbValue) → is_null v ≡ false → ¬ (v ≡ DbValue.null)
  unfolding is_null
  is_null-no v h e = ground arith

  no-is_null : (v : DbValue) → ¬ (v ≡ DbValue.null) → is_null v ≡ false
  unfolding is_null
  no-is_null v h = ground arith

  passes-allowed :
      (f : Option (R → Option DbValue)) (row : R)
      → ¬ Refuses f row
      → passes_filter host eval f row ≡ true
  unfolding passes_filter
  passes-allowed none row h = refl
  passes-allowed (some condition) row h = elim (Option-cases (condition row)) [
    | inl failed ↦ rw failed refl
    | inr (v, e) ↦ elim (Bool-cases (is_truthy v)) [
      | inl holding ↦ rw (e, holding) refl
      | inr refusing ↦ absurd (h (v, e, refusing))
    ]
  ]

  allowed-passes :
      (f : Option (R → Option DbValue)) (row : R)
      → passes_filter host eval f row ≡ true
      → ¬ Refuses f row
  unfolding passes_filter
  allowed-passes none row h r = r
  allowed-passes (some condition) row h (v, e, refusing) = ground arith

  module _ (row : R) (v : DbValue) (vs : List DbValue) where
    filled-Counts :
        (w : DbValue) (empty : Bool)
        → passes row ≡ true
        → eval row ≡ some w
        → is_null w ≡ empty
        → IsAmong host v (if empty then vs else w ∷ vs)
        → Counts row v ⊎ IsAmong host v vs
    filled-Counts w true p e n h = inr h
    filled-Counts w false p e n (inr later) = inr later
    filled-Counts w false p e n (inl same) = inl (record {
      allowed = allowed-passes filter row p;
      evaluated = e ∙ ap some (sym same);
      not_null = λ z. is_null-no w n (sym same ∙ z);
    })

    kept-Counts :
        (b : Bool) (o : Option DbValue)
        → passes row ≡ b
        → eval row ≡ o
        → IsAmong host v (if b then keep_value host eval filter o vs else vs)
        → Counts row v ⊎ IsAmong host v vs
    kept-Counts false o p e h = inr h
    kept-Counts true none p e h = inr h
    kept-Counts true (some w) p e h = filled-Counts w (is_null w) p e refl h

    filled-IsAmong :
        (w : DbValue) (empty : Bool)
        → IsAmong host v vs
        → IsAmong host v (if empty then vs else w ∷ vs)
    filled-IsAmong w true h = h
    filled-IsAmong w false h = inr h

    kept-IsAmong :
        (b : Bool) (o : Option DbValue)
        → IsAmong host v vs
        → IsAmong host v (if b then keep_value host eval filter o vs else vs)
    kept-IsAmong false o h = h
    kept-IsAmong true none h = h
    kept-IsAmong true (some w) h = filled-IsAmong w (is_null w) h

  -- The values that the code collects are those of the rows that count.
  IsAmong-HasValue : (rows : List R) (v : DbValue) → IsAmong host v (values rows) → HasValue rows v
  unfolding group_values
  IsAmong-HasValue [] v h = h
  IsAmong-HasValue (row ∷ rows) v h =
      elim (kept-Counts row v (values rows) (passes row) (eval row) refl refl h) [
        | inl c ↦ inl c
        | inr later ↦ inr (IsAmong-HasValue rows v later)
      ]

  values-Counts :
      (row : R) (rows : List R) (v : DbValue) → Counts row v → values (row ∷ rows) ≡ v ∷ values rows
  unfolding group_values
  values-Counts row rows v c =
      rw (passes-allowed filter row c.allowed, c.evaluated, no-is_null v c.not_null) refl

  HasValue-IsAmong : (rows : List R) (v : DbValue) → HasValue rows v → IsAmong host v (values rows)
  unfolding group_values
  HasValue-IsAmong [] v h = h
  HasValue-IsAmong (row ∷ rows) v (inl c) =
      subst (IsAmong host v) (sym (values-Counts row rows v c)) (inl refl)
  HasValue-IsAmong (row ∷ rows) v (inr later) =
      kept-IsAmong row v (values rows) (passes row) (eval row) (HasValue-IsAmong rows v later)

  All-IsAmong :
      (P : DbValue → Type 0) (vs : List DbValue)
      → ((v : DbValue) → IsAmong host v vs → P v)
      → All P vs
  All-IsAmong P [] h = tt
  All-IsAmong P (v ∷ vs) h = (h v (inl refl), All-IsAmong P vs (λ w k. h w (inr k)))

  All-at :
      (P : DbValue → Type 0) (vs : List DbValue) (v : DbValue) → All P vs → IsAmong host v vs → P v
  All-at P [] v a h = absurd h
  All-at P (w ∷ vs) v (p, ps) (inl same) = subst P (sym same) p
  All-at P (w ∷ vs) v (p, ps) (inr later) = All-at P vs v ps later

  -- If `db_value_cmp` orders the values that count in a group, those that the argument gives
  -- and that are not NULL on the rows to which the FILTER, if there is one, gives no value but
  -- a true one, then MIN, where it gives a value, gives one of them that comes before all of
  -- them, and MAX one that comes after all of them.
  pub aggregate-IsExtreme :
      (P : DbValue → Type 0) (rows : List R) (v w : DbValue)
      → IsOrder host P
      → ((x : DbValue) → HasValue rows x → P x)
      → aggregate_min host eval filter rows ≡ ok v
      → aggregate_max host eval filter rows ≡ ok w
      → IsMinimum rows v × IsMaximum rows w
  aggregate-IsExtreme P rows v w order ps least greatest =
      let all = All-IsAmong P (values rows) (λ x h. ps x (IsAmong-HasValue rows x h)) in
      let ((l, below), (g, above)) =
        values-IsExtreme host eval filter P order rows v w all least greatest in
      (
        (
          IsAmong-HasValue rows v l,
          λ x h.
              All-at (λ x. before host v x ≡ true) (values rows) x below
                (HasValue-IsAmong rows x h),
        ),
        (
          IsAmong-HasValue rows w g,
          λ x h.
              All-at (λ x. before host x w ≡ true) (values rows) x above
                (HasValue-IsAmong rows x h),
        ),
      )
