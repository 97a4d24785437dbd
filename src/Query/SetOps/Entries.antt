-- ===== src/Query/SetOps/Entries.antt =====
-- The counted rows of INTERSECT ALL.
use a3sql.Prelude.{
  ℕ, zero, suc, ◌+◌, ◌≡◌, refl, min, Bool, true, false, Option, none, some, List, [], ◌∷◌, arith,
  if◌then◌else◌, Bool-cases, inl, inr,
}
use a3sql.Query.SetOps.{count_row, count_rows, row_counts, find_count, repeat, shared, shared_entry}
use a3sql.Query.SetOps.Counts.{IsEquality, bit, count, count-append, same-right}

abbrev amount : Option ℕ → ℕ
amount none = 0
amount (some n) = n

module _ {R : Type 0} (same : R → R → Bool) (laws : IsEquality same) where
  -- No row of the entries equals this one.
  abbrev IsNew : R → List (R × ℕ) → Type 0
  IsNew x counts = find_count same x counts ≡ none

  abbrev Differ : List (R × ℕ) → Type 0
  Differ [] = Unit
  Differ ((r, n) ∷ counts) = IsNew r counts × Differ counts

  find_count-count_row :
      (x row : R) (counts : List (R × ℕ))
      → amount (find_count same x (count_row same counts row))
        ≡ amount (find_count same x counts) + bit (same row x)
  unfolding find_count count_row
  find_count-count_row x row [] = ground arith
  find_count-count_row x row ((r, n) ∷ counts) =
      let ih = find_count-count_row x row counts in
      elim (Bool-cases (same r row)) [
        | inl e ↦ let equal = laws.respects r row x e in ground arith
        | inr e ↦ elim (Bool-cases (same r x)) [
          | inl q ↦
              let other : same row x ≡ false =
                cc (same-right same laws r x row q, laws.symmetric row r) in
              ground arith
          | inr q ↦ ground arith
        ]
      ]

  find_count-count_rows :
      (x : R) (counts : List (R × ℕ)) (rows : List R)
      → amount (find_count same x (count_rows same counts rows))
        ≡ amount (find_count same x counts) + count same x rows
  unfolding count_rows count
  find_count-count_rows x counts [] = omega arith
  find_count-count_rows x counts (row ∷ rows) =
      let ih = find_count-count_rows x (count_row same counts row) rows in
      let step = find_count-count_row x row counts in omega arith

  IsNew-count_row :
      (x row : R) (counts : List (R × ℕ))
      → IsNew x counts
      → same row x ≡ false
      → IsNew x (count_row same counts row)
  unfolding find_count count_row
  IsNew-count_row x row [] new other = ground arith
  IsNew-count_row x row ((r, n) ∷ counts) new other = ground (arith, IsNew-count_row x row counts)

  count_row-Differ :
      (row : R) (counts : List (R × ℕ)) → Differ counts → Differ (count_row same counts row)
  unfolding count_row find_count
  count_row-Differ row [] d = (refl, tt)
  count_row-Differ row ((r, n) ∷ counts) (new, d) = elim (Bool-cases (same r row)) [
    | inl e ↦ rw (Differ, e) (new, d)
    | inr e ↦
        let other : same row r ≡ false = cc (laws.symmetric row r) in
        rw (Differ, e) (IsNew-count_row r row counts new other, count_row-Differ row counts d)
  ]

  count_rows-Differ :
      (counts : List (R × ℕ)) (rows : List R) → Differ counts → Differ (count_rows same counts rows)
  unfolding count_rows
  count_rows-Differ counts [] d = d
  count_rows-Differ counts (row ∷ rows) d =
      count_rows-Differ (count_row same counts row) rows (count_row-Differ row counts d)

  count-repeat : (x r : R) (n : ℕ) → count same x (repeat same n r) ≡ (if same r x then n else 0)
  unfolding count
  count-repeat x r zero = ground arith
  count-repeat x r (suc n) = ground (arith, count-repeat x r n)

  count-shared_entry :
      (x r : R) (n : ℕ) (o : Option ℕ)
      → count same x (shared_entry same r n o) ≡ (if same r x then min n (amount o) else 0)
  unfolding count
  count-shared_entry x r n none = ground arith
  count-shared_entry x r n (some m) = count-repeat x r (min n m)

  find_count-same :
      (x y : R) (counts : List (R × ℕ))
      → same x y ≡ true
      → find_count same x counts ≡ find_count same y counts
  unfolding find_count
  find_count-same x y [] e = refl
  find_count-same x y ((r, n) ∷ counts) e =
      ground (arith, same-right same laws x y r e, find_count-same x y counts e)

  count-shared :
      (x : R) (l_counts r_counts : List (R × ℕ))
      → Differ l_counts
      → count same x (shared same l_counts r_counts)
        ≡ min (amount (find_count same x l_counts)) (amount (find_count same x r_counts))
  unfolding shared count find_count
  count-shared x [] r_counts d = ground arith
  count-shared x ((r, n) ∷ l_counts) r_counts (new, d) =
      let split =
        count-append same x (shared_entry same r n (find_count same r r_counts))
          (shared same l_counts r_counts) in
      let entry = count-shared_entry x r n (find_count same r r_counts) in
      let ih = count-shared x l_counts r_counts d in
      elim (Bool-cases (same r x)) [
        | inl e ↦
            let here = find_count-same r x r_counts e in
            let gone = find_count-same r x l_counts e in ground arith
        | inr e ↦ ground arith
      ]

  -- Rows counted on both sides and shared occur as often as on the side that has fewer.
  pub count-shared-row_counts :
      (x : R) (ls rs : List R)
      → count same x (shared same (row_counts same ls) (row_counts same rs))
        ≡ min (count same x ls) (count same x rs)
  unfolding row_counts find_count
  count-shared-row_counts x ls rs =
      let left = find_count-count_rows x [] ls in
      let right = find_count-count_rows x [] rs in
      let both =
        count-shared x (row_counts same ls) (row_counts same rs) (count_rows-Differ [] ls tt) in
      ground arith
