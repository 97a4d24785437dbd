-- ===== src/Query/SetOps/Counts.antt =====
-- How often a row occurs in what the loops of the set operations build.
use a3sql.Prelude.{
  ℕ, ◌+◌, ◌-◌, ◌≡◌, refl, Bool, true, false, ◌&&◌, List, [], ◌∷◌, ◌++◌, arith, ltb, ◌==◌,
  if◌then◌else◌, Bool-cases, inl, inr,
}
use a3sql.Query.SetOps.{
  contains, push_new, push_all, remove_first, remove_all, outside, keep_common,
}

abbrev pub bit : Bool → ℕ
bit true = 1
bit false = 0

-- The laws of `==` on rows that the counts rely on.
pub record IsEquality {R : Type 0} (same : R → R → Bool) : Type 0 where
  pub reflexive : (x : R) → same x x ≡ true
  pub symmetric : (x y : R) → same x y ≡ same y x
  pub respects : (x y z : R) → same x y ≡ true → same x z ≡ same y z

module _ {R : Type 0} (same : R → R → Bool) where
  unfoldable pub count : R → List R → ℕ
  count x [] = 0
  count x (row ∷ rows) = bit (same row x) + count x rows

  pub count-append : (x : R) (xs ys : List R) → count x (xs ++ ys) ≡ count x xs + count x ys
  unfolding count
  count-append x [] ys = omega arith
  count-append x (y ∷ xs) ys = ground (arith, count-append x xs ys)

  pub contains-count : (x : R) (rows : List R) → contains same x rows ≡ ltb 0 (count x rows)
  unfolding count contains
  contains-count x [] = refl
  contains-count x (row ∷ rows) = ground (arith, contains-count x rows)

  module _ (laws : IsEquality same) where
    pub same-right : (x y z : R) → same x y ≡ true → same z x ≡ same z y
    same-right x y z e = cc (laws.respects x y z e, laws.symmetric z x, laws.symmetric z y)

    pub count-same : (x y : R) (rows : List R) → same x y ≡ true → count x rows ≡ count y rows
    unfolding count
    count-same x y [] e = refl
    count-same x y (row ∷ rows) e = ground (arith, same-right x y row e, count-same x y rows e)

    pub count-push_new :
        (x row : R) (rows : List R)
        → count x (push_new same rows row)
          ≡ (if same row x && count x rows == 0 then 1 else count x rows)
    unfolding push_new count
    count-push_new x row rows =
        let there = contains-count row rows in
        let appended = count-append x rows (row ∷ []) in
        elim (Bool-cases (same row x)) [
          | inl e ↦ let equal = count-same row x rows e in ground arith
          | inr e ↦ ground arith
        ]

    pub count-push_all :
        (x : R) (rows more : List R)
        → count x (push_all same rows more)
          ≡ (if count x rows == 0 then bit (ltb 0 (count x more)) else count x rows)
    unfolding push_all count
    count-push_all x rows [] = ground arith
    count-push_all x rows (row ∷ more) =
        ground (arith, count-push_all x (push_new same rows row) more, count-push_new x row rows)

    pub count-remove_first :
        (x r : R) (input : List R)
        → count x (remove_first same r input) ≡ count x input - bit (same r x)
    unfolding remove_first count
    count-remove_first x r [] = ground arith
    count-remove_first x r (d ∷ input) = elim (Bool-cases (same d r)) [
      | inl e ↦ let equal = laws.respects d r x e in ground arith
      | inr e ↦ elim (Bool-cases (same r x)) [
        | inl q ↦
            let other : same d x ≡ false = cc (same-right r x d q) in
            ground (arith, count-remove_first x r input)
        | inr q ↦ ground (arith, count-remove_first x r input)
      ]
    ]

    pub count-remove_all :
        (x : R) (input rs : List R)
        → count x (remove_all same input rs) ≡ count x input - count x rs
    unfolding remove_all count
    count-remove_all x input [] = omega arith
    count-remove_all x input (r ∷ rs) =
        ground
          (arith, count-remove_all x (remove_first same r input) rs, count-remove_first x r input)

    pub count-outside :
        (x : R) (ls rs : List R)
        → count x (outside same ls rs) ≡ (if ltb 0 (count x rs) then 0 else count x ls)
    unfolding outside count
    count-outside x [] rs = ground arith
    count-outside x (l ∷ ls) rs =
        let there = contains-count l rs in
        let ih = count-outside x ls rs in
        elim (Bool-cases (same l x)) [
          | inl e ↦ let equal = count-same l x rs e in ground arith
          | inr e ↦ ground arith
        ]

    pub count-keep_common :
        (x : R) (rows ls rs : List R)
        → count x (keep_common same rows ls rs) ≡ (
            if ltb 0 (count x rs) && count x rows == 0
            then bit (ltb 0 (count x ls))
            else count x rows)
    unfolding keep_common count
    count-keep_common x rows [] rs = ground arith
    count-keep_common x rows (l ∷ ls) rs =
        let common = contains-count l rs in
        let there = contains-count l rows in
        let appended = count-append x rows (l ∷ []) in
        let ih_kept = count-keep_common x rows ls rs in
        let ih_pushed = count-keep_common x (rows ++ (l ∷ [])) ls rs in
        elim (Bool-cases (same l x)) [
          | inl e ↦
              let equal = count-same l x rs e in let equal' = count-same l x rows e in ground arith
          | inr e ↦ ground arith
        ]
