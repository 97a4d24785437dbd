-- ===== src/Query/Groups/Partition.antt =====
-- What `partition_by_group` makes of its rows.
use a3sql.Prelude.{
  ◌≡◌, refl, sym, ap, subst, ◌∙◌, Bool, true, false, List, [], ◌∷◌, ◌++◌, map, append_assoc,
  append-nil, Result, err, ok, >>=-eq-ok, ok-injective, if◌then◌else◌, Bool-cases, inl, inr,
}
use a3sql.Value.Group.{group_keys_equal}
use a3sql.Value.Group.Hash.{hash_group_key-equal}
use a3sql.Query.Groups.{Key, Groups, push_row, group_rows, partition_by_group}

equal-symmetric : (x y : Key) → group_keys_equal x y ≡ true → group_keys_equal y x ≡ true
equal-symmetric x y e = (hash_group_key-equal y x).1 (sym ((hash_group_key-equal x y).0 e))

equal-transitive :
    (x y z : Key)
    → group_keys_equal x y ≡ true
    → group_keys_equal y z ≡ true
    → group_keys_equal x z ≡ true
equal-transitive x y z e f =
    (hash_group_key-equal x z).1 ((hash_group_key-equal x y).0 e ∙ (hash_group_key-equal y z).0 f)

equal-respects :
    (x y z : Key) → group_keys_equal x y ≡ true → group_keys_equal x z ≡ group_keys_equal y z
equal-respects x y z e = elim (Bool-cases (group_keys_equal x z)) [
  | inl left ↦ left ∙ sym (equal-transitive y x z (equal-symmetric x y e) left)
  | inr left ↦ elim (Bool-cases (group_keys_equal y z)) [
    | inl right ↦ absurd (cc (equal-transitive x y z e right))
    | inr right ↦ left ∙ sym right
  ]
]

not-equal :
    (x y z : Key)
    → group_keys_equal x z ≡ true
    → group_keys_equal x y ≡ false
    → group_keys_equal y z ≡ false
not-equal x y z e other = elim (Bool-cases (group_keys_equal y z)) [
  | inr f ↦ f
  | inl f ↦ let same = equal-transitive x z y e (equal-symmetric y z f) in absurd (cc)
]

unequal-symmetric : (x y : Key) → group_keys_equal x y ≡ false → group_keys_equal y x ≡ false
unequal-symmetric x y other = elim (Bool-cases (group_keys_equal y x)) [
  | inr f ↦ f
  | inl f ↦ let same = equal-symmetric y x f in absurd (cc)
]

module _ {R : Type 0} where
  -- The rows of a key's group.
  unfoldable pub group_of : Key → Groups R → List R
  group_of key [] = []
  group_of key ((k, rows) ∷ groups) = if group_keys_equal k key then rows else group_of key groups

  abbrev IsNew : Key → Groups R → Type 0
  IsNew key [] = Unit
  IsNew key ((k, rows) ∷ groups) = (group_keys_equal k key ≡ false) × IsNew key groups

  -- No two groups have equal keys.
  abbrev pub Differ : Groups R → Type 0
  Differ [] = Unit
  Differ ((k, rows) ∷ groups) = IsNew k groups × Differ groups

  abbrev row_if : Bool → R → List R
  row_if true row = row ∷ []
  row_if false row = []

  group_of-push_row :
      (key k : Key) (row : R) (groups : Groups R)
      → group_of key (push_row k row groups)
        ≡ group_of key groups ++ row_if (group_keys_equal k key) row
  unfolding group_of push_row
  group_of-push_row key k row [] = elim (Bool-cases (group_keys_equal k key)) [
    | inl e ↦ rw (group_of, e) refl
    | inr e ↦ rw (group_of, e) refl
  ]
  group_of-push_row key k row ((k', rows) ∷ groups) = elim (Bool-cases (group_keys_equal k' k)) [
    | inl e ↦ elim (Bool-cases (group_keys_equal k key)) [
      | inl q ↦ rw (push_row, e, group_of, equal-respects k' k key e, q) refl
      | inr q ↦ rw (push_row, e, group_of, equal-respects k' k key e, q, append-nil) refl
    ]
    | inr e ↦ elim (Bool-cases (group_keys_equal k' key)) [
      | inl q ↦
          let other : group_keys_equal k key ≡ false = not-equal k' k key q e in
          rw (push_row, e, group_of, q, other, append-nil) refl
      | inr q ↦ rw (push_row, e, group_of, q) (group_of-push_row key k row groups)
    ]
  ]

  IsNew-push_row :
      (key k : Key) (row : R) (groups : Groups R)
      → IsNew key groups
      → group_keys_equal k key ≡ false
      → IsNew key (push_row k row groups)
  unfolding push_row
  IsNew-push_row key k row [] new other = (other, tt)
  IsNew-push_row key k row ((k', rows) ∷ groups) (first, new) other =
      elim (Bool-cases (group_keys_equal k' k)) [
        | inl e ↦ rw (IsNew, e) (first, new)
        | inr e ↦ rw (IsNew, e) (first, IsNew-push_row key k row groups new other)
      ]

  push_row-Differ :
      (k : Key) (row : R) (groups : Groups R) → Differ groups → Differ (push_row k row groups)
  unfolding push_row
  push_row-Differ k row [] d = (tt, tt)
  push_row-Differ k row ((k', rows) ∷ groups) (new, d) = elim (Bool-cases (group_keys_equal k' k)) [
    | inl e ↦ rw (Differ, e) (new, d)
    | inr e ↦
        rw (Differ, e)
          (
            IsNew-push_row k' k row groups new (unequal-symmetric k' k e),
            push_row-Differ k row groups d,
          )
  ]

module _ {R F : Type 0} (key_of : R → Result Key F) where
  abbrev row_with : Key → R → Result Key F → List R → List R
  row_with key row (err failure) rows = rows
  row_with key row (ok k) rows = if group_keys_equal k key then row ∷ rows else rows

  -- The rows with this key, in their order.
  unfoldable pub with_key : Key → List R → List R
  with_key key [] = []
  with_key key (row ∷ rows) = row_with key row (key_of row) (with_key key rows)

  group_of-group_rows :
      (key : Key) (groups : Groups R) (rows : List R) {result : Groups R}
      → group_rows key_of groups rows ≡ ok result
      → group_of key result ≡ group_of key groups ++ with_key key rows
  unfolding group_rows with_key
  group_of-group_rows key groups [] e = rw append-nil (ap (group_of key) (sym (ok-injective e)))
  group_of-group_rows key groups (row ∷ rows) e =
      let (k, read, more) =
        >>=-eq-ok (key_of row) (λ k. group_rows key_of (push_row k row groups) rows) e in
      let rest = group_of-group_rows key (push_row k row groups) rows more in
      elim (Bool-cases (group_keys_equal k key)) [
        | inl q ↦
            rw (read, q) (rest ∙ rw (group_of-push_row key k row groups, q, append_assoc) refl)
        | inr q ↦ rw (read, q) (rest ∙ rw (group_of-push_row key k row groups, q, append-nil) refl)
      ]

  group_rows-Differ :
      (groups : Groups R) (rows : List R) {result : Groups R}
      → Differ groups
      → group_rows key_of groups rows ≡ ok result
      → Differ result
  unfolding group_rows
  group_rows-Differ groups [] d e = subst Differ (ok-injective e) d
  group_rows-Differ groups (row ∷ rows) d e =
      let (k, read, more) =
        >>=-eq-ok (key_of row) (λ k. group_rows key_of (push_row k row groups) rows) e in
      group_rows-Differ (push_row k row groups) rows (push_row-Differ k row groups d) more

  -- The groups, each under its key: no two keys are equal, and the group of a key is the rows that
  -- have it.
  abbrev pub IsGrouping : List R → List (List R) → Type 0
  IsGrouping rows result =
      (groups : Groups R) × (result ≡ map (λ g. g.1) groups)
      × Differ groups
      × ((key : Key) → group_of key groups ≡ with_key key rows)

  -- If the keys of all rows can be computed, the groups of GROUP BY stand under keys of which
  -- no two are equal, and the group of any key is the rows with an equal key, in their order.
  pub partition_by_group-IsGrouping :
      (rows : List R) (result : List (List R))
      → partition_by_group key_of rows ≡ ok result
      → IsGrouping rows result
  unfolding partition_by_group group_of
  partition_by_group-IsGrouping rows result e =
      let (groups, grouped, same) =
        >>=-eq-ok (group_rows key_of [] rows) (λ gs. ok (map (λ g. g.1) gs)) e in
      (
        groups,
        sym (ok-injective same),
        group_rows-Differ [] rows tt grouped,
        λ key. group_of-group_rows key [] rows grouped,
      )
