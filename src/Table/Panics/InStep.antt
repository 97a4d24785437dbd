-- ===== src/Table/Panics/InStep.antt =====
-- Tables whose `col_index` gives the position of every column: they are free of the panics of `row[ci]`.
use a3sql.Prelude.{
  ℕ, suc, ◌+◌, ◌≡◌, refl, sym, ap, ◌∙◌, subst, true, Option, none, some, List, [], ◌∷◌, length, ok,
  ltb, ite, arith, All, >>=-eq-ok, ok-injective,
}
use a3sql.Prelude.Map
use a3sql.Prelude.Map.{Map}
use a3sql.Prelude.Text.{Text, Text-discrete}
use a3sql.Value.{Column}
use a3sql.Index.{IndexMeta}
use a3sql.Table.Defs.{Table, Row, IndexImpl, index_columns, new, fresh}
use a3sql.Table.Panics.{reaches, in_bounds, all_in_bounds}

abbrev one_more : Option ℕ → Option ℕ
one_more none = none
one_more (some i) = some (suc i)

insert_kept :
    (key : Text) (i : ℕ) (m : Map ℕ) (name : Text) (j : ℕ)
    → m key ≡ none
    → m name ≡ some j
    → Map.insert key i m name ≡ some j
insert_kept key i m name j free k = split (Text-discrete key name)
  where
    split : (d : Dec (key ≡ name)) → ite d (some i) (m name) ≡ some j
    split (yes p) = absurd (cc)
    split (no p) = k

-- A position counted from `i`, or else what the map has.
abbrev placed : ℕ → Option ℕ → Option ℕ → Option ℕ
placed i none old = old
placed i (some j) old = some (i + j)

placed-zero : (o : Option ℕ) → placed 0 o none ≡ o
placed-zero none = refl
placed-zero (some j) = ap some (omega arith)

module _ {E : Type 0} where
  -- The position of the first column of the name.
  abbrev pub position : Text → List (Column E) → Option ℕ
  position name [] = none
  position name (c ∷ cs) =
      let rest = position name cs in ite (Text-discrete c.name name) (some 0) (one_more rest)

  -- `col_index` holds the position of every column, and no other name.
  abbrev pub InStep : Table E → Type 0
  InStep t = (name : Text) → t.col_index name ≡ position name t.columns

  position-bound :
      (name : Text) (cs : List (Column E)) (ci : ℕ)
      → position name cs ≡ some ci
      → ltb ci (length cs) ≡ true
  position-bound name [] ci e = absurd (cc)
  position-bound name (c ∷ cs) ci e =
      split (Text-discrete c.name name) (position name cs) (position-bound name cs) e
    where
      split :
          {P : Type 0} (d : Dec P) (o : Option ℕ)
          → ((i : ℕ) → o ≡ some i → ltb i (length cs) ≡ true)
          → ite d (some 0) (one_more o) ≡ some ci
          → ltb ci (suc (length cs)) ≡ true
      split (yes p) o later e = ground arith
      split (no p) none later e = absurd (cc)
      split (no p) (some i) later e = ground (arith, later i refl)

  reaches-position :
      (row : Row) (name : Text) (cs : List (Column E)) (o : Option ℕ)
      → length row ≡ length cs
      → position name cs ≡ o
      → reaches row o ≡ true
  reaches-position row name cs none w e = refl
  reaches-position row name cs (some ci) w e = rw w (position-bound name cs ci e)

  pub in_bounds-InStep :
      (cs : List (Column E)) (m : Map ℕ) (row : Row) (indices : List (IndexMeta × IndexImpl))
      → ((name : Text) → m name ≡ position name cs)
      → length row ≡ length cs
      → in_bounds m row indices ≡ true
  unfolding in_bounds
  in_bounds-InStep cs m row [] step w = refl
  in_bounds-InStep cs m row ((meta, impl) ∷ indices) step w =
      rw (step meta.column, reaches-position row meta.column cs (position meta.column cs) w refl)
        (in_bounds-InStep cs m row indices step w)

  pub all_in_bounds-InStep :
      (cs : List (Column E)) (m : Map ℕ) (rows : List Row) (indices : List (IndexMeta × IndexImpl))
      → ((name : Text) → m name ≡ position name cs)
      → All (λ (row : Row). length row ≡ length cs) rows
      → all_in_bounds m rows indices ≡ true
  unfolding all_in_bounds
  all_in_bounds-InStep cs m [] indices step ws = refl
  all_in_bounds-InStep cs m (row ∷ rows) indices step (w, ws) =
      rw (in_bounds-InStep cs m row indices step w) (all_in_bounds-InStep cs m rows indices step ws)

  index_columns-next :
      (i : ℕ) (c : Column E) (cs : List (Column E)) (m m' : Map ℕ)
      → index_columns i (c ∷ cs) m ≡ ok m'
      → (m c.name ≡ none) × (index_columns (suc i) cs (Map.insert c.name i m) ≡ ok m')
  unfolding index_columns
  index_columns-next i c cs m m' e = ground arith

  -- The loop of `Table::new` keeps the positions that the map has.
  index_columns-kept :
      (i : ℕ) (cs : List (Column E)) (m m' : Map ℕ) (name : Text) (j : ℕ)
      → index_columns i cs m ≡ ok m'
      → m name ≡ some j
      → m' name ≡ some j
  unfolding index_columns
  index_columns-kept i [] m m' name j e k = ap (λ (n : Map ℕ). n name) (sym (ok-injective e)) ∙ k
  index_columns-kept i (c ∷ cs) m m' name j e k =
      let (free, rest) = index_columns-next i c cs m m' e in
      index_columns-kept (suc i) cs (Map.insert c.name i m) m' name j rest
        (insert_kept c.name i m name j free k)

  index_columns-position :
      (i : ℕ) (cs : List (Column E)) (m m' : Map ℕ) (name : Text)
      → index_columns i cs m ≡ ok m'
      → m' name ≡ placed i (position name cs) (m name)
  unfolding index_columns
  index_columns-position i [] m m' name e = ap (λ (n : Map ℕ). n name) (sym (ok-injective e))
  index_columns-position i (c ∷ cs) m m' name e =
      let (free, rest) = index_columns-next i c cs m m' e in
      split (Text-discrete c.name name) (position name cs)
        (index_columns-kept (suc i) cs (Map.insert c.name i m) m' name i rest)
        (index_columns-position (suc i) cs (Map.insert c.name i m) m' name rest)
    where
      split :
          {P : Type 0} (d : Dec P) (o : Option ℕ)
          → (ite d (some i) (m name) ≡ some i → m' name ≡ some i)
          → m' name ≡ placed (suc i) o (ite d (some i) (m name))
          → m' name ≡ placed i (ite d (some 0) (one_more o)) (m name)
      split (yes p) o held later = held refl ∙ ap some (omega arith)
      split (no p) none held later = later
      split (no p) (some j) held later = later ∙ ap some (omega arith)

  -- A table that `Table::new` makes is in step.
  pub new-InStep :
      (name : Text) (cs : List (Column E)) (t : Table E) → new name cs ≡ ok t → InStep t
  unfolding new
  new-InStep name [] t e = absurd (cc)
  new-InStep name (c ∷ cs) t e =
      let (m, a, b) =
        >>=-eq-ok (index_columns 0 (c ∷ cs) Map.empty) (λ m. ok (fresh name (c ∷ cs) m)) e in
      subst InStep (ok-injective b) λ key.
        index_columns-position 0 (c ∷ cs) Map.empty m key a ∙ placed-zero (position key (c ∷ cs))
