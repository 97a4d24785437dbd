-- ===== src/Database/Catalog.antt =====
-- The tables of engine/database.rs by name: creation, removal, renaming, lookup and listing.
use Prim.Native.Nat.Ordering.{lt, eq, gt}
use a3sql.Prelude.{
  ◌≡◌, ◌⊎◌, refl, sym, subst, ap, ◌∙◌, false, none, some, List, [], ◌∷◌, Result, ok, err, arith,
  inl, inr, Option-cases, Ordering,
}
use a3sql.Prelude.Text.{Text}
use a3sql.Prelude.Texts.{among, Distinct}
use a3sql.Prelude.Order.{text_compare, eq_of_text_compare, text_compare-lt_of_gt}
use a3sql.Prelude.Dict.{
  find, put, drop_key, keys, has_key, has_key-among, put-Distinct, drop_key-Distinct, find-put_same,
  find-put_other, find-drop_key,
}
use a3sql.Error.{Message, table_missing}
use a3sql.Table.Defs.{Table}
use a3sql.Database.{
  Database, create_table, add_table, drop_table, get_table, has_table, rename_table, sort_in,
  sort_names, table_names, create_view, drop_view,
}
use a3sql.Database.Transaction.{Edit, creates, writes, drops, renames, views, drops_view}

-- Strictly increasing, so that no name is listed twice.
abbrev pub Sorted : List Text → Type 0
Sorted [] = Unit
Sorted (k ∷ []) = Unit
Sorted (k ∷ j ∷ js) = (text_compare k j ≡ lt) × Sorted (j ∷ js)

-- `k` comes before the head of the list.
abbrev Before : Text → List Text → Type 0
Before k [] = Unit
Before k (j ∷ js) = text_compare k j ≡ lt

Sorted-cons : (k : Text) (js : List Text) → Before k js → Sorted js → Sorted (k ∷ js)
Sorted-cons k [] b s = tt
Sorted-cons k (j ∷ js) b s = (b, s)

Sorted-tail : (k : Text) (js : List Text) → Sorted (k ∷ js) → Sorted js
Sorted-tail k [] s = tt
Sorted-tail k (j ∷ js) s = s.1

Before-head : (k : Text) (js : List Text) → Sorted (k ∷ js) → Before k js
Before-head k [] s = tt
Before-head k (j ∷ js) s = s.0

among-sort_in : (i k : Text) (js : List Text) → among i (sort_in k js) ≡ among i (k ∷ js)
unfolding sort_in
among-sort_in i k [] = refl
among-sort_in i k (j ∷ js) = ground (arith, among-sort_in i k js)

among-sort_names : (i : Text) (ks : List Text) → among i (sort_names ks) ≡ among i ks
unfolding sort_names
among-sort_names i [] = refl
among-sort_names i (k ∷ ks) =
    ground (arith, among-sort_names i ks, among-sort_in i k (sort_names ks))

Ordering-cases : (o : Ordering) → (o ≡ lt) ⊎ ((o ≡ eq) ⊎ (o ≡ gt))
Ordering-cases lt = inl refl
Ordering-cases eq = inr (inl refl)
Ordering-cases gt = inr (inr refl)

sort_in-Before :
    (i k : Text) (js : List Text) → text_compare i k ≡ lt → Before i js → Before i (sort_in k js)
unfolding sort_in
sort_in-Before i k [] h b = h
sort_in-Before i k (j ∷ js) h b = ground arith

sort_in-Sorted :
    (k : Text) (js : List Text) → among k js ≡ false → Sorted js → Sorted (sort_in k js)
unfolding sort_in
sort_in-Sorted k [] h s = tt
sort_in-Sorted k (j ∷ js) h s = elim (Ordering-cases (text_compare k j)) [
  | inl less ↦ subst Sorted {x = k ∷ j ∷ js} (ground arith) (less, s)
  | inr (inl same) ↦ absurd (ground (arith, eq_of_text_compare k j same))
  | inr (inr more) ↦ subst Sorted {x = j ∷ sort_in k js} (ground arith) (
      Sorted-cons j (sort_in k js)
        (sort_in-Before j k js (text_compare-lt_of_gt k j more) (Before-head j js s))
        (sort_in-Sorted k js (ground arith) (Sorted-tail j js s)))
]

sort_names-Sorted : (ks : List Text) → Distinct ks → Sorted (sort_names ks)
unfolding sort_names
sort_names-Sorted [] d = tt
sort_names-Sorted (k ∷ ks) d =
    sort_in-Sorted k (sort_names ks) (among-sort_names k ks ∙ d.0) (sort_names-Sorted ks d.1)

Distinct-sort_in :
    (k : Text) (js : List Text) → among k js ≡ false → Distinct js → Distinct (sort_in k js)
unfolding sort_in
Distinct-sort_in k [] h d = (refl, tt)
Distinct-sort_in k (j ∷ js) h d = ground (arith, among-sort_in j k js, Distinct-sort_in k js)

Distinct-sort_names : (ks : List Text) → Distinct ks → Distinct (sort_names ks)
unfolding sort_names
Distinct-sort_names [] d = tt
Distinct-sort_names (k ∷ ks) d =
    Distinct-sort_in k (sort_names ks) (among-sort_names k ks ∙ d.0) (Distinct-sort_names ks d.1)

module _ {E S : Type 0} where
  get_table-of_find :
      (name : Text) (db : Database E S) (t : Table E)
      → find name db.tables ≡ some t
      → get_table name db ≡ ok t
  unfolding get_table
  get_table-of_find name db t h = rw (get_table, h) refl

  get_table-missing :
      (name : Text) (db : Database E S)
      → find name db.tables ≡ none
      → get_table name db ≡ err (table_missing name)
  unfolding get_table
  get_table-missing name db h = rw (get_table, h) refl

  get_table-same :
      (name : Text) (db db' : Database E S)
      → find name db'.tables ≡ find name db.tables
      → get_table name db' ≡ get_table name db
  unfolding get_table
  get_table-same name db db' h =
      ap
        (λ o. elim o as (λ x. Result (Table E) Message) [
          | none ↦ err (table_missing name)
          | some t ↦ ok t
        ])
        h

  create_table_tables :
      (name : Text) (t : Table E) (db : Database E S) {db' : Database E S}
      → create_table name t db ≡ ok db'
      → (has_key name db.tables ≡ false) × (db'.tables ≡ put name t db.tables)
  unfolding create_table
  create_table_tables name t db e = ground arith

  drop_table_tables :
      (name : Text) (db : Database E S) {db' : Database E S}
      → drop_table name db ≡ ok db'
      → db'.tables ≡ drop_key name db.tables
  unfolding drop_table
  drop_table_tables name db e = ground arith

  rename_table_tables :
      (old_name new_name : Text) (db : Database E S) {db' : Database E S}
      → rename_table old_name new_name db ≡ ok db'
      → (t : Table E) × (find old_name db.tables ≡ some t)
        × (db'.tables ≡ put new_name t (drop_key old_name db.tables))
  unfolding rename_table
  rename_table_tables old_name new_name db e = elim (Option-cases (find old_name db.tables)) [
    | inl missing ↦ absurd (ground arith)
    | inr (t, found) ↦ (t, found, ground arith)
  ]

  -- If `create_table` succeeds, the name was not in use, it now names the table, and every
  -- other name gives what it gave.
  create_table-get_table :
      (name : Text) (t : Table E) (db : Database E S) {db' : Database E S}
      → create_table name t db ≡ ok db'
      → (get_table name db' ≡ ok t)
        × (get_table name db ≡ err (table_missing name))
        × ((other : Text) → (name ≡ other → ⊥) → get_table other db' ≡ get_table other db)
  create_table-get_table name t db {db'} e =
      let (free, put_in) = create_table_tables name t db e in
      (
        get_table-of_find name db' t (ap (find name) put_in ∙ find-put_same name t db.tables),
        get_table-missing name db (ground arith),
        λ other n.
            get_table-same other db db'
              (ap (find other) put_in ∙ find-put_other name other t db.tables n),
      )

  -- If `rename_table` to a different name succeeds, the new name gives what the old one gave,
  -- and the old name gives an error.
  rename_table-get_table :
      (old_name new_name : Text) (db : Database E S) {db' : Database E S}
      → rename_table old_name new_name db ≡ ok db'
      → (old_name ≡ new_name → ⊥)
      → (get_table new_name db' ≡ get_table old_name db)
        × (get_table old_name db' ≡ err (table_missing old_name))
  rename_table-get_table old_name new_name db {db'} e n =
      let (t, found, tables) = rename_table_tables old_name new_name db e in
      (
        get_table-of_find new_name db' t
              (ap (find new_name) tables ∙ find-put_same new_name t (drop_key old_name db.tables))
            ∙ sym (get_table-of_find old_name db t found),
        get_table-missing old_name db' (
            ap (find old_name) tables
            ∙ find-put_other new_name old_name t (drop_key old_name db.tables)
                (λ same. n (sym same))
            ∙ find-drop_key old_name db.tables),
      )

  -- The names of the tables are all different.
  abbrev pub HasNames : Database E S → Type 0
  HasNames db = Distinct (keys db.tables)

  -- Every edit of the tables and views keeps the names of the tables all different.
  Edit-HasNames : {db db' : Database E S} → Edit db db' → HasNames db → HasNames db'
  unfolding add_table create_view drop_view
  Edit-HasNames (creates {db = db} name t e) h =
      subst (λ d. Distinct (keys d)) (sym (create_table_tables name t db e).1)
        (put-Distinct name t db.tables h)
  Edit-HasNames (writes {db = db} name t) h = put-Distinct name t db.tables h
  Edit-HasNames (drops {db = db} name e) h =
      subst (λ d. Distinct (keys d)) (sym (drop_table_tables name db e))
        (drop_key-Distinct name db.tables h)
  Edit-HasNames (renames {db = db} old_name new_name e) h =
      let (t, found, tables) = rename_table_tables old_name new_name db e in
      subst (λ d. Distinct (keys d)) (sym tables)
        (put-Distinct new_name t (drop_key old_name db.tables)
          (drop_key-Distinct old_name db.tables h))
  Edit-HasNames (views {db = db} {db' = db'} name sql e) h =
      let same : db'.tables ≡ db.tables = ground arith in
      subst (λ d. Distinct (keys d)) (sym same) h
  Edit-HasNames (drops_view {db = db} {db' = db'} name e) h =
      let same : db'.tables ≡ db.tables = ground arith in
      subst (λ d. Distinct (keys d)) (sym same) h

  -- If the names of the tables are all different, `table_names` lists them in strictly
  -- increasing byte order, and lists exactly the names for which `has_table` holds.
  pub table_names-Sorted :
      (db : Database E S)
      → HasNames db
      → Sorted (table_names db) × ((name : Text) → among name (table_names db) ≡ has_table name db)
  unfolding table_names has_table
  table_names-Sorted db h = (
    sort_names-Sorted (keys db.tables) h,
    λ name. among-sort_names name (keys db.tables) ∙ sym (has_key-among name db.tables),
  )

  pub table_names-Distinct : (db : Database E S) → HasNames db → Distinct (table_names db)
  unfolding table_names
  table_names-Distinct db h = Distinct-sort_names (keys db.tables) h
