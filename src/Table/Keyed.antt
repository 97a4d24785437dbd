-- ===== src/Table/Keyed.antt =====
-- The keys that a table keeps beside its rows, against the rows: what `pk_set`, `pk_row_index` and
-- `unique_set` have to hold, and the keys of a list of rows.
pub mod Insert
pub mod Rebuild
pub mod Reload
pub mod Effect
use a3sql.Prelude.{
  ℕ, zero, suc, ◌+◌, ◌≡◌, refl, Bool, true, false, ◌||◌, Option, none, some, List, [], ◌∷◌, ◌++◌,
  length, arith, ite, if◌then◌else◌, append_assoc, All,
}
use a3sql.Prelude.Text.{Text, Text-discrete}
use a3sql.Prelude.Texts.{among, among-append, Distinct, gather}
use a3sql.Host.{Host}
use a3sql.Value.{Column}
use a3sql.Table.Defs.{Table, Row}
use a3sql.Table.Keys.{pk_key_static, unique_keys}

abbrev pub key_list : Option Text → List Text
key_list none = []
key_list (some k) = k ∷ []

abbrev pub is_key : Text → Option Text → Bool
is_key k none = false
is_key k (some j) = ite (Text-discrete j k) true false

module _ {E : Type 0} (host : Host E) (columns : List (Column E)) where
  -- The PRIMARY KEY texts of the rows, and their UNIQUE texts.
  abbrev pub pk_keys : List Row → List Text
  pk_keys = gather (λ row. key_list (pk_key_static host columns row))

  abbrev pub uniques : List Row → List Text
  uniques = gather (unique_keys host columns)

  -- The position of the first row with the key, counted from `ri`.
  abbrev pub row_of : Text → ℕ → List Row → Option ℕ
  row_of k ri [] = none
  row_of k ri (row ∷ rows) =
      let later = row_of k (suc ri) rows in
      if is_key k (pk_key_static host columns row) then some ri else later

  -- A key that no row has is found in no row.
  pub row_of-none :
      (k : Text) (ri : ℕ) (rows : List Row)
      → among k (pk_keys rows) ≡ false
      → row_of k ri rows ≡ none
  row_of-none k ri [] h = refl
  row_of-none k ri (row ∷ rows) h = ground (
    arith,
    row_of-none k (suc ri) rows,
    among-append k (key_list (pk_key_static host columns row)) (pk_keys rows),
  )

  pub row_of-append :
      (k : Text) (ri : ℕ) (rows : List Row) (row : Row)
      → row_of k ri (rows ++ (row ∷ [])) ≡ elim (row_of k ri rows) [
        | some i ↦ some i
        | none ↦ if is_key k (pk_key_static host columns row) then some (ri + length rows) else none
      ]
  row_of-append k ri [] row = ground arith
  row_of-append k ri (r ∷ rows) row = ground (arith, row_of-append k (suc ri) rows row)

module _ {E : Type 0} (host : Host E) where
  -- The keys beside the rows are the keys of the rows, each in one row only.
  pub record HasKeys (t : Table E) : Type 0 where
    pub widths : All (λ (row : Row). length row ≡ length t.columns) t.rows
    pub pk_set : (k : Text) → t.pk_set k ≡ among k (pk_keys host t.columns t.rows)
    pub pk_row_index : (k : Text) → t.pk_row_index k ≡ row_of host t.columns k 0 t.rows
    pub pk_distinct : Distinct (pk_keys host t.columns t.rows)
    pub unique_set : (k : Text) → t.unique_set k ≡ among k (uniques host t.columns t.rows)
    pub unique_distinct : Distinct (uniques host t.columns t.rows)
