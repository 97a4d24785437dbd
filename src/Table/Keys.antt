-- ===== src/Table/Keys.antt =====
-- engine/table/schema.rs: `encode_part`, and the key texts of a row's PRIMARY KEY and UNIQUE columns.
pub mod Injective
pub mod Row
use a3sql.Prelude.{
  ℕ, suc, ◌+◌, ◌≡◌, Bool, true, false, Option, none, some, List, [], ◌∷◌, ◌++◌, length,
  if◌then◌else◌,
}
use a3sql.Prelude.Text.{Text, bytes, to_decimal, int_text}
use a3sql.Host.{Host}
use a3sql.Value.{DbValue, null, bool, int, float, string, strings, floats, Column}

-- `format!("{}:{}", s.len(), s)`
unfoldable pub sized : Text → Text
sized s = to_decimal (length s) ++ (b':' ∷ s)

unfoldable pub has_primary_key : {E : Type 0} → List (Column E) → Bool
has_primary_key [] = false
has_primary_key (c ∷ cs) = let rest = has_primary_key cs in if c.primary_key then true else rest

module _ {E : Type 0} (host : Host E) where
  -- The loop over the elements of STRINGS[].
  unfoldable pub strings_body : List Text → Text
  strings_body [] = []
  strings_body (e ∷ es) = sized e ++ strings_body es

  -- The loop over the elements of FLOATS[].
  unfoldable pub floats_body : List ℕ → Text
  floats_body [] = []
  floats_body (f ∷ fs) = sized (host.float_text f) ++ floats_body fs

  unfoldable pub encode_part : DbValue → Text
  encode_part null = bytes "n0:"
  encode_part (bool true) = bytes "b1:1"
  encode_part (bool false) = bytes "b1:0"
  encode_part (int n) = b'i' ∷ sized (int_text n)
  encode_part (float f) = b'f' ∷ sized (host.float_text f)
  encode_part (string s) = b's' ∷ sized s
  encode_part (strings v) = b'S' ∷ sized (strings_body v)
  encode_part (floats v) = b'F' ∷ sized (floats_body v)

  -- The parts of the PRIMARY KEY columns, in the order of the columns.
  unfoldable pub pk_parts : List (Column E) → List DbValue → Text
  pk_parts (c ∷ cs) (v ∷ vs) =
      let rest = pk_parts cs vs in if c.primary_key then encode_part v ++ rest else rest
  pk_parts _ _ = []

  -- The source indexes the row by column and panics on a row that is too short; every caller hands
  -- over a row as long as the columns.
  unfoldable pub pk_key_static : List (Column E) → List DbValue → Option Text
  unfolding has_primary_key pk_parts
  pk_key_static columns row = if has_primary_key columns then some (pk_parts columns row) else none

  -- `unique_keys` for the columns from index `i` on.
  unfoldable pub unique_keys_from : ℕ → List (Column E) → List DbValue → List Text
  unique_keys_from i (c ∷ cs) (v ∷ vs) =
      let rest = unique_keys_from (suc i) cs vs in
      if c.unique then (to_decimal i ++ (b'|' ∷ encode_part v)) ∷ rest else rest
  unique_keys_from i _ _ = []

  unfoldable pub unique_keys : List (Column E) → List DbValue → List Text
  unfolding unique_keys_from
  unique_keys = unique_keys_from 0
