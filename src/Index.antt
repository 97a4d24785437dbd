-- ===== src/Index.antt =====
-- engine/index.rs: the keys and postings of the BTREE and TRIGRAM indices. A `BTreeMap` is its entries
-- in key order, a posting list is a list of row positions.
pub mod KeyOrder
pub mod BTree
pub mod Trigram
use a3sql.Prelude.{
  ℕ, suc, ◌+◌, ◌-◌, ◌%◌, ◌^◌, ◌≡◌, Bool, true, false, Option, none, some, List, [], ◌∷◌, ◌++◌,
  length, if◌then◌else◌, Ordering, ltb, ◌==◌, map, not,
}
use a3sql.Prelude.Int.{to_bits}
use a3sql.Prelude.Map
use a3sql.Prelude.Map.{Map}
use a3sql.Prelude.Order.{text_compare, padded}
use a3sql.Prelude.Text.{Text, bytes, int_text}
use a3sql.Host.{Host}
use a3sql.Value.{DbValue, null, bool, int, float, string, strings, floats}
use a3sql.Value.Float.{canonical_float_bits}

pub data IndexType : Type 0 where
  btree trigram : IndexType

pub record IndexMeta : Type 0 where
  pub name : Text
  pub table : Text
  pub column : Text
  pub index_type : IndexType

-- `parts.join(sep)`
unfoldable pub join : Text → List Text → Text
join sep [] = []
join sep (x ∷ []) = x
join sep (x ∷ y ∷ rest) = x ++ (sep ++ join sep (y ∷ rest))

-- `x ^ (1 << 63)`: flipping the top bit of 64 adds 2 ^ 63, modulo 2 ^ 64.
abbrev pub flip_sign : ℕ → ℕ
flip_sign w = (w + 2 ^ 63) % 2 ^ 64

-- The bits of a float in an order that the unsigned numbers have: `!w` is 2 ^ 64 - 1 - w.
unfoldable pub sortable_bits : ℕ → ℕ
unfolding canonical_float_bits
sortable_bits f =
    let canonical = canonical_float_bits f in
    if ltb canonical (2 ^ 63) then flip_sign canonical else 2 ^ 64 - 1 - canonical

module _ {E : Type 0} (host : Host E) where
  unfoldable pub encode_key : DbValue → Text
  unfolding to_bits padded sortable_bits join
  encode_key null = 0 ∷ []
  encode_key (bool true) = 1 ∷ bytes "true"
  encode_key (bool false) = 1 ∷ bytes "false"
  encode_key (int n) = 2 ∷ padded 20 (flip_sign (to_bits n))
  encode_key (float f) = 3 ∷ padded 20 (sortable_bits f)
  encode_key (string s) = 4 ∷ s
  encode_key (strings arr) = 5 ∷ join (bytes ",") arr
  encode_key (floats arr) = 6 ∷ join (bytes ",") (map host.float_text arr)

  unfoldable pub value_to_plain : DbValue → Text
  unfolding join
  value_to_plain null = []
  value_to_plain (bool true) = bytes "true"
  value_to_plain (bool false) = bytes "false"
  value_to_plain (int n) = int_text n
  value_to_plain (float f) = host.float_text f
  value_to_plain (string s) = s
  value_to_plain (strings arr) = join (bytes " ") arr
  value_to_plain (floats arr) = join (bytes " ") (map host.float_text arr)

abbrev pub Entries : Type 0
Entries = List (Text × List ℕ)

-- `entries.entry(key).or_default().push(row_idx)`
unfoldable pub push : Text → ℕ → Entries → Entries
unfolding text_compare
push key row [] = (key, row ∷ []) ∷ []
push key row ((k, rows) ∷ rest) = elim (text_compare key k) [
  | Ordering.lt ↦ (key, row ∷ []) ∷ (k, rows) ∷ rest
  | Ordering.eq ↦ (k, rows ++ (row ∷ [])) ∷ rest
  | Ordering.gt ↦ (k, rows) ∷ push key row rest
]

-- `indices.retain(|&i| i != row_idx)`
unfoldable pub retain_ne : ℕ → List ℕ → List ℕ
retain_ne row [] = []
retain_ne row (i ∷ rows) = let rest = retain_ne row rows in if i == row then rest else i ∷ rest

-- `entries.get(&key)`
unfoldable pub get : Text → Entries → Option (List ℕ)
unfolding text_compare
get key [] = none
get key ((k, rows) ∷ rest) = elim (text_compare key k) [
  | Ordering.lt ↦ none
  | Ordering.eq ↦ some rows
  | Ordering.gt ↦ get key rest
]

-- An entry whose last row went is removed.
abbrev keep_entry : Text → List ℕ → Entries → Entries
keep_entry k [] rest = rest
keep_entry k (i ∷ rows) rest = (k, i ∷ rows) ∷ rest

-- The search for the key and what `BTreeIndex::remove` does there.
unfoldable pub take_out : Text → ℕ → Entries → Entries
unfolding text_compare retain_ne
take_out key row [] = []
take_out key row ((k, rows) ∷ rest) = elim (text_compare key k) [
  | Ordering.lt ↦ (k, rows) ∷ rest
  | Ordering.eq ↦ keep_entry k (retain_ne row rows) rest
  | Ordering.gt ↦ (k, rows) ∷ take_out key row rest
]

pub data Bound : Type 0 where
  included excluded : Text → Bound
  unbounded : Bound

-- A key that the lower, and the upper, bound of a range admits.
abbrev pub above : Bound → Text → Bool
above (included b) k = elim (text_compare k b) [ Ordering.lt ↦ false | _ ↦ true ]
above (excluded b) k = elim (text_compare k b) [ Ordering.gt ↦ true | _ ↦ false ]
above unbounded k = true

abbrev pub below : Bound → Text → Bool
below (included b) k = elim (text_compare k b) [ Ordering.gt ↦ false | _ ↦ true ]
below (excluded b) k = elim (text_compare k b) [ Ordering.lt ↦ true | _ ↦ false ]
below unbounded k = true

pub record BTreeIndex : Type 0 where
  pub column : Text
  pub entries : Entries

abbrev pub or_default : Option (List ℕ) → List ℕ
or_default none = []
or_default (some rows) = rows

module _ {E : Type 0} (host : Host E) where
  unfoldable pub btree_insert : ℕ → DbValue → BTreeIndex → BTreeIndex
  btree_insert row v idx = record idx { entries = push (encode_key host v) row idx.entries }

  unfoldable pub btree_remove : ℕ → DbValue → BTreeIndex → BTreeIndex
  btree_remove row v idx = record idx { entries = take_out (encode_key host v) row idx.entries }

  unfoldable pub lookup : BTreeIndex → DbValue → List ℕ
  lookup idx v = or_default (get (encode_key host v) idx.entries)

abbrev after : Text → Text → Bool
after a b = elim (text_compare a b) [ Ordering.gt ↦ true | _ ↦ false ]

abbrev not_before : Text → Text → Bool
not_before a b = elim (text_compare a b) [ Ordering.lt ↦ false | _ ↦ true ]

-- The bounds on which `BTreeMap::range` is documented to panic: the lower key comes after the upper
-- one, or the two are equal and both excluded.
abbrev pub is_reversed : Bound → Bound → Bool
is_reversed (included a) (included b) = after a b
is_reversed (included a) (excluded b) = after a b
is_reversed (excluded a) (included b) = after a b
is_reversed (excluded a) (excluded b) = not_before a b
is_reversed _ _ = false

-- The rows of the entries within the bounds, in key order.
unfoldable pub scan : Bound → Bound → Entries → List ℕ
scan lower upper [] = []
scan lower upper ((k, rows) ∷ rest) =
    let more = scan lower upper rest in
    if above lower k then (if below upper k then rows ++ more else more) else more

-- `BTreeIndex::range`; `none` is its panic.
unfoldable pub range : Bound → Bound → Entries → Option (List ℕ)
unfolding scan
range lower upper entries =
    if is_reversed lower upper then none else some (scan lower upper entries)

unfoldable pub btree_new : Text → BTreeIndex
btree_new column = record { column = column; entries = [] }

pub record TrigramIndex : Type 0 where
  pub column : Text
  pub trigram_map : Map (List ℕ)

unfoldable pub trigram_new : Text → TrigramIndex
trigram_new column = record { column = column; trigram_map = Map.empty }

-- `bytes.windows(3)`
unfoldable pub windows : Text → List Text
windows (a ∷ b ∷ c ∷ rest) = (a ∷ b ∷ c ∷ []) ∷ windows (b ∷ c ∷ rest)
windows _ = []

-- `rows.contains(&row)`, and `rows.insert(row)` of a set of row positions.
unfoldable pub contains : ℕ → List ℕ → Bool
contains row [] = false
contains row (i ∷ rows) = let rest = contains row rows in if i == row then true else rest

unfoldable pub set_insert : ℕ → List ℕ → List ℕ
unfolding contains
set_insert row rows = if contains row rows then rows else row ∷ rows

module _ {E : Type 0} (host : Host E) where
  -- table/schema.rs. The source collects into a set; the list here may repeat a trigram, which the
  -- two loops over it below do not notice, as each visit does the same again.
  unfoldable pub trigrams : Text → List Text
  unfolding windows
  trigrams s =
      let padded = bytes "  " ++ (host.to_lowercase s ++ bytes "  ") in
      if ltb (length padded) 3 then padded ∷ [] else map host.from_utf8_lossy (windows padded)

abbrev pub post : ℕ → Text → Map (List ℕ) → Map (List ℕ)
post row tg m = Map.insert tg (set_insert row (or_default (m tg))) m

abbrev pub post_all : ℕ → List Text → Map (List ℕ) → Map (List ℕ)
post_all row [] m = m
post_all row (tg ∷ tgs) m = post_all row tgs (post row tg m)

abbrev keep_posting : Text → List ℕ → Map (List ℕ) → Map (List ℕ)
keep_posting tg [] m = Map.remove tg m
keep_posting tg (i ∷ rows) m = Map.insert tg (i ∷ rows) m

abbrev pub unpost : ℕ → Text → Map (List ℕ) → Map (List ℕ)
unpost row tg m = elim (m tg) [ none ↦ m | some rows ↦ keep_posting tg (retain_ne row rows) m ]

abbrev pub unpost_all : ℕ → List Text → Map (List ℕ) → Map (List ℕ)
unpost_all row [] m = m
unpost_all row (tg ∷ tgs) m = unpost_all row tgs (unpost row tg m)

-- `windows.filter_map(|tg| self.trigram_map.get(&tg))`
unfoldable pub found : Map (List ℕ) → List Text → List (List ℕ)
found m [] = []
found m (tg ∷ tgs) = elim (m tg) [ none ↦ found m tgs | some rows ↦ rows ∷ found m tgs ]

-- `acc.retain(|row| list.contains(row))`
unfoldable pub retain_in : List ℕ → List ℕ → List ℕ
unfolding contains
retain_in [] list = []
retain_in (i ∷ acc) list =
    let rest = retain_in acc list in if contains i list then i ∷ rest else rest

unfoldable pub retain_in_all : List ℕ → List (List ℕ) → List ℕ
unfolding retain_in
retain_in_all acc [] = acc
retain_in_all acc (list ∷ lists) = retain_in_all (retain_in acc list) lists

abbrev pub intersect : List (List ℕ) → List ℕ
intersect [] = []
intersect (first ∷ lists) = retain_in_all first lists

module _ {E : Type 0} (host : Host E) where
  unfoldable pub trigram_insert : ℕ → DbValue → TrigramIndex → TrigramIndex
  trigram_insert row v idx = record idx {
    trigram_map = post_all row (trigrams host (value_to_plain host v)) idx.trigram_map;
  }

  unfoldable pub trigram_remove : ℕ → DbValue → TrigramIndex → TrigramIndex
  trigram_remove row v idx = record idx {
    trigram_map = unpost_all row (trigrams host (value_to_plain host v)) idx.trigram_map;
  }

  -- The source sorts the windows and drops repetitions before it intersects their postings; the set
  -- of rows left is the same, and it comes out of a hash set in no order.
  unfoldable pub like_candidates : TrigramIndex → Text → List ℕ
  unfolding found retain_in_all windows
  like_candidates idx run =
      let lower = host.to_lowercase run in
      if ltb (length lower) 3
      then []
      else intersect (found idx.trigram_map (map host.from_utf8_lossy (windows lower)))
