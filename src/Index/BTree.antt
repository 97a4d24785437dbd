-- ===== src/Index/BTree.antt =====
-- The BTREE index against the map that it stands for: what each operation does to the rows of every
-- key, the order of the entries, and what a scan scan returns.
use Prim.Native.Nat.Ordering.{lt}
use a3sql.Prelude.{
  some, ℕ, ◌↔◌, ◌≡◌, refl, true, false, ◌||◌, none, List, [], ◌∷◌, ◌++◌, arith, ite, ◌⊎◌, inl, inr,
  ◌==◌, if◌then◌else◌,
}
use a3sql.Prelude.Order.{
  text_compare, text_compare_refl, eq_of_text_compare, text_compare-lt_trans, text_compare-lt_of_gt,
}
use a3sql.Prelude.Text.{Text, Text-discrete}
use a3sql.Host.{Host}
use a3sql.Value.{DbValue}
use a3sql.Index.{
  Entries, push, retain_ne, get, take_out, or_default, Bound, above, below, is_reversed, scan,
  range, contains, encode_key, BTreeIndex, btree_insert, btree_remove, lookup,
}

abbrev pub rows_at : Text → Entries → List ℕ
rows_at key m = or_default (get key m)

-- All keys of the entries lie above `k`, in ascending order.
abbrev pub AscendingFrom : Text → Entries → Type 0
AscendingFrom k [] = Unit
AscendingFrom k ((j, rows) ∷ rest) = (text_compare k j ≡ lt) × AscendingFrom j rest

abbrev pub Ascending : Entries → Type 0
Ascending [] = Unit
Ascending ((k, rows) ∷ rest) = AscendingFrom k rest

push-AscendingFrom :
    (k key : Text) (row : ℕ) (m : Entries)
    → text_compare k key ≡ lt
    → AscendingFrom k m
    → AscendingFrom k (push key row m)
unfolding push
push-AscendingFrom k key row [] h a = (h, tt)
push-AscendingFrom k key row ((j, rows) ∷ rest) h a =
    ground (arith, text_compare-lt_of_gt key j, push-AscendingFrom j key row rest)

pub push-Ascending : (key : Text) (row : ℕ) (m : Entries) → Ascending m → Ascending (push key row m)
unfolding push
push-Ascending key row [] a = tt
push-Ascending key row ((j, rows) ∷ rest) a =
    ground (arith, text_compare-lt_of_gt key j, push-AscendingFrom j key row rest)

weaken : (i k : Text) (m : Entries) → text_compare i k ≡ lt → AscendingFrom k m → AscendingFrom i m
weaken i k [] h a = tt
weaken i k ((j, rows) ∷ rest) h a = ground (arith, text_compare-lt_trans i k j)

take_out-AscendingFrom :
    (k key : Text) (row : ℕ) (m : Entries)
    → AscendingFrom k m
    → AscendingFrom k (take_out key row m)
unfolding take_out
take_out-AscendingFrom k key row [] a = tt
take_out-AscendingFrom k key row ((j, rows) ∷ rest) a =
    ground (arith, take_out-AscendingFrom j key row rest, weaken k j rest)

pub take_out-Ascending :
    (key : Text) (row : ℕ) (m : Entries) → Ascending m → Ascending (take_out key row m)
unfolding take_out
take_out-Ascending key row [] a = tt
take_out-Ascending key row ((j, rows) ∷ []) a = ground arith
take_out-Ascending key row ((j, rows) ∷ (k, more) ∷ rest) a =
    ground (arith, take_out-AscendingFrom j key row ((k, more) ∷ rest))

Ascending-of : (k : Text) (m : Entries) → AscendingFrom k m → Ascending m
Ascending-of k [] a = tt
Ascending-of k ((j, rows) ∷ rest) a = a.1

-- Nothing is stored at a key below all the entries.
get_below : (j k : Text) (m : Entries) → text_compare j k ≡ lt → AscendingFrom k m → get j m ≡ none
unfolding get
get_below j k [] h a = refl
get_below j k ((i, rows) ∷ rest) h a = ground (arith, text_compare-lt_trans j k i)

get_at : (k : Text) (m : Entries) → AscendingFrom k m → get k m ≡ none
unfolding get
get_at k [] a = refl
get_at k ((i, rows) ∷ rest) a = ground arith

pub rows_at-push :
    (j k : Text) (row : ℕ) (m : Entries)
    → rows_at j (push k row m) ≡ ite (Text-discrete k j) (rows_at k m ++ (row ∷ [])) (rows_at j m)
unfolding push get
rows_at-push j k row [] = ground (arith, text_compare_refl k, eq_of_text_compare j k)
rows_at-push j k row ((i, rows) ∷ rest) = ground (
  arith,
  text_compare_refl k,
  eq_of_text_compare j k,
  eq_of_text_compare k i,
  eq_of_text_compare j i,
  text_compare-lt_trans j k i,
  rows_at-push j k row rest,
)

pub rows_at-take_out :
    (j k : Text) (row : ℕ) (m : Entries)
    → Ascending m
    → rows_at j (take_out k row m)
      ≡ ite (Text-discrete k j) (retain_ne row (rows_at k m)) (rows_at j m)
unfolding take_out get
rows_at-take_out j k row [] a = ground arith
rows_at-take_out j k row ((i, rows) ∷ rest) a = ground (
  arith,
  text_compare_refl k,
  eq_of_text_compare j k,
  eq_of_text_compare k i,
  eq_of_text_compare j i,
  get_at i rest a,
  get_below j i rest,
  rows_at-take_out j k row rest (Ascending-of i rest a),
)

pub contains-append :
    (i : ℕ) (xs ys : List ℕ) → contains i (xs ++ ys) ≡ (contains i xs || contains i ys)
unfolding contains
contains-append i [] ys = refl
contains-append i (x ∷ xs) ys = ground (arith, contains-append i xs ys)

pub contains-retain_ne :
    (i row : ℕ) (xs : List ℕ)
    → contains i (retain_ne row xs) ≡ (if i == row then false else contains i xs)
unfolding contains retain_ne
contains-retain_ne i row [] = ground arith
contains-retain_ne i row (x ∷ xs) = ground (arith, contains-retain_ne i row xs)

-- What a key within the bounds of a scan and a row stored at that key amount to.
abbrev pub InRange : Bound → Bound → Entries → ℕ → Type 0
InRange lower upper m i =
    (k : Text) × (above lower k ≡ true) × (below upper k ≡ true) × (contains i (rows_at k m) ≡ true)

get_later :
    (i k : Text) (rows : List ℕ) (rest : Entries) (row : ℕ)
    → AscendingFrom i rest
    → contains row (rows_at k rest) ≡ true
    → contains row (rows_at k ((i, rows) ∷ rest)) ≡ true
unfolding get contains
get_later i k rows rest row a h =
    ground (arith, get_below k i rest, get_at i rest a, eq_of_text_compare k i)

contains-nil : (i : ℕ) → contains i [] ≡ false
unfolding contains
contains-nil i = refl

here : (k : Text) (rows : List ℕ) (rest : Entries) → rows_at k ((k, rows) ∷ rest) ≡ rows
unfolding get
here k rows rest = ground (arith, text_compare_refl k)

range_cases :
    (lower upper : Bound) (k : Text) (rows : List ℕ) (rest : Entries) (i : ℕ)
    → contains i (scan lower upper ((k, rows) ∷ rest)) ≡ true
    → ((above lower k ≡ true) × (below upper k ≡ true) × (contains i rows ≡ true))
      ⊎ (contains i (scan lower upper rest) ≡ true)
unfolding scan
range_cases lower upper k rows rest i h =
    ground (arith, contains-append i rows (scan lower upper rest))

-- On entries in key order, a row that a scan scan returns is stored at a key within both
-- bounds.
scan_sound :
    (lower upper : Bound) (m : Entries) (i : ℕ)
    → Ascending m
    → contains i (scan lower upper m) ≡ true
    → InRange lower upper m i
unfolding scan
scan_sound lower upper [] i a h = absurd (unfold contains in cc)
scan_sound lower upper ((k, rows) ∷ rest) i a h = elim (range_cases lower upper k rows rest i h) [
  | inl (lo, hi, found) ↦ (k, lo, hi, rw here found)
  | inr later ↦
      let (j, lo, hi, found) = scan_sound lower upper rest i (Ascending-of k rest a) later in
      (j, lo, hi, get_later k j rows rest i a found)
]

-- A row stored at a key within both bounds is returned by the scan scan.
scan_complete :
    (lower upper : Bound) (m : Entries) (k : Text) (i : ℕ)
    → above lower k ≡ true
    → below upper k ≡ true
    → contains i (rows_at k m) ≡ true
    → contains i (scan lower upper m) ≡ true
unfolding scan get
scan_complete lower upper [] k i lo hi h = h
scan_complete lower upper ((j, rows) ∷ rest) k i lo hi h = ground (
  arith,
  contains-nil i,
  eq_of_text_compare k j,
  contains-append i rows (scan lower upper rest),
  scan_complete lower upper rest k i lo hi,
)

-- On entries in key order and bounds that are not reversed (the lower key not after the upper
-- one, and not equal to it where both are excluded), a range scan does not panic, and a row is
-- in it if and only if it is stored at a key within both bounds.
pub contains-range :
    (lower upper : Bound) (m : Entries)
    → Ascending m
    → is_reversed lower upper ≡ false
    → (rows : List ℕ) × (range lower upper m ≡ some rows)
      × ((i : ℕ) → (contains i rows ≡ true) ↔ InRange lower upper m i)
unfolding range
contains-range lower upper m a ordered = (
  scan lower upper m,
  rw ordered refl,
  λ i. (
    scan_sound lower upper m i a,
    λ (k, lo, hi, found). scan_complete lower upper m k i lo hi found,
  ),
)

module _ {E : Type 0} (host : Host E) where
  -- After an insertion into a BTREE index, the lookup of a value of the inserted value's key
  -- gives the rows of that key and then the new row; the lookup of any other value gives what
  -- it gave.
  pub lookup-btree_insert :
      (idx : BTreeIndex) (row : ℕ) (v w : DbValue)
      → lookup host (btree_insert host row v idx) w
        ≡ ite
            (Text-discrete (encode_key host v) (encode_key host w))
            (lookup host idx v ++ (row ∷ []))
            (lookup host idx w)
  unfolding lookup btree_insert
  lookup-btree_insert idx row v w =
      rows_at-push (encode_key host w) (encode_key host v) row idx.entries

  -- After a removal from a BTREE index whose entries are in key order, the row is gone from the
  -- lookup of the value's key; the lookup of any other value gives what it gave.
  lookup-btree_remove :
      (idx : BTreeIndex) (row : ℕ) (v w : DbValue)
      → Ascending idx.entries
      → lookup host (btree_remove host row v idx) w
        ≡ ite
            (Text-discrete (encode_key host v) (encode_key host w))
            (retain_ne row (lookup host idx v))
            (lookup host idx w)
  unfolding lookup btree_remove
  lookup-btree_remove idx row v w a =
      rows_at-take_out (encode_key host w) (encode_key host v) row idx.entries a
