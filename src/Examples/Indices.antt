-- ===== src/Examples/Indices.antt =====
-- The theorems on indices at concrete indices and values.
use Prim.Native.Nat.Ordering.{lt}
use a3sql.Prelude.{ℕ, List, false, some, arith, ◌≡◌, ◌↔◌, refl, true, [], ◌∷◌, ◌++◌, ite}
use a3sql.Prelude.Int.{pos, negsuc}
use a3sql.Prelude.Order.{text_compare}
use a3sql.Prelude.Text.{bytes, Text-discrete}
use a3sql.Value.{DbValue}
use a3sql.Index.{
  BTreeIndex, TrigramIndex, btree_new, trigram_new, btree_insert, btree_remove, trigram_insert,
  trigram_remove, lookup, range, encode_key, like_candidates, contains, retain_ne, Entries, Bound,
  trigrams, value_to_plain, windows, set_insert,
}
use a3sql.Index.KeyOrder.{encode_key-int, encode_key-float}
use a3sql.Index.BTree.{Ascending, InRange, rows_at, contains-range, lookup-btree_insert}
use a3sql.Index.Trigram.{IsPosted, of_value, contains-like_candidates}
use a3sql.Examples.{example_host}

encode_key-int_example :
    text_compare
      (encode_key example_host (DbValue.int (negsuc 4)))
      (encode_key example_host (DbValue.int (pos 3)))
    ≡ lt
encode_key-int_example = encode_key-int example_host (negsuc 4) (pos 3) (omega arith) (omega arith)

encode_key-float_example :
    text_compare
      (encode_key example_host (DbValue.float 0xbff0000000000000))
      (encode_key example_host (DbValue.float 0x3ff0000000000000))
    ≡ lt
unfolding a3sql.Value.Float.partial_cmp
encode_key-float_example =
    encode_key-float example_host 0xbff0000000000000 0x3ff0000000000000 {o = lt} (omega arith)
      (omega arith) refl

abbrev stored_entries : Entries
stored_entries = (bytes "a", 0 ∷ 2 ∷ []) ∷ (bytes "c", 1 ∷ []) ∷ []

stored-Ascending : Ascending stored_entries
unfolding text_compare
stored-Ascending = (refl, tt)

-- From "b" on, up to "c" and with it.
abbrev lower_b : Bound
lower_b = Bound.excluded (bytes "b")

abbrev upper_c : Bound
upper_c = Bound.included (bytes "c")

in_order : a3sql.Index.is_reversed lower_b upper_c ≡ false
unfolding text_compare
in_order = refl

found_in_range : range lower_b upper_c stored_entries ≡ some (1 ∷ [])
unfolding range text_compare
found_in_range = refl

found_at_key : contains 1 (rows_at (bytes "c") stored_entries) ≡ true
unfolding contains a3sql.Index.get
found_at_key = refl

contains-range_example :
    (rows : List ℕ) × (range lower_b upper_c stored_entries ≡ some rows)
    × ((i : ℕ) → (contains i rows ≡ true) ↔ InRange lower_b upper_c stored_entries i)
contains-range_example = contains-range lower_b upper_c stored_entries stored-Ascending in_order

abbrev stored_index : BTreeIndex
stored_index = btree_insert example_host 4 (DbValue.int (pos 9)) (btree_new (bytes "c"))

stored_index-Ascending : Ascending stored_index.entries
unfolding btree_insert a3sql.Index.push btree_new
stored_index-Ascending = tt

lookup-btree_insert_example :
    lookup example_host
      (btree_insert example_host 5 (DbValue.int (pos 9)) stored_index)
      (DbValue.int (pos 9))
    ≡ ite
        (Text-discrete
          (encode_key example_host (DbValue.int (pos 9)))
          (encode_key example_host (DbValue.int (pos 9))))
        (lookup example_host stored_index (DbValue.int (pos 9)) ++ (5 ∷ []))
        (lookup example_host stored_index (DbValue.int (pos 9)))
lookup-btree_insert_example =
    lookup-btree_insert example_host stored_index 5 (DbValue.int (pos 9)) (DbValue.int (pos 9))

abbrev empty_trigrams : TrigramIndex
empty_trigrams = trigram_new (bytes "c")

abbrev posted_trigrams : TrigramIndex
posted_trigrams = trigram_insert example_host 0 (DbValue.string (bytes "abc")) empty_trigrams

abc-IsPosted :
    IsPosted posted_trigrams.trigram_map 0 (of_value example_host (DbValue.string (bytes "abc")))
unfolding trigram_insert trigrams value_to_plain contains windows set_insert Text-discrete
    trigram_new
abc-IsPosted = (refl, (refl, (refl, (refl, (refl, tt)))))

abc_plain : value_to_plain example_host (DbValue.string (bytes "abc")) ≡ [] ++ (bytes "abc" ++ [])
unfolding value_to_plain
abc_plain = refl

contains-like_candidates_example :
    contains 0 (like_candidates example_host posted_trigrams (bytes "abc")) ≡ true
contains-like_candidates_example =
    contains-like_candidates example_host posted_trigrams 0 (DbValue.string (bytes "abc"))
      (bytes "abc") [] [] abc-IsPosted (omega arith) abc_plain
