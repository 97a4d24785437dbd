-- ===== src/Index/KeyOrder.antt =====
-- The order of the index keys against that of the values (engine/index.rs, `encode_key`).
use Prim.Native.Nat.Ordering.{lt, gt}
use a3sql.Prelude.{ℕ, ◌^◌, ◌<◌, ◌≡◌, ◌∙◌, some, arith, compare, Ordering, ◌∷◌}
use a3sql.Prelude.Int.{ℤ, pos, negsuc, IsI64, to_bits}
use a3sql.Prelude.Order.{text_compare, padded, text_compare-padded}
use a3sql.Host.{Host}
use a3sql.Value.{int, float, IsBits}
use a3sql.Value.Float.{partial_cmp}
use a3sql.Index.{encode_key, flip_sign, sortable_bits}

-- `a.cmp(&b)` of two `i64`.
abbrev pub int_compare : ℤ → ℤ → Ordering
int_compare (pos m) (pos n) = compare m n
int_compare (pos m) (negsuc n) = gt
int_compare (negsuc m) (pos n) = lt
int_compare (negsuc m) (negsuc n) = compare n m

tagged :
    (t m n : ℕ)
    → m < 2 ^ 64
    → n < 2 ^ 64
    → text_compare (t ∷ padded 20 m) (t ∷ padded 20 n) ≡ compare m n
unfolding text_compare
tagged t m n hm hn = ground (arith, text_compare-padded 20 m n (omega arith) (omega arith))

flip_sign-to_bits :
    (a b : ℤ)
    → IsI64 a
    → IsI64 b
    → compare (flip_sign (to_bits a)) (flip_sign (to_bits b)) ≡ int_compare a b
unfolding to_bits
flip_sign-to_bits (pos m) (pos n) ha hb = ground arith
flip_sign-to_bits (pos m) (negsuc n) ha hb = ground arith
flip_sign-to_bits (negsuc m) (pos n) ha hb = ground arith
flip_sign-to_bits (negsuc m) (negsuc n) ha hb = ground arith

module _ {E : Type 0} (host : Host E) where
  -- The BTREE keys of two 64-bit integers compare, byte by byte, as the integers do.
  pub encode_key-int :
      (a b : ℤ)
      → IsI64 a
      → IsI64 b
      → text_compare (encode_key host (int a)) (encode_key host (int b)) ≡ int_compare a b
  unfolding encode_key
  encode_key-int a b ha hb =
      tagged 2 (flip_sign (to_bits a)) (flip_sign (to_bits b)) (omega arith) (omega arith)
      ∙ flip_sign-to_bits a b ha hb

  sortable_bits-compare :
      (x y : ℕ) {o : Ordering}
      → IsBits x
      → IsBits y
      → partial_cmp x y ≡ some o
      → compare (sortable_bits x) (sortable_bits y) ≡ o
  unfolding sortable_bits partial_cmp
  sortable_bits-compare x y hx hy h = ground arith

  sortable_bits-IsBits : (x : ℕ) → IsBits x → IsBits (sortable_bits x)
  unfolding sortable_bits
  sortable_bits-IsBits x h = ground arith

  -- The BTREE keys of two 64-bit floats compare, byte by byte, as the floats do, wherever these
  -- are ordered.
  pub encode_key-float :
      (x y : ℕ) {o : Ordering}
      → IsBits x
      → IsBits y
      → partial_cmp x y ≡ some o
      → text_compare (encode_key host (float x)) (encode_key host (float y)) ≡ o
  unfolding encode_key
  encode_key-float x y hx hy h =
      tagged 3 (sortable_bits x) (sortable_bits y) (sortable_bits-IsBits x hx)
        (sortable_bits-IsBits y hy)
      ∙ sortable_bits-compare x y hx hy h
