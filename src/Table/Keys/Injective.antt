-- ===== src/Table/Keys/Injective.antt =====
-- The key part of a value, and the text that follows it (engine/table/schema.rs, `encode_part`).
use a3sql.Prelude.{
  ℕ, ◌≡◌, refl, ap, ◌∙◌, true, false, List, [], ◌∷◌, ◌++◌, append_assoc, length, length-append,
  append-cancel, ◌<◌, sym, ◌⊎◌, arith,
}
use a3sql.Prelude.Text.{Text, to_decimal, int_text, to_decimal-cancel, int_text-injective}
use a3sql.Host.{Host, IsShortest}
use a3sql.Value.{DbValue, null, bool, int, float, string, strings, floats}
use a3sql.Value.Float.{is_nan}
use a3sql.Table.Keys.{sized, strings_body, floats_body, encode_part}

-- The same bits, or both NaN.
abbrev pub SameFloat : ℕ → ℕ → Type 0
SameFloat x y = (x ≡ y) ⊎ ((is_nan x ≡ true) × (is_nan y ≡ true))

abbrev pub SameFloats : List ℕ → List ℕ → Type 0
SameFloats [] [] = Unit
SameFloats (x ∷ xs) (y ∷ ys) = SameFloat x y × SameFloats xs ys
SameFloats _ _ = ⊥

-- The same value, up to the payload and sign of a NaN.
abbrev pub SameValue : DbValue → DbValue → Type 0
SameValue (float x) (float y) = SameFloat x y
SameValue (floats xs) (floats ys) = SameFloats xs ys
SameValue v w = v ≡ w

pub sized-cancel : (a b : Text) {r s : Text} → sized a ++ r ≡ sized b ++ s → (a ≡ b) × (r ≡ s)
unfolding sized
sized-cancel a b {r} {s} e =
    let e' : to_decimal (length a) ++ (b':' ∷ a ++ r) ≡ to_decimal (length b) ++ (b':' ∷ b ++ s) =
      sym (append_assoc (to_decimal (length a)) (b':' ∷ a) r)
      ∙ e
      ∙ append_assoc (to_decimal (length b)) (b':' ∷ b) s in
    let (n, rest) = to_decimal-cancel (length a) (length b) b':' refl e' in append-cancel a b n rest

sized_pos : (a : Text) → 0 < length (sized a)
unfolding sized
sized_pos a = omega (arith, length-append (to_decimal (length a)) (b':' ∷ a))

module _ {E : Type 0} (host : Host E) where
  strings_body-injective :
      (xs ys : List Text) → strings_body host xs ≡ strings_body host ys → xs ≡ ys
  unfolding strings_body
  strings_body-injective [] [] e = refl
  strings_body-injective [] (y ∷ ys) e =
      absurd
        (omega (arith, ap length e, sized_pos y, length-append (sized y) (strings_body host ys)))
  strings_body-injective (x ∷ xs) [] e =
      absurd
        (omega (arith, ap length e, sized_pos x, length-append (sized x) (strings_body host xs)))
  strings_body-injective (x ∷ xs) (y ∷ ys) e =
      let (p, q) = sized-cancel x y e in cc (p, strings_body-injective xs ys q)

  module _ (shortest : IsShortest host) where
    floats_body-injective :
        (xs ys : List ℕ) → floats_body host xs ≡ floats_body host ys → SameFloats xs ys
    unfolding floats_body
    floats_body-injective [] [] e = tt
    floats_body-injective [] (y ∷ ys) e =
        let n = length-append (sized (host.float_text y)) (floats_body host ys) in
        absurd (omega (arith, ap length e, sized_pos (host.float_text y), n))
    floats_body-injective (x ∷ xs) [] e =
        let n = length-append (sized (host.float_text x)) (floats_body host xs) in
        absurd (omega (arith, ap length e, sized_pos (host.float_text x), n))
    floats_body-injective (x ∷ xs) (y ∷ ys) e =
        let (p, q) = sized-cancel (host.float_text x) (host.float_text y) e in
        (shortest x y p, floats_body-injective xs ys q)

    -- If floats print so that they can be told apart, the key part of a value followed by other
    -- text determines the value (NaNs counting as one) and the text that follows: no two values
    -- share a key, and no part runs into the next.
    pub encode_part-cancel :
        (v w : DbValue) {r s : Text}
        → encode_part host v ++ r ≡ encode_part host w ++ s
        → SameValue v w × (r ≡ s)
    unfolding encode_part
    encode_part-cancel null null e = (refl, ground arith)
    encode_part-cancel (bool true) (bool true) e = (refl, ground arith)
    encode_part-cancel (bool false) (bool false) e = (refl, ground arith)
    encode_part-cancel (int m) (int n) {r} {s} e =
        let tails : sized (int_text m) ++ r ≡ sized (int_text n) ++ s = cc in
        let (p, q) = sized-cancel (int_text m) (int_text n) tails in
        (ap int (int_text-injective m n p), q)
    encode_part-cancel (float x) (float y) {r} {s} e =
        let tails : sized (host.float_text x) ++ r ≡ sized (host.float_text y) ++ s = cc in
        let (p, q) = sized-cancel (host.float_text x) (host.float_text y) tails in
        (shortest x y p, q)
    encode_part-cancel (string a) (string b) {r} {s} e =
        let tails : sized a ++ r ≡ sized b ++ s = cc in
        let (p, q) = sized-cancel a b tails in (ap string p, q)
    encode_part-cancel (strings xs) (strings ys) {r} {s} e =
        let tails : sized (strings_body host xs) ++ r ≡ sized (strings_body host ys) ++ s = cc in
        let (p, q) = sized-cancel (strings_body host xs) (strings_body host ys) tails in
        (ap strings (strings_body-injective xs ys p), q)
    encode_part-cancel (floats xs) (floats ys) {r} {s} e =
        let tails : sized (floats_body host xs) ++ r ≡ sized (floats_body host ys) ++ s = cc in
        let (p, q) = sized-cancel (floats_body host xs) (floats_body host ys) tails in
        (floats_body-injective xs ys p, q)
    encode_part-cancel (bool true) (bool false) e = ground arith
    encode_part-cancel (bool false) (bool true) e = ground arith
    encode_part-cancel v w e = ground arith
