-- ===== src/Value/Group/Hash.antt =====
-- engine/value.rs: the hash of a grouping key against its equality.
use a3sql.Prelude.{ℕ, ◌≡◌, refl, true, List, [], ◌∷◌, ◌++◌, length, arith, ◌↔◌}
use a3sql.Prelude.Text.{Text}
use a3sql.Value.{DbValue, null, bool, int, float, string, strings, floats}
use a3sql.Value.Float.{is_nan, is_zero, float_eq, canonical_float_bits}
use a3sql.Value.Group.{
  same_float, same_floats, same_texts, group_values_equal, group_keys_equal, Token, text_tokens,
  float_tokens, hash_group_value, hash_values, hash_group_key,
}

canonical-same : (x y : ℕ) → same_float x y ≡ true → canonical_float_bits x ≡ canonical_float_bits y
unfolding float_eq canonical_float_bits
canonical-same x y h = ground arith

same-canonical : (x y : ℕ) → canonical_float_bits x ≡ canonical_float_bits y → same_float x y ≡ true
unfolding float_eq canonical_float_bits is_nan is_zero
same-canonical x y h = ground arith

same_floats-tokens :
    (xs ys : List ℕ)
    → same_floats xs ys ≡ true
    → (length xs ≡ length ys) × (float_tokens xs ≡ float_tokens ys)
same_floats-tokens [] [] h = (refl, refl)
same_floats-tokens [] (y ∷ ys) h = absurd (ground arith)
same_floats-tokens (x ∷ xs) [] h = absurd (ground arith)
same_floats-tokens (x ∷ xs) (y ∷ ys) h =
    ground (arith, same_floats-tokens xs ys, canonical-same x y)

same_texts-tokens :
    (ss ts : List Text)
    → same_texts ss ts ≡ true
    → (length ss ≡ length ts) × (text_tokens ss ≡ text_tokens ts)
same_texts-tokens [] [] h = (refl, refl)
same_texts-tokens [] (y ∷ ys) h = absurd (ground arith)
same_texts-tokens (x ∷ xs) [] h = absurd (ground arith)
same_texts-tokens (x ∷ xs) (y ∷ ys) h = ground (arith, same_texts-tokens xs ys)

hash-same :
    (v w : DbValue) → group_values_equal v w ≡ true → hash_group_value v ≡ hash_group_value w
unfolding group_values_equal hash_group_value
hash-same null null h = refl
hash-same (bool b) (bool c) h = ground arith
hash-same (int m) (int n) h = ground arith
hash-same (float x) (float y) h = ground (arith, canonical-same x y)
hash-same (string s) (string t) h = ground arith
hash-same (strings ss) (strings ts) h = ground (arith, same_texts-tokens ss ts)
hash-same (floats xs) (floats ys) h = ground (arith, same_floats-tokens xs ys)
hash-same v w h = absurd (ground arith)

hash_values-same :
    (vs ws : List DbValue)
    → group_keys_equal vs ws ≡ true
    → (length vs ≡ length ws) × (hash_values vs ≡ hash_values ws)
unfolding group_keys_equal
hash_values-same [] [] h = (refl, refl)
hash_values-same [] (w ∷ ws) h = absurd (ground arith)
hash_values-same (v ∷ vs) [] h = absurd (ground arith)
hash_values-same (v ∷ vs) (w ∷ ws) h = ground (arith, hash-same v w, hash_values-same vs ws)

float_tokens-cancel :
    (xs ys : List ℕ) {r s : List Token}
    → length xs ≡ length ys
    → float_tokens xs ++ r ≡ float_tokens ys ++ s
    → (same_floats xs ys ≡ true) × (r ≡ s)
float_tokens-cancel [] [] n e = (refl, e)
float_tokens-cancel [] (y ∷ ys) n e = absurd (omega arith)
float_tokens-cancel (x ∷ xs) [] n e = absurd (omega arith)
float_tokens-cancel (x ∷ xs) (y ∷ ys) {r} {s} n e =
    let tails : float_tokens xs ++ r ≡ float_tokens ys ++ s = cc in
    let bits : canonical_float_bits x ≡ canonical_float_bits y = cc in
    let (p, q) = float_tokens-cancel xs ys {r = r} {s = s} (omega arith) tails in
    (ground (arith, p, same-canonical x y bits), q)

text_tokens-cancel :
    (ss ts : List Text) {r s : List Token}
    → length ss ≡ length ts
    → text_tokens ss ++ r ≡ text_tokens ts ++ s
    → (same_texts ss ts ≡ true) × (r ≡ s)
text_tokens-cancel [] [] n e = (refl, e)
text_tokens-cancel [] (y ∷ ys) n e = absurd (omega arith)
text_tokens-cancel (x ∷ xs) [] n e = absurd (omega arith)
text_tokens-cancel (x ∷ xs) (y ∷ ys) {r} {s} n e =
    let tails : text_tokens xs ++ r ≡ text_tokens ys ++ s = cc in
    let head : x ≡ y = cc in
    let (p, q) = text_tokens-cancel xs ys {r = r} {s = s} (omega arith) tails in
    (ground (arith, p, head), q)

hash-cancel :
    (v w : DbValue) {r s : List Token}
    → hash_group_value v ++ r ≡ hash_group_value w ++ s
    → (group_values_equal v w ≡ true) × (r ≡ s)
unfolding group_values_equal hash_group_value
hash-cancel null null e = (refl, ground arith)
hash-cancel (bool b) (bool c) e = ground arith
hash-cancel (int m) (int n) e = ground arith
hash-cancel (float x) (float y) {r} {s} e =
    let bits : canonical_float_bits x ≡ canonical_float_bits y = cc in
    let tails : r ≡ s = cc in (same-canonical x y bits, tails)
hash-cancel (string a) (string b) e = ground arith
hash-cancel (strings ss) (strings ts) {r} {s} e =
    let n : length ss ≡ length ts = cc in
    let tails : text_tokens ss ++ r ≡ text_tokens ts ++ s = cc in text_tokens-cancel ss ts n tails
hash-cancel (floats xs) (floats ys) {r} {s} e =
    let n : length xs ≡ length ys = cc in
    let tails : float_tokens xs ++ r ≡ float_tokens ys ++ s = cc in
    float_tokens-cancel xs ys n tails
hash-cancel v w e = ground arith

hash_values-cancel :
    (vs ws : List DbValue)
    → length vs ≡ length ws
    → hash_values vs ≡ hash_values ws
    → group_keys_equal vs ws ≡ true
unfolding group_keys_equal
hash_values-cancel [] [] n e = refl
hash_values-cancel [] (w ∷ ws) n e = absurd (omega arith)
hash_values-cancel (v ∷ vs) [] n e = absurd (omega arith)
hash_values-cancel (v ∷ vs) (w ∷ ws) n e =
    let (p, q) = hash-cancel v w e in rw p (hash_values-cancel vs ws (omega arith) q)

-- Two grouping keys are equal if and only if the hasher is fed the same for both: equal keys
-- have equal hashes, and no two unequal keys feed the hasher the same.
pub hash_group_key-equal :
    (vs ws : List DbValue)
    → (group_keys_equal vs ws ≡ true) ↔ (hash_group_key vs ≡ hash_group_key ws)
unfolding hash_group_key
hash_group_key-equal vs ws = (forth, back)
  where
    forth : group_keys_equal vs ws ≡ true → hash_group_key vs ≡ hash_group_key ws
    forth h = let (n, e) = hash_values-same vs ws h in cc

    lens : hash_group_key vs ≡ hash_group_key ws → length vs ≡ length ws
    lens e = cc

    back : hash_group_key vs ≡ hash_group_key ws → group_keys_equal vs ws ≡ true
    back e =
        let rest : hash_values vs ≡ hash_values ws = cc in hash_values-cancel vs ws (lens e) rest
