-- ===== src/Value/Group.antt =====
-- engine/value.rs: the grouping key of GROUP BY and DISTINCT. A hasher is what it is fed: each `hash` call
-- of the source is one token, which says what is hashed.
pub mod Hash
use a3sql.Prelude.{ℕ, Bool, true, false, ◌&&◌, ◌||◌, List, [], ◌∷◌, ◌++◌, length, ite, ◌==◌}
use a3sql.Prelude.Int.{ℤ, ℤ-discrete}
use a3sql.Prelude.Text.{Text, Text-discrete}
use a3sql.Value.{DbValue, null, bool, int, float, string, strings, floats}
use a3sql.Value.Float.{is_nan, float_eq, canonical_float_bits}

abbrev pub same_float : ℕ → ℕ → Bool
same_float x y = float_eq x y || is_nan x && is_nan y

abbrev pub same_floats : List ℕ → List ℕ → Bool
same_floats [] [] = true
same_floats (x ∷ xs) (y ∷ ys) = same_float x y && same_floats xs ys
same_floats _ _ = false

abbrev pub same_texts : List Text → List Text → Bool
same_texts [] [] = true
same_texts (s ∷ ss) (t ∷ ts) = let rest = same_texts ss ts in ite (Text-discrete s t) rest false
same_texts _ _ = false

abbrev pub same_bool : Bool → Bool → Bool
same_bool true true = true
same_bool false false = true
same_bool _ _ = false

unfoldable pub group_values_equal : DbValue → DbValue → Bool
group_values_equal null null = true
group_values_equal (bool b) (bool c) = same_bool b c
group_values_equal (int m) (int n) = ite (ℤ-discrete m n) true false
group_values_equal (float x) (float y) = same_float x y
group_values_equal (string s) (string t) = ite (Text-discrete s t) true false
group_values_equal (strings ss) (strings ts) = same_texts ss ts
group_values_equal (floats xs) (floats ys) = same_floats xs ys
group_values_equal _ _ = false

-- `GroupKey::eq`, for lists of one length.
unfoldable pub group_keys_equal : List DbValue → List DbValue → Bool
unfolding group_values_equal
group_keys_equal [] [] = true
group_keys_equal (v ∷ vs) (w ∷ ws) = group_values_equal v w && group_keys_equal vs ws
group_keys_equal _ _ = false

pub data Token : Type 0 where
  tag : ℕ → Token
  len : ℕ → Token
  of_bool : Bool → Token
  of_int : ℤ → Token
  of_bits : ℕ → Token
  of_text : Text → Token

abbrev pub text_tokens : List Text → List Token
text_tokens [] = []
text_tokens (s ∷ ss) = of_text s ∷ text_tokens ss

abbrev pub float_tokens : List ℕ → List Token
float_tokens [] = []
float_tokens (f ∷ fs) = of_bits (canonical_float_bits f) ∷ float_tokens fs

unfoldable pub hash_group_value : DbValue → List Token
hash_group_value null = tag 0 ∷ []
hash_group_value (bool b) = tag 1 ∷ of_bool b ∷ []
hash_group_value (int n) = tag 2 ∷ of_int n ∷ []
hash_group_value (float f) = tag 3 ∷ of_bits (canonical_float_bits f) ∷ []
hash_group_value (string s) = tag 4 ∷ of_text s ∷ []
hash_group_value (strings ss) = tag 5 ∷ len (length ss) ∷ text_tokens ss
hash_group_value (floats fs) = tag 6 ∷ len (length fs) ∷ float_tokens fs

abbrev pub hash_values : List DbValue → List Token
hash_values [] = []
hash_values (v ∷ vs) = hash_group_value v ++ hash_values vs

-- `GroupKey::hash`
unfoldable pub hash_group_key : List DbValue → List Token
unfolding hash_group_value
hash_group_key vs = len (length vs) ∷ hash_values vs
