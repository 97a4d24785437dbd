-- ===== src/Examples/Values.antt =====
-- The theorems on grouping keys and error codes at concrete values.
use a3sql.Prelude.{◌≡◌, true, List, [], ◌∷◌, ◌↔◌}
use a3sql.Prelude.Text.{Text}
use a3sql.Value.{DbValue}
use a3sql.Value.Group.{group_keys_equal, hash_group_key}
use a3sql.Value.Group.Hash.{hash_group_key-equal}

-- The two zeros.
abbrev zero_key : List DbValue
zero_key = DbValue.float 0 ∷ []

abbrev negative_zero_key : List DbValue
negative_zero_key = DbValue.float 0x8000000000000000 ∷ []

hash_group_key-equal_example :
    (group_keys_equal zero_key negative_zero_key ≡ true)
    ↔ (hash_group_key zero_key ≡ hash_group_key negative_zero_key)
hash_group_key-equal_example = hash_group_key-equal zero_key negative_zero_key

abbrev unchanged : Text → Text
unchanged s = s
