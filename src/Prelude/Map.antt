-- ===== src/Prelude/Map.antt =====
-- A `HashMap<String, V>` as the function that `get` computes, and a `HashSet<String>` as the function
-- that `contains` computes; neither is ever iterated over where these stand for it.
use mathlib.Core.Logic.{ite}
use mathlib.Core.Bool.{Bool, true, false}
use mathlib.Core.Option.{Option, none, some}
use mathlib.Core.List.{List, [], ◌∷◌}
use a3sql.Prelude.Text.{Text, Text-discrete}

abbrev pub Map {ℓ} : Type ℓ → Type ℓ
Map V = Text → Option V

abbrev pub Set : Type 0
Set = Text → Bool

module _ {ℓ} {V : Type ℓ} where
  abbrev pub empty : Map V
  empty k = none

  abbrev pub insert : Text → V → Map V → Map V
  insert k v m j = ite (Text-discrete k j) (some v) (m j)

  abbrev pub remove : Text → Map V → Map V
  remove k m j = ite (Text-discrete k j) none (m j)

abbrev pub no_keys : Set
no_keys k = false

abbrev pub add : Text → Set → Set
add k s j = ite (Text-discrete k j) true (s j)

abbrev pub delete : Text → Set → Set
delete k s j = ite (Text-discrete k j) false (s j)

abbrev pub add_all : List Text → Set → Set
add_all [] s = s
add_all (k ∷ ks) s = add_all ks (add k s)

abbrev pub delete_all : List Text → Set → Set
delete_all [] s = s
delete_all (k ∷ ks) s = delete_all ks (delete k s)
