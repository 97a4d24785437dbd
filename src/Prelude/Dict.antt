-- ===== src/Prelude/Dict.antt =====
-- A `HashMap<String, V>` whose keys are counted or listed: its entries in the order of insertion, with
-- `get`, `insert`, `remove` and `keys`.
use mathlib.Core.Path.{◌≡◌, refl}
use mathlib.Core.Logic.{ite}
use mathlib.Core.Bool.{Bool, true, false, ◌||◌}
use mathlib.Core.Option.{Option, none, some}
use mathlib.Core.List.{List, [], ◌∷◌}
use native.Mathlib.Omega.{arith}
use a3sql.Prelude.Text.{Text, Text-discrete}
use a3sql.Prelude.Texts.{among, Distinct}

abbrev pub Dict {ℓ} : Type ℓ → Type ℓ
Dict V = List (Text × V)

module _ {ℓ} {V : Type ℓ} where
  abbrev pub find : Text → Dict V → Option V
  find k [] = none
  find k ((j, v) ∷ d) = ite (Text-discrete j k) (some v) (find k d)

  abbrev pub put : Text → V → Dict V → Dict V
  put k v [] = (k, v) ∷ []
  put k v ((j, w) ∷ d) =
      let rest = put k v d in ite (Text-discrete j k) ((j, v) ∷ d) ((j, w) ∷ rest)

  abbrev pub drop_key : Text → Dict V → Dict V
  drop_key k [] = []
  drop_key k ((j, w) ∷ d) = let rest = drop_key k d in ite (Text-discrete j k) rest ((j, w) ∷ rest)

  abbrev pub keys : Dict V → List Text
  keys [] = []
  keys ((k, v) ∷ d) = k ∷ keys d

  abbrev pub has_key : Text → Dict V → Bool
  has_key k d = elim (find k d) [ none ↦ false | some v ↦ true ]

  pub find-put_same : (k : Text) (v : V) (d : Dict V) → find k (put k v d) ≡ some v
  find-put_same k v [] = ground arith
  find-put_same k v ((j, w) ∷ d) = ground (arith, find-put_same k v d)

  pub find-put_other :
      (k j : Text) (v : V) (d : Dict V) → (k ≡ j → ⊥) → find j (put k v d) ≡ find j d
  find-put_other k j v [] n = ground arith
  find-put_other k j v ((i, w) ∷ d) n = ground (arith, find-put_other k j v d n)

  pub find-drop_key : (k : Text) (d : Dict V) → find k (drop_key k d) ≡ none
  find-drop_key k [] = refl
  find-drop_key k ((j, w) ∷ d) = ground (arith, find-drop_key k d)

  pub find-drop_key_other :
      (k j : Text) (d : Dict V) → (k ≡ j → ⊥) → find j (drop_key k d) ≡ find j d
  find-drop_key_other k j [] n = refl
  find-drop_key_other k j ((i, w) ∷ d) n = ground (arith, find-drop_key_other k j d n)

  -- The key is listed if and only if it is found.
  pub has_key-among : (k : Text) (d : Dict V) → has_key k d ≡ among k (keys d)
  has_key-among k [] = refl
  has_key-among k ((j, w) ∷ d) = ground (arith, has_key-among k d)

  among-put :
      (i k : Text) (v : V) (d : Dict V)
      → among i (keys (put k v d)) ≡ (ite (Text-discrete k i) true false || among i (keys d))
  among-put i k v [] = ground arith
  among-put i k v ((j, w) ∷ d) = ground (arith, among-put i k v d)

  among-drop_key :
      (i k : Text) (d : Dict V) → among i (keys d) ≡ false → among i (keys (drop_key k d)) ≡ false
  among-drop_key i k [] h = refl
  among-drop_key i k ((j, w) ∷ d) h = ground (arith, among-drop_key i k d)

  pub put-Distinct :
      (k : Text) (v : V) (d : Dict V) → Distinct (keys d) → Distinct (keys (put k v d))
  put-Distinct k v [] h = (refl, tt)
  put-Distinct k v ((j, w) ∷ d) h = ground (arith, among-put j k v d, put-Distinct k v d)

  pub drop_key-Distinct :
      (k : Text) (d : Dict V) → Distinct (keys d) → Distinct (keys (drop_key k d))
  drop_key-Distinct k [] h = tt
  drop_key-Distinct k ((j, w) ∷ d) h = ground (arith, among-drop_key j k d, drop_key-Distinct k d)
