-- ===== src/Prelude/Texts.antt =====
-- Lists of texts as sets: membership as a test, distinctness, and the set operations of `Map`.
use a3sql.Prelude.{
  ◌≡◌, refl, Bool, true, false, ◌||◌, ◌&&◌, not, List, [], ◌∷◌, ◌++◌, arith, ite, ℕ, suc,
  if◌then◌else◌, append_assoc, Bool-cases, inl, inr,
}
use a3sql.Prelude.Map
use a3sql.Prelude.Map.{Set}
use a3sql.Prelude.Text.{Text, Text-discrete}

-- `k` is among the texts.
abbrev pub among : Text → List Text → Bool
among k [] = false
among k (j ∷ ks) = ite (Text-discrete j k) true (among k ks)

abbrev pub Distinct : List Text → Type 0
Distinct [] = Unit
Distinct (k ∷ ks) = (among k ks ≡ false) × Distinct ks

-- No text of the first list is among the second.
abbrev pub Apart : List Text → List Text → Type 0
Apart [] js = Unit
Apart (k ∷ ks) js = (among k js ≡ false) × Apart ks js

pub among-append : (k : Text) (xs ys : List Text) → among k (xs ++ ys) ≡ (among k xs || among k ys)
among-append k [] ys = refl
among-append k (x ∷ xs) ys = ground (arith, among-append k xs ys)

pub Distinct-append :
    (xs ys : List Text) → Distinct xs → Distinct ys → Apart ys xs → Distinct (xs ++ ys)
Distinct-append [] ys dx dy a = dy
Distinct-append (x ∷ xs) ys dx dy a =
    (absent x xs ys dx.0 a, Distinct-append xs ys dx.1 dy (narrow x xs ys a))
  where
    narrow : (x : Text) (xs ys : List Text) → Apart ys (x ∷ xs) → Apart ys xs
    narrow x xs [] a = tt
    narrow x xs (y ∷ ys) a = (ground arith, narrow x xs ys a.1)

    apart_head : (x : Text) (xs ys : List Text) → Apart ys (x ∷ xs) → among x ys ≡ false
    apart_head x xs [] a = refl
    apart_head x xs (y ∷ ys) a = ground (arith, apart_head x xs ys a.1)

    absent :
        (x : Text) (xs ys : List Text)
        → among x xs ≡ false
        → Apart ys (x ∷ xs)
        → among x (xs ++ ys) ≡ false
    absent x xs ys h a = ground (arith, among-append x xs ys, apart_head x xs ys a)

pub add_all-among : (ks : List Text) (s : Set) (k : Text) → Map.add_all ks s k ≡ (among k ks || s k)
add_all-among [] s k = refl
add_all-among (j ∷ ks) s k = ground (arith, add_all-among ks (Map.add j s) k)

pub delete_all-among :
    (ks : List Text) (s : Set) (k : Text) → Map.delete_all ks s k ≡ (not (among k ks) && s k)
delete_all-among [] s k = refl
delete_all-among (j ∷ ks) s k = ground (arith, delete_all-among ks (Map.delete j s) k)

-- The texts that `f` gives for the elements, in order.
abbrev pub gather {ℓ} : {A : Type ℓ} → (A → List Text) → List A → List Text
gather f [] = []
gather f (x ∷ xs) = f x ++ gather f xs

-- The elements that fail the test.
unfoldable pub kept {ℓ} : {A : Type ℓ} → (A → Bool) → List A → List A
kept p [] = []
kept p (x ∷ xs) = let rest = kept p xs in if p x then rest else x ∷ rest

-- How many elements pass the test.
unfoldable pub count_if {ℓ} : {A : Type ℓ} → (A → Bool) → List A → ℕ
count_if p [] = 0
count_if p (x ∷ xs) = let rest = count_if p xs in if p x then suc rest else rest

pub Distinct-right : (xs ys : List Text) → Distinct (xs ++ ys) → Distinct ys
Distinct-right [] ys d = d
Distinct-right (x ∷ xs) ys d = Distinct-right xs ys d.1

-- The right part may be thinned out.
pub Distinct-thin :
    (xs ys zs : List Text)
    → ((k : Text) → among k ys ≡ false → among k zs ≡ false)
    → Distinct zs
    → Distinct (xs ++ ys)
    → Distinct (xs ++ zs)
Distinct-thin [] ys zs h dz d = dz
Distinct-thin (x ∷ xs) ys zs h dz d = (
  ground (arith, d.0, among-append x xs ys, among-append x xs zs, h x),
  Distinct-thin xs ys zs h dz d.1,
)

module _ {ℓ} {A : Type ℓ} (f : A → List Text) where
  pub gather-append : (xs ys : List A) → gather f (xs ++ ys) ≡ gather f xs ++ gather f ys
  gather-append [] ys = refl
  gather-append (x ∷ xs) ys = rw (gather-append xs ys, append_assoc)

  pub among-gather-kept :
      (p : A → Bool) (k : Text) (xs : List A)
      → among k (gather f xs) ≡ false
      → among k (gather f (kept p xs)) ≡ false
  unfolding kept
  among-gather-kept p k [] h = refl
  among-gather-kept p k (x ∷ xs) h = elim (Bool-cases (p x)) [
    | inl gone ↦
        rw gone (ground (arith, among-gather-kept p k xs, among-append k (f x) (gather f xs)))
    | inr stays ↦ rw stays (
        ground (
          arith,
          among-gather-kept p k xs,
          among-append k (f x) (gather f xs),
          among-append k (f x) (gather f (kept p xs)),
        ))
  ]

  pub Distinct-gather-kept :
      (p : A → Bool) (xs : List A) → Distinct (gather f xs) → Distinct (gather f (kept p xs))
  unfolding kept
  Distinct-gather-kept p [] d = tt
  Distinct-gather-kept p (x ∷ xs) d = elim (Bool-cases (p x)) [
    | inl gone ↦ rw gone (Distinct-gather-kept p xs (Distinct-right (f x) (gather f xs) d))
    | inr stays ↦ rw stays (
        Distinct-thin (f x) (gather f xs) (gather f (kept p xs)) (λ k. among-gather-kept p k xs)
          (Distinct-gather-kept p xs (Distinct-right (f x) (gather f xs) d)) d)
  ]
