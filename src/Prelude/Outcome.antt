-- ===== src/Prelude/Outcome.antt =====
-- Rust's `Result` and the `?` operator.
use mathlib.Core.Path.{◌≡◌, refl, ap}

pub data Result {ℓ κ} (V : Type ℓ) (F : Type κ) : Type (ℓ ⊔ κ) where
  err : F → Result V F
  ok : V → Result V F

-- The value of an accepted result.
pub ok-injective {ℓ κ} :
    {V : Type ℓ} {F : Type κ} {v w : V} → ◌≡◌ {A = Result V F} (ok v) (ok w) → v ≡ w
ok-injective {V} {F} {v} same = ap value same
  where
    value : Result V F → V
    value (err _) = v
    value (ok w) = w

infixl 5 ◌>>=◌
-- `?`, and then the code behind it.
abbrev pub ◌>>=◌ {ℓ κ μ} :
    {V : Type ℓ} {W : Type κ} {F : Type μ} → Result V F → (V → Result W F) → Result W F
result >>= next = elim result [ err failure ↦ err failure | ok value ↦ next value ]

-- Inversion of a successful `?`.
pub >>=-eq-ok {ℓ κ μ} :
    {V : Type ℓ} {W : Type κ} {F : Type μ} (result : Result V F) (next : V → Result W F) {w : W}
    → (result >>= next) ≡ ok w
    → (v : V) × (result ≡ ok v) × (next v ≡ ok w)
>>=-eq-ok (err failure) next same = cc
>>=-eq-ok (ok v) next same = (v, refl, same)

infixl 5 ◌>>◌
abbrev pub ◌>>◌ {ℓ κ μ} :
    {V : Type ℓ} {W : Type κ} {F : Type μ} → Result V F → Result W F → Result W F
first >> second = first >>= (λ _. second)
