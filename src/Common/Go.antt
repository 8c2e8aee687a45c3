-- ===== src/Common/Go.antt =====
-- The outcomes of a Go function that returns `(T, error)` and may panic.
use mathlib.Core.Path.{◌≡◌, refl}
use mathlib.Core.Logic.{◌⊎◌, inl, inr}
use mathlib.Core.Option.{Option, none, some}

pub data Result {ℓ κ} (E : Type ℓ) (A : Type κ) : Type (ℓ ⊔ κ) where
  ok : A → Result E A
  err : E → Result E A
  panic : Result E A

infixl 5 ◌>>=◌ ◌>>◌
abbrev pub ◌>>=◌ {ℓ κ μ} :
    {E : Type ℓ} {A : Type κ} {B : Type μ} → Result E A → (A → Result E B) → Result E B
ok a >>= f = f a
err e >>= f = err e
panic >>= f = panic

abbrev pub ◌>>◌ {ℓ κ} : {E : Type ℓ} {B : Type κ} → Result E (Unit {0}) → Result E B → Result E B
m >> k = m >>= λ _. k

-- The call returns, with no error and no panic, and its value has the property.
abbrev pub Returns {ℓ κ} : {E : Type ℓ} {A : Type κ} → Result E A → (A → Type 0) → Type 0
Returns (ok a) P = P a
Returns (err e) P = ⊥
Returns panic P = ⊥

-- An index into a slice: out of range it panics.
abbrev pub index {ℓ κ} : {E : Type ℓ} {A : Type κ} → Option A → Result E A
index none = panic
index (some a) = ok a

pub Returns-map {ℓ κ} :
    {E : Type ℓ} {A : Type κ} (r : Result E A) (P Q : A → Type 0)
    → ((a : A) → P a → Q a)
    → Returns r P
    → Returns r Q
Returns-map (ok a) P Q f h = f a h
Returns-map (err e) P Q f h = h
Returns-map panic P Q f h = h

-- What a call that returns gave.
pub Returns-value {ℓ κ} :
    {E : Type ℓ} {A : Type κ} (r : Result E A) (P : A → Type 0)
    → Returns r P
    → (a : A) × (r ≡ ok a) × P a
Returns-value (ok a) P h = (a, refl, h)
Returns-value (err e) P h = absurd h
Returns-value panic P h = absurd h

pub Result-cases {ℓ κ} :
    {E : Type ℓ} {A : Type κ} (r : Result E A)
    → ((a : A) × (r ≡ ok a)) ⊎ ((e : E) × (r ≡ err e)) ⊎ (r ≡ panic)
Result-cases (ok a) = inl (a, refl)
Result-cases (err e) = inr (inl (e, refl))
Result-cases panic = inr (inr refl)
