-- ===== src/Common/State.antt =====
-- Go code that changes a state and returns `(T, error)` or panics: the state stays as far as it came.
use bget.Common.Go.{Result, ok, err, panic}

abbrev pub State : Type 0 → Type 0 → Type 0 → Type 0
State S E A = S → S × Result E A

module _ {S E : Type 0} where
  abbrev pub follow : {A B : Type 0} → S × Result E A → (A → State S E B) → S × Result E B
  follow (s, ok a) f = f a s
  follow (s, err e) f = (s, err e)
  follow (s, panic) f = (s, panic)

  infixl 5 ◌>>=◌ ◌>>◌
  abbrev pub ◌>>=◌ : {A B : Type 0} → State S E A → (A → State S E B) → State S E B
  ◌>>=◌ m f s = follow (m s) f

  abbrev pub ◌>>◌ : {B : Type 0} → State S E (Unit {0}) → State S E B → State S E B
  ◌>>◌ m k s = follow (m s) (λ _. k)

  abbrev pub return : {A : Type 0} → A → State S E A
  return a s = (s, ok a)
