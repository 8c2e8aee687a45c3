-- ===== src/Common/Bytes.antt =====
-- `bytes.Equal` and the equality of strings, which are lists of byte values here.
use Prim.Native.Nat.{ℕ}
use mathlib.Core.Path.{◌≡◌, refl}
use mathlib.Core.Logic.{◌≢◌}
use mathlib.Core.Bool.{Bool, true, false, ◌&&◌}
use mathlib.Core.List.{List, [], ◌∷◌}
use native.Mathlib.Omega.{arith}
use bget.Common.Tests.{◌==◌}

unfoldable pub equal : List ℕ → List ℕ → Bool
equal [] [] = true
equal (x ∷ xs) (y ∷ ys) = x == y && equal xs ys
equal _ _ = false

pub equal_refl : (xs : List ℕ) → equal xs xs ≡ true
unfolding equal
equal_refl [] = refl
equal_refl (x ∷ xs) = ground (arith, equal_refl xs)

pub equal_sound : (xs ys : List ℕ) → equal xs ys ≡ true → xs ≡ ys
unfolding equal
equal_sound [] [] h = refl
equal_sound [] (y ∷ ys) h = cc
equal_sound (x ∷ xs) [] h = cc
equal_sound (x ∷ xs) (y ∷ ys) h = ground (arith, equal_sound xs ys)

pub equal_ne : (xs ys : List ℕ) → xs ≢ ys → equal xs ys ≡ false
unfolding equal
equal_ne xs ys h = ground (arith, equal_sound xs ys)
