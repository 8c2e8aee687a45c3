-- ===== src/Common/Decimal.antt =====
-- Decimal notation of numbers, as `strconv` and the verb `%v` write them.
use Prim.Native.Nat.{ℕ, zero, suc, ◌+◌, ◌*◌, ◌/◌, ◌%◌, ◌<◌}
use mathlib.Core.Path.{◌≡◌, refl, ap}
use mathlib.Core.List.{List, [], ◌∷◌, ◌++◌}
use native.Mathlib.Omega.{arith}
use bget.Common.Tests.{ltb, if◌then◌else◌}
use bget.Common.Int.{ℤ, pos, negsuc}

-- The digits of `n`, with at most `fuel` of them; `n` has no more than `suc n`.
unfoldable pub digits : ℕ → ℕ → List ℕ
digits zero n = []
digits (suc fuel) n =
    let rest = digits fuel (n / 10) in
    if ltb n 10 then (b'0' + n) ∷ [] else rest ++ (b'0' + n % 10) ∷ []

unfoldable pub decimal : ℕ → List ℕ
unfolding digits
decimal n = digits (suc n) n

unfoldable pub decimal_int : ℤ → List ℕ
decimal_int (pos n) = decimal n
decimal_int (negsuc n) = b'-' ∷ decimal (suc n)

-- More fuel than the number changes nothing.
pub digits_enough : (f g n : ℕ) → n < f → n < g → digits f n ≡ digits g n
unfolding digits
digits_enough zero g n h k = absurd (omega arith)
digits_enough (suc f) zero n h k = absurd (omega arith)
digits_enough (suc f) (suc g) zero h k = refl
digits_enough (suc f) (suc g) (suc n) h k =
    ground (arith, digits_enough f g (suc n / 10) (omega arith) (omega arith))

pub decimal_small : (n : ℕ) → n < 10 → decimal n ≡ (b'0' + n) ∷ []
unfolding decimal
decimal_small n h = ground arith

-- A last digit behind a number that is not 0.
pub decimal_snoc : (n d : ℕ) → 0 < n → d < 10 → decimal (n * 10 + d) ≡ decimal n ++ (b'0' + d) ∷ []
unfolding decimal digits
decimal_snoc n d h k = ground (
  arith,
  digits_enough (n * 10 + d) (suc n) n (omega arith) (omega arith),
  ap (digits (n * 10 + d)) (quotient n d k),
)
  where
    quotient : (n d : ℕ) → d < 10 → (n * 10 + d) / 10 ≡ n
    quotient n d k = omega arith
