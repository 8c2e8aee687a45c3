-- ===== src/Common/Bits.antt =====
-- Binary digits of a number: how `&`, `|` and `^` act on each, and on a one-bit mask.
use Prim.Native.Nat.{
  ℕ, zero, suc, ◌+◌, ◌-◌, ◌*◌, ◌/◌, ◌%◌, ◌^◌, ◌<◌, ◌≤◌, min, max, bit_and, bit_or, bit_xor, differ,
  digits, bitwise, bit_and-bitwise, bit_or-bitwise, bit_xor-bitwise,
}
use mathlib.Core.Path.{◌≡◌, refl, ap, ◌∙◌}
use native.Mathlib.Nat.{pow-succ'}
use native.Mathlib.Omega.{arith}
use bget.Common.Tests.{◌==◌, if◌then◌else◌}

-- Fuel beyond the number itself changes nothing, so the lowest digit of a bitwise operation splits off.
module _ (base : ℕ → ℕ) (op : ℕ → ℕ → ℕ) where
  one_more : (n a b : ℕ) → a ≤ n → digits base op (suc n) a b ≡ digits base op n a b
  one_more zero zero b le = refl
  one_more zero (suc a) b le = absurd (omega arith)
  one_more (suc n) zero b le = refl
  one_more (suc n) (suc a) b le = rw (one_more n (suc a / 2) (b / 2) (omega arith))

  settled : (k m a b : ℕ) → m ≡ a + k → digits base op m a b ≡ digits base op a a b
  settled zero m a b e = ap (λ t. digits base op t a b) (omega arith)
  settled (suc k) zero a b e = absurd (omega arith)
  settled (suc k) (suc m) a b e = one_more m a b (omega arith) ∙ settled k m a b (omega arith)

  lowest :
      (a b : ℕ)
      → bitwise base op (suc a) b ≡ op (suc a % 2) (b % 2) + 2 * bitwise base op (suc a / 2) (b / 2)
  lowest a b =
      let half = suc a / 2 in omega (arith, settled (a - half) a half (b / 2) (omega arith))

and_halves : (a b : ℕ) → bit_and a b ≡ min (a % 2) (b % 2) + 2 * bit_and (a / 2) (b / 2)
and_halves zero b = simp bit_and-bitwise (omega arith)
and_halves (suc a) b = simp bit_and-bitwise (lowest (λ t. 0) min a b)

or_halves : (a b : ℕ) → bit_or a b ≡ max (a % 2) (b % 2) + 2 * bit_or (a / 2) (b / 2)
or_halves zero b = simp bit_or-bitwise (omega arith)
or_halves (suc a) b = simp bit_or-bitwise (lowest (λ t. t) max a b)

differ_lem : (a b : ℕ) → a < 2 → b < 2 → differ a b ≡ (a + b) % 2
differ_lem zero b h k = omega arith
differ_lem (suc zero) zero h k = refl
differ_lem (suc zero) (suc zero) h k = refl
differ_lem (suc zero) (suc (suc b)) h k = absurd (omega arith)
differ_lem (suc (suc a)) b h k = absurd (omega arith)

xor_halves : (a b : ℕ) → bit_xor a b ≡ (a % 2 + b % 2) % 2 + 2 * bit_xor (a / 2) (b / 2)
xor_halves zero b = simp bit_xor-bitwise (omega arith)
xor_halves (suc a) b = simp bit_xor-bitwise (
    omega (
      arith,
      lowest (λ t. t) differ a b,
      differ_lem (suc a % 2) (b % 2) (omega arith) (omega arith),
    ))

-- The digit of weight `2 ^ k`.
unfoldable pub bit_at : ℕ → ℕ → ℕ
bit_at a zero = a % 2
bit_at a (suc k) = bit_at (a / 2) k

pub bit_at-lt : (a k : ℕ) → bit_at a k < 2
unfolding bit_at
bit_at-lt a zero = omega arith
bit_at-lt a (suc k) = bit_at-lt (a / 2) k

pub bit_at-bit_and : (k a b : ℕ) → bit_at (bit_and a b) k ≡ min (bit_at a k) (bit_at b k)
unfolding bit_at
bit_at-bit_and zero a b = omega (arith, and_halves a b)
bit_at-bit_and (suc k) a b =
    ap (λ n. bit_at n k) (omega (arith, and_halves a b)) ∙ bit_at-bit_and k (a / 2) (b / 2)

pub bit_at-bit_or : (k a b : ℕ) → bit_at (bit_or a b) k ≡ max (bit_at a k) (bit_at b k)
unfolding bit_at
bit_at-bit_or zero a b = omega (arith, or_halves a b)
bit_at-bit_or (suc k) a b =
    ap (λ n. bit_at n k) (omega (arith, or_halves a b)) ∙ bit_at-bit_or k (a / 2) (b / 2)

pub bit_at-bit_xor : (k a b : ℕ) → bit_at (bit_xor a b) k ≡ (bit_at a k + bit_at b k) % 2
unfolding bit_at
bit_at-bit_xor zero a b = omega (arith, xor_halves a b)
bit_at-bit_xor (suc k) a b =
    ap (λ n. bit_at n k) (omega (arith, xor_halves a b)) ∙ bit_at-bit_xor k (a / 2) (b / 2)

pub bit_at-zero : (j : ℕ) → bit_at 0 j ≡ 0
unfolding bit_at
bit_at-zero zero = refl
bit_at-zero (suc j) = bit_at-zero j

-- A one-bit mask has one digit.
pub bit_at-pow : (k j : ℕ) → bit_at (2 ^ k) j ≡ (if k == j then 1 else 0)
unfolding bit_at
bit_at-pow zero zero = refl
bit_at-pow zero (suc j) = ground (arith, bit_at-zero j)
bit_at-pow (suc k) zero = ground (arith, pow-succ' 2 k)
bit_at-pow (suc k) (suc j) =
    ap (λ n. bit_at n j) (omega (arith, pow-succ' 2 k)) ∙ bit_at-pow k j ∙ ground arith

and_zero : (a n : ℕ) → a ≤ n → bit_and a 0 ≡ 0
and_zero zero n le = refl
and_zero (suc a) zero le = absurd (omega arith)
and_zero (suc a) (suc n) le =
    omega (and_halves (suc a) 0, arith, and_zero (suc a / 2) n (omega arith))

-- `v & (1 << k)` keeps the one digit.
pub bit_and-pow : (k a : ℕ) → bit_and a (2 ^ k) ≡ bit_at a k * 2 ^ k
unfolding bit_at
bit_and-pow zero a = omega (arith, and_halves a 1, and_zero (a / 2) (a / 2) (omega arith))
bit_and-pow (suc k) a = ground (
  arith,
  and_halves a (2 ^ suc k),
  pow-succ' 2 k,
  bit_and-pow k (a / 2),
  ap (λ (t : ℕ). bit_at (a / 2) k * t) (pow-succ' 2 k),
)

pub bit_or-lt : (k a b : ℕ) → a < 2 ^ k → b < 2 ^ k → bit_or a b < 2 ^ k
bit_or-lt zero zero zero h j = omega arith
bit_or-lt zero zero (suc b) h j = absurd (omega arith)
bit_or-lt zero (suc a) b h j = absurd (omega arith)
bit_or-lt (suc k) a b h j = omega (
  arith,
  pow-succ' 2 k,
  or_halves a b,
  bit_or-lt k (a / 2) (b / 2) (omega (arith, pow-succ' 2 k)) (omega (arith, pow-succ' 2 k)),
)

pub bit_and-le : (n a b : ℕ) → a ≤ n → bit_and a b ≤ a
bit_and-le n zero b h = omega (arith, bit_and-bitwise 0 b)
bit_and-le zero (suc a) b h = absurd (omega arith)
bit_and-le (suc n) (suc a) b h =
    omega (arith, and_halves (suc a) b, bit_and-le n (suc a / 2) (b / 2) (omega arith))

pub bit_xor-lt : (k a b : ℕ) → a < 2 ^ k → b < 2 ^ k → bit_xor a b < 2 ^ k
bit_xor-lt zero zero zero h j = omega arith
bit_xor-lt zero zero (suc b) h j = absurd (omega arith)
bit_xor-lt zero (suc a) b h j = absurd (omega arith)
bit_xor-lt (suc k) a b h j = omega (
  arith,
  pow-succ' 2 k,
  xor_halves a b,
  bit_xor-lt k (a / 2) (b / 2) (omega (arith, pow-succ' 2 k)) (omega (arith, pow-succ' 2 k)),
)

or_zero : (a n : ℕ) → a ≤ n → bit_or a 0 ≡ a
or_zero zero n le = refl
or_zero (suc a) zero le = absurd (omega arith)
or_zero (suc a) (suc n) le = omega (or_halves (suc a) 0, arith, or_zero (suc a / 2) n (omega arith))

-- `(q << k) | r` is a sum when `r` fits `k` bits.
pub bit_or_sum : (k q r : ℕ) → r < 2 ^ k → bit_or (q * 2 ^ k) r ≡ q * 2 ^ k + r
bit_or_sum zero q zero h = ground (arith, or_zero q q)
bit_or_sum zero q (suc r) h = absurd (omega arith)
bit_or_sum (suc k) q r h = ground (
  arith,
  or_halves (q * 2 ^ suc k) r,
  pow-succ' 2 k,
  ap (λ (t : ℕ). q * t) (pow-succ' 2 k),
  bit_or_sum k q (r / 2),
)
