-- ===== src/Common/Digits.antt =====
-- The digits that a number is written with, from the first to the last.
use Prim.Native.Nat.{ℕ, zero, suc, ◌+◌, ◌-◌, ◌*◌, ◌/◌, ◌%◌, ◌<◌, ◌≤◌}
use mathlib.Core.Path.{◌≡◌, refl, ap, ◌∙◌, subst}
use mathlib.Core.List.{List, [], ◌∷◌, ◌++◌}
use native.Mathlib.Omega.{arith}
use bget.Common.Tests.{ltb, Bool-cases}
use bget.Common.Lists.{All}
use bget.Common.Decimal.{decimal, decimal_small, decimal_snoc}
use mathlib.Core.Logic.{inl, inr}

abbrev pub IsDigit : ℕ → Type 0
IsDigit c = (b'0' ≤ c) × (c ≤ b'9')

-- The number that digits spell behind `m`.
abbrev pub spelled : ℕ → List ℕ → ℕ
spelled m [] = m
spelled m (c ∷ cs) = spelled (m * 10 + (c - b'0')) cs

spelled-snoc :
    (m : ℕ) (cs : List ℕ) (c : ℕ) → spelled m (cs ++ c ∷ []) ≡ spelled m cs * 10 + (c - b'0')
spelled-snoc m [] c = refl
spelled-snoc m (x ∷ cs) c = spelled-snoc (m * 10 + (x - b'0')) cs c

pub le-spelled : (m : ℕ) (cs : List ℕ) → m ≤ spelled m cs
le-spelled m [] = omega arith
le-spelled m (c ∷ cs) = omega (arith, le-spelled (m * 10 + (c - b'0')) cs)

All-snoc : (cs : List ℕ) (c : ℕ) → All IsDigit cs → IsDigit c → All IsDigit (cs ++ c ∷ [])
All-snoc [] c h k = (k, tt)
All-snoc (x ∷ cs) c h k = (h.0, All-snoc cs c h.1 k)

-- A first digit, which is 0 for the number 0 alone, and those behind it.
pub record Digits (n : ℕ) : Type 0 where
  pub first : ℕ
  pub others : List ℕ
  pub written : decimal n ≡ first ∷ others
  pub first-IsDigit : IsDigit first
  pub others-IsDigit : All IsDigit others
  pub first_positive : 0 < n → b'0' < first
  pub value : spelled (first - b'0') others ≡ n
  pub alone : n ≡ 0 → others ≡ []

one_digit : (n : ℕ) → n < 10 → Digits n
one_digit n h = record {
  first = b'0' + n;
  others = [];
  written = decimal_small n h;
  first-IsDigit = omega arith;
  others-IsDigit = tt;
  first_positive = λ p. omega arith;
  value = omega arith;
  alone = λ e. refl;
}

more_digits : (q r : ℕ) → 0 < q → r < 10 → Digits q → Digits (q * 10 + r)
more_digits q r h k d = record {
  first = d.first;
  others = d.others ++ (b'0' + r) ∷ [];
  written = decimal_snoc q r h k ∙ ap (λ t. t ++ (b'0' + r) ∷ []) d.written;
  first-IsDigit = d.first-IsDigit;
  others-IsDigit = All-snoc d.others (b'0' + r) d.others-IsDigit (omega arith);
  first_positive = λ p. d.first_positive h;
  value = spelled-snoc (d.first - b'0') d.others (b'0' + r) ∙ omega (arith, d.value);
  alone = λ e. absurd (omega arith);
}

digits_below : (m n : ℕ) → n < m → Digits n
digits_below zero n h = absurd (omega arith)
digits_below (suc m) n h = elim (Bool-cases (ltb n 10)) [
  | inl small ↦ one_digit n (ground arith)
  | inr large ↦ subst Digits (omega arith) (
      more_digits (n / 10) (n % 10) (ground arith) (omega arith)
        (digits_below m (n / 10) (ground arith)))
]

pub digits_of : (n : ℕ) → Digits n
digits_of n = digits_below (suc n) n (omega arith)
