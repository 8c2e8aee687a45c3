-- ===== src/Examples/Bitmaps.antt =====
-- The theorems on bitmaps at concrete bitmaps, and a run of the bencode scanner.
use bget.Common.{
  ◌-◌, not, ◌&&◌, ◌||◌, leb, ltb, ◌==◌, if◌then◌else◌, [], ◌∷◌, some, ◌≡◌, refl, arith,
}
use bget.Common.Go.{ok, Returns}
use bget.Common.Int.{pos}
use bget.Bitmap.{
  Bitmap, set_bit_on, set_range_bit_on, count_bit_on, must_count_bit_on, and_bitmap, xor_bitmap,
}
use bget.Bitmap.Bit.{bit, IsValid}
use bget.Bitmap.Ops.{Holds, tally, set_bit_on_lem, set_range_bit_on_lem, count_bit_on_lem}
use bget.Bitmap.Whole.{IsCombined, combine_lem}
use bget.Bencode.Scanner.{fresh, reset}
use bget.Bencode.Valid.{check_from, running}
use bget.Bencode.Rounds.{check_valid_runs_on}

-- Two bitmaps of twelve places in two bytes, and one of them with a byte to spare.
abbrev twelve : Bitmap
twelve = record { val = 160 ∷ 16 ∷ []; size = 12 }

abbrev other_twelve : Bitmap
other_twelve = record { val = 224 ∷ 0 ∷ []; size = 12 }

abbrev with_slack : Bitmap
with_slack = record { val = 160 ∷ 16 ∷ 0 ∷ []; size = 12 }

twelve-IsValid : IsValid twelve
twelve-IsValid = record { covers = omega arith; all_bytes = (omega arith, (omega arith, tt)) }

other_twelve-IsValid : IsValid other_twelve
other_twelve-IsValid = record { covers = omega arith; all_bytes = (omega arith, (omega arith, tt)) }

set_bit_on_example :
    Returns (set_bit_on twelve (pos 3)) (Holds twelve (λ q. (3 == q) || bit twelve q))
set_bit_on_example = set_bit_on_lem twelve twelve-IsValid 3 (omega arith)

set_range_bit_on_example :
    Returns
      (set_range_bit_on twelve (pos 1) (pos 10))
      (Holds twelve (λ q. (leb 1 q && ltb q 10) || bit twelve q))
set_range_bit_on_example =
    set_range_bit_on_lem twelve 1 10 twelve-IsValid (omega arith) (omega arith)

count_bit_on_example :
    (count_bit_on twelve (pos 0) (pos 12) ≡ ok (tally (bit twelve) (12 - 0) 0))
    × (must_count_bit_on twelve (pos 0) (pos 12) ≡ ok (tally (bit twelve) (12 - 0) 0))
count_bit_on_example = count_bit_on_lem twelve 0 12 twelve-IsValid (omega arith) (omega arith)

combine_example :
    (r : Bitmap) × (s : Bitmap) × (and_bitmap twelve other_twelve ≡ ok (some r))
    × (xor_bitmap twelve other_twelve ≡ ok (some s))
    × IsCombined twelve (λ q. bit twelve q && bit other_twelve q) r
    × IsCombined twelve
        (λ q. if bit twelve q then not (bit other_twelve q) else bit other_twelve q)
        s
combine_example = combine_lem twelve other_twelve twelve-IsValid other_twelve-IsValid refl refl refl

check_valid_runs_on_example : check_from 5 (reset fresh) 0 (b'0' ∷ b':' ∷ b' ' ∷ []) ≡ running
check_valid_runs_on_example = check_valid_runs_on 5 b' ' [] refl
