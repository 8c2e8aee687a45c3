-- ===== src/Bitmap.antt =====
-- common/bitmap/bitmap.go: a bit set on a byte slice, most significant bit first.
-- A `*Bitmap` is a value here, and a method that writes returns the new value.
-- `size` is never negative: callers pass a length or a piece count.
pub mod Bit
pub mod Ops
pub mod Whole
pub mod Copies
use bget.Common.{
  ℕ, zero, suc, ◌+◌, ◌-◌, ◌*◌, ◌/◌, ◌%◌, ◌^◌, bit_and, bit_or, bit_xor, Bool, true, false, not, ltb,
  leb, ◌==◌, if◌then◌else◌, List, [], ◌∷◌, Option, none, some, length, get_elem?, set, take, drop,
  replicate, min, ◌++◌,
}
use bget.Common.Int.{ℤ, pos, negsuc, pos_part, ltb_ℤ}
use bget.Common.Go.{Result, ok, err, panic, ◌>>=◌, index}

pub data Error : Type 0 where
  out_of_range assign_size : Error

pub record Bitmap : Type 0 where
  pub val : List ℕ
  pub size : ℕ

-- The length of the slice that is made for `size` bits; `(size-1)/8` is 0 at size 0, also in Go.
abbrev pub bytes_for : ℕ → ℕ
bytes_for size = (size - 1) / 8 + 1

unfoldable pub new_empty_bitmap : ℕ → Bitmap
new_empty_bitmap size =
    if size == 0
    then record { val = []; size = 0 }
    else record { val = replicate (bytes_for size) 0; size = size }

unfoldable pub new_bitmap : List ℕ → Bitmap
new_bitmap bytes = record { val = bytes; size = length bytes * 8 }

abbrev pub len : Bitmap → ℕ
len b = b.size

-- Go's `copy(dst, src)`.
abbrev pub copy {ℓ} : {A : Type ℓ} → List A → List A → List A
copy [] src = []
copy (d ∷ dst) [] = d ∷ dst
copy (d ∷ dst) (s ∷ src) = s ∷ copy dst src

unfoldable pub truncate : Bitmap → ℕ → Result Error Bitmap
truncate b size =
    if ltb b.size size
    then panic
    else if ltb 0 ((b.size - size) / 8)
    then ok (record { val = copy (replicate (bytes_for size) 0) b.val; size = size })
    else ok (record { val = b.val; size = size })

unfoldable pub assign : Bitmap → Bitmap → Result Error Bitmap
assign b o = if o.size == b.size then ok (record b { val = copy b.val o.val }) else err assign_size

-- `1 << (7 - uint(pos)%8)`
abbrev pub mask : ℕ → ℕ
mask p = 2 ^ (7 - p % 8)

-- `b.val[pos/8] op= …`
unfoldable pub update_byte : (ℕ → ℕ) → Bitmap → ℕ → Result Error Bitmap
update_byte op b p = do
  v ← index (get_elem? b.val (p / 8))
  ok (record b { val = set b.val (p / 8) (op v) })

abbrev pub bit_on : ℕ → ℕ → ℕ
bit_on p v = bit_or v (mask p)

-- `^(1 << …)` on a byte flips all eight digits.
abbrev pub bit_off : ℕ → ℕ → ℕ
bit_off p v = bit_and v (bit_xor 255 (mask p))

unfoldable pub set_bit_on : Bitmap → ℤ → Result Error Bitmap
unfolding update_byte
set_bit_on b (negsuc n) = err out_of_range
set_bit_on b (pos p) = if leb b.size p then err out_of_range else update_byte (bit_on p) b p

unfoldable pub set_bit_off : Bitmap → ℤ → Result Error Bitmap
unfolding update_byte
set_bit_off b (negsuc n) = err out_of_range
set_bit_off b (pos p) = if leb b.size p then err out_of_range else update_byte (bit_off p) b p

-- The loop at `i` with `end - i` rounds left.
unfoldable pub range_on : ℕ → ℕ → Bitmap → Result Error Bitmap
unfolding update_byte
range_on zero i b = ok b
range_on (suc left) i b = do b' ← update_byte (bit_on i) b i; range_on left (i + 1) b'

unfoldable pub set_range_bit_on : Bitmap → ℤ → ℤ → Result Error Bitmap
unfolding range_on
set_range_bit_on b (negsuc n) end = err out_of_range
set_range_bit_on b (pos begin) end =
    if ltb_ℤ (pos b.size) end then err out_of_range else range_on (pos_part end - begin) begin b

unfoldable pub get_bit : Bitmap → ℤ → Result Error Bool
get_bit b (negsuc n) = err out_of_range
get_bit b (pos p) = if leb b.size p then err out_of_range else do
  v ← index (get_elem? b.val (p / 8))
  ok (if bit_and v (mask p) == 0 then false else true)

abbrev pub must {ℓ κ} : {E : Type ℓ} {A : Type κ} → Result E A → Result E A
must (ok a) = ok a
must (err e) = panic
must panic = panic

unfoldable pub must_get_bit : Bitmap → ℤ → Result Error Bool
unfolding get_bit
must_get_bit b p = must (get_bit b p)

unfoldable pub count_from : ℕ → ℕ → ℕ → Bitmap → Result Error ℕ
unfolding must_get_bit
count_from zero i count b = ok count
count_from (suc left) i count b = do
  on ← must_get_bit b (pos i)
  count_from left (i + 1) (if on then count + 1 else count) b

unfoldable pub count_bit_on : Bitmap → ℤ → ℤ → Result Error ℕ
unfolding count_from
count_bit_on b (negsuc n) end = err out_of_range
count_bit_on b (pos begin) end =
    if ltb_ℤ (pos b.size) end then err out_of_range else count_from (pos_part end - begin) begin 0 b

unfoldable pub must_count_bit_on : Bitmap → ℤ → ℤ → Result Error ℕ
unfolding count_bit_on
must_count_bit_on b begin end = must (count_bit_on b begin end)

pub bytes : Bitmap → List ℕ
bytes b = b.val

-- `for i := range xs { r[i] = op(xs[i], ys[i]) }`: an index that `ys` or `r` lacks panics.
abbrev pub combine_into : (ℕ → ℕ → ℕ) → List ℕ → List ℕ → List ℕ → Result Error (List ℕ)
combine_into op [] ys rs = ok rs
combine_into op (x ∷ xs) [] rs = panic
combine_into op (x ∷ xs) (y ∷ ys) [] = panic
combine_into op (x ∷ xs) (y ∷ ys) (r ∷ rs) = do rest ← combine_into op xs ys rs; ok (op x y ∷ rest)

unfoldable pub not_bitmap : Bitmap → Result Error Bitmap
unfolding new_empty_bitmap
not_bitmap b = do
  val ← combine_into (λ x y. bit_xor 255 x) b.val b.val (new_empty_bitmap b.size).val
  ok (record { val = val; size = b.size })

-- `nil` is `none`.
abbrev pub combine : (ℕ → ℕ → ℕ) → Bitmap → Bitmap → Result Error (Option Bitmap)
unfolding new_empty_bitmap
combine op b o =
    if b.size == o.size
    then combine_into op b.val o.val (new_empty_bitmap b.size).val
      >>= (λ val. ok (some (record { val = val; size = b.size })))
    else ok none

unfoldable pub and_bitmap : Bitmap → Bitmap → Result Error (Option Bitmap)
unfolding new_empty_bitmap
and_bitmap = combine bit_and

unfoldable pub xor_bitmap : Bitmap → Bitmap → Result Error (Option Bitmap)
unfolding new_empty_bitmap
xor_bitmap = combine bit_xor
