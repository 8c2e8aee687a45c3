-- ===== src/Bitmap/Ops.antt =====
-- Each operation of a bitmap against the set of positions, on every branch.
use bget.Common.{
  ℕ, zero, suc, ◌+◌, ◌-◌, ◌*◌, ◌/◌, ◌%◌, ◌^◌, ◌≤◌, ◌<◌, bit_and, Bool, true, false, not, ◌&&◌, ◌||◌,
  ltb, leb, ◌==◌, if◌then◌else◌, length, get_or, ◌≡◌, refl, arith, ◌∙◌, ap, get_elem?_lem,
}
use bget.Common.Bits.{bit_at, bit_and-pow, bit_at-lt}
use bget.Common.Go.{ok, err, panic, Returns, Returns-map}
use bget.Common.Int.{ℤ, pos, negsuc, ltb_ℤ}
use bget.Bitmap.{
  Bitmap, out_of_range, bit_on, bit_off, set_bit_on, set_bit_off, range_on, set_range_bit_on,
  get_bit, must_get_bit, count_from, count_bit_on, must_count_bit_on,
}
use native.Mathlib.Nat.{one-le-pow}
use bget.Bitmap.Bit.{
  bit, IsValid, written, update_byte_lem, written-IsValid, bit_on-IsByte, bit_off-IsByte,
  bit-written_on, bit-written_off,
}

-- `b'` is a valid bitmap of the size of `b`, and holds the positions that `f` says.
pub record Holds (b : Bitmap) (f : ℕ → Bool) (b' : Bitmap) : Type 0 where
  pub valid : IsValid b'
  pub same_size : b'.size ≡ b.size
  pub at : (q : ℕ) → bit b' q ≡ f q

digit_test : (d m : ℕ) → d < 2 → 0 < m → (if d * m == 0 then false else true) ≡ (d == 1)
digit_test zero m h k = ground arith
digit_test (suc zero) m h k = ground arith
digit_test (suc (suc d)) m h k = absurd (omega arith)

byte_test : (k v : ℕ) → (if bit_and v (2 ^ k) == 0 then false else true) ≡ (bit_at v k == 1)
byte_test k v =
    rw bit_and-pow (digit_test (bit_at v k) (2 ^ k) (bit_at-lt v k) (one-le-pow k 2 (omega arith)))

module _ (b : Bitmap) (v : IsValid b) (p : ℕ) (h : p < b.size) where
  in_slice : p / 8 < length b.val
  in_slice = omega (arith, v.covers)

  written_on : Holds b (λ q. (p == q) || bit b q) (written (bit_on p) b p)
  written_on = record {
    valid = written-IsValid (bit_on p) b p (bit_on-IsByte p) v;
    same_size = refl;
    at = λ q. bit-written_on b p q in_slice;
  }

  pub set_bit_on-eq : set_bit_on b (pos p) ≡ ok (written (bit_on p) b p)
  unfolding set_bit_on
  set_bit_on-eq = ground (arith, update_byte_lem (bit_on p) b p in_slice)

  -- On a valid bitmap and a position below its size, SetBitOn returns no error, and the result is a
  -- valid bitmap of the same size that has this position on and every other as before.
  pub set_bit_on_lem : Returns (set_bit_on b (pos p)) (Holds b (λ q. (p == q) || bit b q))
  set_bit_on_lem = rw set_bit_on-eq written_on

  pub set_bit_off-eq : set_bit_off b (pos p) ≡ ok (written (bit_off p) b p)
  unfolding set_bit_off
  set_bit_off-eq = ground (arith, update_byte_lem (bit_off p) b p in_slice)

  -- On a valid bitmap and a position below its size, SetBitOff returns no error, and the result is a
  -- valid bitmap of the same size that has this position off and every other as before.
  pub set_bit_off_lem : Returns (set_bit_off b (pos p)) (Holds b (λ q. not (p == q) && bit b q))
  set_bit_off_lem = rw set_bit_off-eq (record {
    valid = written-IsValid (bit_off p) b p (bit_off-IsByte p) v;
    same_size = refl;
    at = λ q. bit-written_off b p q in_slice;
  })

  get_bit-eq : get_bit b (pos p) ≡ ok (bit b p)
  unfolding get_bit bit
  get_bit-eq = ground (
    arith,
    get_elem?_lem b.val (p / 8) 0 in_slice,
    byte_test (7 - p % 8) (get_or b.val (p / 8) 0),
  )

  -- On a valid bitmap and a position below its size, GetBit and MustGetBit return whether the position
  -- is on, with no error and no panic.
  pub get_bit_lem : (get_bit b (pos p) ≡ ok (bit b p)) × (must_get_bit b (pos p) ≡ ok (bit b p))
  unfolding must_get_bit
  get_bit_lem = (get_bit-eq, rw get_bit-eq)

-- Outside `0 <= pos < size` SetBitOn, SetBitOff and GetBit return errOutOfRange, and MustGetBit panics,
-- whatever the bitmap holds.
pub out_of_range_lem :
    (b : Bitmap) (p : ℤ)
    → (ltb_ℤ p (pos 0) || not (ltb_ℤ p (pos b.size))) ≡ true
    → (set_bit_on b p ≡ err out_of_range)
      × (set_bit_off b p ≡ err out_of_range)
      × (get_bit b p ≡ err out_of_range)
      × (must_get_bit b p ≡ panic)
unfolding set_bit_on set_bit_off must_get_bit
out_of_range_lem b (negsuc n) h = (refl, refl, refl, refl)
out_of_range_lem b (pos p) h = (ground arith, ground arith, ground arith, ground arith)

-- The positions `i <= q < i + left`.
abbrev pub within : ℕ → ℕ → ℕ → Bool
within i left q = leb i q && ltb q (i + left)

range_on_lem :
    (left i : ℕ) (b : Bitmap)
    → IsValid b
    → i + left ≤ b.size
    → Returns (range_on left i b) (Holds b (λ q. within i left q || bit b q))
unfolding range_on
range_on_lem zero i b v h = record { valid = v; same_size = refl; at = λ q. ground arith }
range_on_lem (suc left) i b v h = rw (update_byte_lem (bit_on i) b i (omega (arith, v.covers))) (
    Returns-map (range_on left (i + 1) b₁) (Holds b₁ (λ q. within (i + 1) left q || bit b₁ q))
      (Holds b (λ q. within i (suc left) q || bit b q)) widen
      (range_on_lem left (i + 1) b₁ w.valid (omega arith)))
  where
    b₁ : Bitmap
    b₁ = written (bit_on i) b i

    w : Holds b (λ q. (i == q) || bit b q) b₁
    w = written_on b v i (omega arith)

    widen :
        (b' : Bitmap)
        → Holds b₁ (λ q. within (i + 1) left q || bit b₁ q) b'
        → Holds b (λ q. within i (suc left) q || bit b q) b'
    widen b' k = record {
      valid = k.valid;
      same_size = k.same_size;
      at = λ q. k.at q ∙ ap (λ (t : Bool). within (i + 1) left q || t) (w.at q) ∙ ground arith;
    }

set_range_bit_on-eq :
    (b : Bitmap) (begin end : ℕ)
    → end ≤ b.size
    → set_range_bit_on b (pos begin) (pos end) ≡ range_on (end - begin) begin b
unfolding set_range_bit_on
set_range_bit_on-eq b begin end k = ground arith

-- On a valid bitmap and `0 <= begin <= end <= size`, SetRangeBitOn returns no error, and the result is a
-- valid bitmap of the same size that has the positions from `begin` up to `end` on, without `end`, and
-- every other as before.
pub set_range_bit_on_lem :
    (b : Bitmap) (begin end : ℕ)
    → IsValid b
    → begin ≤ end
    → end ≤ b.size
    → Returns
        (set_range_bit_on b (pos begin) (pos end))
        (Holds b (λ q. (leb begin q && ltb q end) || bit b q))
set_range_bit_on_lem b begin end v h k = rw (set_range_bit_on-eq b begin end k) (
    Returns-map (range_on (end - begin) begin b)
      (Holds b (λ q. within begin (end - begin) q || bit b q))
      (Holds b (λ q. (leb begin q && ltb q end) || bit b q))
      (λ b' r. record { valid = r.valid; same_size = r.same_size; at = λ q. r.at q ∙ ground arith })
      (range_on_lem (end - begin) begin b v (omega arith)))

-- How many of the positions `i <= q < i + left` a set holds.
abbrev pub tally : (ℕ → Bool) → ℕ → ℕ → ℕ
tally f zero i = 0
tally f (suc left) i = (if f i then 1 else 0) + tally f left (i + 1)

count_from_lem :
    (left i count : ℕ) (b : Bitmap)
    → IsValid b
    → i + left ≤ b.size
    → count_from left i count b ≡ ok (count + tally (bit b) left i)
unfolding count_from
count_from_lem zero i count b v h = ap ok (omega arith)
count_from_lem (suc left) i count b v h = ground (
  arith,
  get_bit_lem b v i (omega arith),
  count_from_lem left (i + 1) count b v (omega arith),
  count_from_lem left (i + 1) (count + 1) b v (omega arith),
)

-- On a valid bitmap and `0 <= begin <= end <= size`, CountBitOn and MustCountBitOn return the number of
-- positions that are on from `begin` up to `end`, without `end`.
pub count_bit_on_lem :
    (b : Bitmap) (begin end : ℕ)
    → IsValid b
    → begin ≤ end
    → end ≤ b.size
    → (count_bit_on b (pos begin) (pos end) ≡ ok (tally (bit b) (end - begin) begin))
      × (must_count_bit_on b (pos begin) (pos end) ≡ ok (tally (bit b) (end - begin) begin))
unfolding must_count_bit_on
count_bit_on_lem b begin end v h k = (
  ground (arith, count_from_lem (end - begin) begin 0 b v (omega arith)),
  ground (arith, count_from_lem (end - begin) begin 0 b v (omega arith)),
)
