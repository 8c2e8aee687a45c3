-- ===== src/Bitmap/Copies.antt =====
-- Truncate and Assign: the operations that copy one slice over another.
use bget.Common.{
  ℕ, zero, suc, ◌-◌, ◌*◌, ◌/◌, ◌%◌, ◌≤◌, ◌<◌, ltb, ◌==◌, List, [], ◌∷◌, length, get_or, replicate,
  ◌≡◌, refl, ◌≢◌, arith, ap, All, length-replicate, Bool-cases, inl, inr, ge→ltb, ==_iff,
}
use bget.Common.Bits.{bit_at}
use bget.Common.Go.{err, panic, Returns}
use bget.Bitmap.{Bitmap, assign_size, bytes_for, copy, truncate, assign}
use bget.Bitmap.Bit.{bit, IsByte, IsValid}

length-copy {ℓ} : {A : Type ℓ} (dst src : List A) → length (copy dst src) ≡ length dst
length-copy [] src = refl
length-copy (d ∷ dst) [] = refl
length-copy (d ∷ dst) (s ∷ src) = ap suc (length-copy dst src)

get_or-copy :
    (dst src : List ℕ) (i : ℕ)
    → i < length dst
    → i < length src
    → get_or (copy dst src) i 0 ≡ get_or src i 0
get_or-copy [] src i h k = absurd (omega arith)
get_or-copy (d ∷ dst) [] i h k = absurd (omega arith)
get_or-copy (d ∷ dst) (s ∷ src) zero h k = refl
get_or-copy (d ∷ dst) (s ∷ src) (suc i) h k = get_or-copy dst src i (omega arith) (omega arith)

copy-IsByte : (dst src : List ℕ) → All IsByte dst → All IsByte src → All IsByte (copy dst src)
copy-IsByte [] src h k = tt
copy-IsByte (d ∷ dst) [] h k = h
copy-IsByte (d ∷ dst) (s ∷ src) h k = (k.0, copy-IsByte dst src h.1 k.1)

zeros-IsByte : (n : ℕ) → All IsByte (replicate n 0)
zeros-IsByte zero = tt
zeros-IsByte (suc n) = (omega arith, zeros-IsByte n)

-- `r` is a valid bitmap of `size` bits, the first ones of `o`.
pub record IsPrefixOf (o : Bitmap) (size : ℕ) (r : Bitmap) : Type 0 where
  pub valid : IsValid r
  pub size_is : r.size ≡ size
  pub at : (q : ℕ) → q < size → bit r q ≡ bit o q

copied-IsPrefixOf :
    (dst : List ℕ) (o : Bitmap) (size : ℕ)
    → All IsByte dst
    → size ≤ length dst * 8
    → IsValid o
    → size ≤ o.size
    → IsPrefixOf o size (record { val = copy dst o.val; size = size })
unfolding bit
copied-IsPrefixOf dst o size h fits v le = record {
  valid = record {
    covers = omega (arith, length-copy dst o.val);
    all_bytes = copy-IsByte dst o.val h v.all_bytes;
  };
  size_is = refl;
  at = λ q k.
      ap (λ x. bit_at x (7 - q % 8) == 1)
        (get_or-copy dst o.val (q / 8) (omega arith) (omega (arith, v.covers)));
}

-- On a valid bitmap and a size that is no larger, Truncate does not panic and leaves a valid bitmap of
-- that size with the same positions on below it.
pub truncate_lem :
    (b : Bitmap) (size : ℕ)
    → IsValid b
    → size ≤ b.size
    → Returns (truncate b size) (IsPrefixOf b size)
unfolding truncate
truncate_lem b size v h = elim (Bool-cases (ltb 0 ((b.size - size) / 8))) [
  | inl cut ↦
      rw (ge→ltb b.size size h, cut)
        (copied-IsPrefixOf (replicate (bytes_for size) 0) b size (zeros-IsByte (bytes_for size))
          (omega (arith, length-replicate {A = ℕ} (bytes_for size) 0)) v h)
  | inr kept ↦
      rw (ge→ltb b.size size h, kept)
        (record {
          valid = record { covers = omega (arith, v.covers); all_bytes = v.all_bytes };
          size_is = refl;
          at = λ q k. unfold bit in refl;
        })
]

-- Truncate to a larger size panics.
pub truncate_panics : (b : Bitmap) (size : ℕ) → b.size < size → truncate b size ≡ panic
unfolding truncate
truncate_panics b size h = ground arith

-- On valid bitmaps, Assign copies every position of the other bitmap if the sizes agree, and otherwise
-- returns errAssignSize.
pub assign_lem :
    (b o : Bitmap)
    → IsValid b
    → IsValid o
    → o.size ≡ b.size
    → Returns (assign b o) (IsPrefixOf o b.size)
unfolding assign
assign_lem b o v w e =
    rw ((==_iff o.size b.size).1 e)
      (copied-IsPrefixOf b.val o b.size v.all_bytes v.covers w (omega arith))

pub assign_error : (b o : Bitmap) → o.size ≢ b.size → assign b o ≡ err assign_size
unfolding assign
assign_error b o h = ground arith
