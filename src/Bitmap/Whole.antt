-- ===== src/Bitmap/Whole.antt =====
-- Operations on whole bitmaps: making, cutting, copying and combining them.
use bget.Common.{
  ℕ, zero, suc, ◌+◌, ◌-◌, ◌/◌, ◌%◌, ◌<◌, bit_and, bit_xor, Bool, false, not, ◌&&◌, if◌then◌else◌,
  List, [], ◌∷◌, some, none, length, get_or, replicate, ◌≡◌, refl, ◌≢◌, arith, ap, All,
  length-replicate, get_or-replicate,
}
use bget.Common.Bits.{
  bit_at, bit_at-bit_and, bit_at-bit_xor, bit_at-zero, bit_at-lt, bit_and-le, bit_xor-lt,
}
use bget.Common.Go.{ok, panic, Returns}
use bget.Bitmap.{Bitmap, new_empty_bitmap, combine_into, not_bitmap, and_bitmap, xor_bitmap}
use bget.Bitmap.Bit.{bit, IsByte, IsValid, bit_at-255}

-- The slice is no longer than the bits need.
abbrev pub IsTight : Bitmap → Type 0
IsTight b = length b.val ≡ (b.size + 7) / 8

zeros-IsByte : (n : ℕ) → All IsByte (replicate n 0)
zeros-IsByte zero = tt
zeros-IsByte (suc n) = (omega arith, zeros-IsByte n)

abbrev empty : ℕ → Bitmap
empty size = record { val = replicate ((size + 7) / 8) 0; size = size }

new_empty_bitmap-eq : (size : ℕ) → new_empty_bitmap size ≡ empty size
unfolding new_empty_bitmap
new_empty_bitmap-eq zero = refl
new_empty_bitmap-eq (suc n) =
    let e : (suc n - 1) / 8 + 1 ≡ (suc n + 7) / 8 = omega arith in
    ground (arith, ap (λ k. replicate {A = ℕ} k 0) e)

empty-bit : (size q : ℕ) → bit (empty size) q ≡ false
unfolding bit
empty-bit size q = ground (
  arith,
  get_or-replicate {A = ℕ} ((size + 7) / 8) (q / 8) 0,
  ap (λ v. bit_at v (7 - q % 8)) (get_or-replicate {A = ℕ} ((size + 7) / 8) (q / 8) 0),
  bit_at-zero (7 - q % 8),
)

-- NewEmptyBitmap returns a valid and tight bitmap of the given size with every position off.
pub new_empty_bitmap_lem :
    (size q : ℕ)
    → IsValid (new_empty_bitmap size)
      × IsTight (new_empty_bitmap size)
      × ((new_empty_bitmap size).size ≡ size)
      × (bit (new_empty_bitmap size) q ≡ false)
new_empty_bitmap_lem size q = rw new_empty_bitmap-eq (
  record {
    covers = omega (arith, length-replicate {A = ℕ} ((size + 7) / 8) 0);
    all_bytes = zeros-IsByte ((size + 7) / 8);
  },
  length-replicate {A = ℕ} ((size + 7) / 8) 0,
  refl,
  empty-bit size q,
)

-- `op` at each index of two slices of one length.
abbrev pub zip_with : (ℕ → ℕ → ℕ) → List ℕ → List ℕ → List ℕ
zip_with op [] ys = []
zip_with op (x ∷ xs) [] = []
zip_with op (x ∷ xs) (y ∷ ys) = op x y ∷ zip_with op xs ys

combine_into-zip_with :
    (op : ℕ → ℕ → ℕ) (xs ys rs : List ℕ)
    → length xs ≡ length ys
    → length xs ≡ length rs
    → combine_into op xs ys rs ≡ ok (zip_with op xs ys)
combine_into-zip_with op [] ys [] h k = refl
combine_into-zip_with op [] ys (r ∷ rs) h k = absurd (omega arith)
combine_into-zip_with op (x ∷ xs) [] rs h k = absurd (omega arith)
combine_into-zip_with op (x ∷ xs) (y ∷ ys) [] h k = absurd (omega arith)
combine_into-zip_with op (x ∷ xs) (y ∷ ys) (r ∷ rs) h k =
    rw (combine_into-zip_with op xs ys rs (omega arith) (omega arith))

combine_into_panic :
    (op : ℕ → ℕ → ℕ) (xs ys rs : List ℕ) → length rs < length xs → combine_into op xs ys rs ≡ panic
combine_into_panic op [] ys rs h = absurd (omega arith)
combine_into_panic op (x ∷ xs) [] rs h = refl
combine_into_panic op (x ∷ xs) (y ∷ ys) [] h = refl
combine_into_panic op (x ∷ xs) (y ∷ ys) (r ∷ rs) h =
    rw (combine_into_panic op xs ys rs (omega arith))

length-zip_with :
    (op : ℕ → ℕ → ℕ) (xs ys : List ℕ)
    → length xs ≡ length ys
    → length (zip_with op xs ys) ≡ length xs
length-zip_with op [] ys h = refl
length-zip_with op (x ∷ xs) [] h = absurd (omega arith)
length-zip_with op (x ∷ xs) (y ∷ ys) h = ap suc (length-zip_with op xs ys (omega arith))

get_or-zip_with :
    (op : ℕ → ℕ → ℕ) (xs ys : List ℕ) (i : ℕ)
    → length xs ≡ length ys
    → i < length xs
    → get_or (zip_with op xs ys) i 0 ≡ op (get_or xs i 0) (get_or ys i 0)
get_or-zip_with op [] ys i h k = absurd (omega arith)
get_or-zip_with op (x ∷ xs) [] i h k = absurd (omega arith)
get_or-zip_with op (x ∷ xs) (y ∷ ys) zero h k = refl
get_or-zip_with op (x ∷ xs) (y ∷ ys) (suc i) h k =
    get_or-zip_with op xs ys i (omega arith) (omega arith)

zip_with-IsByte :
    (op : ℕ → ℕ → ℕ) (xs ys : List ℕ)
    → ((x y : ℕ) → IsByte x → IsByte y → IsByte (op x y))
    → All IsByte xs
    → All IsByte ys
    → All IsByte (zip_with op xs ys)
zip_with-IsByte op [] ys f h k = tt
zip_with-IsByte op (x ∷ xs) [] f h k = tt
zip_with-IsByte op (x ∷ xs) (y ∷ ys) f h k = (f x y h.0 k.0, zip_with-IsByte op xs ys f h.1 k.1)

length-new_empty_bitmap : (size : ℕ) → length (new_empty_bitmap size).val ≡ (size + 7) / 8
length-new_empty_bitmap size = rw new_empty_bitmap-eq (length-replicate {A = ℕ} ((size + 7) / 8) 0)

abbrev zipped : (ℕ → ℕ → ℕ) → Bitmap → Bitmap → Bitmap
zipped op b o = record { val = zip_with op b.val o.val; size = b.size }

zipped-IsValid :
    (op : ℕ → ℕ → ℕ) (b o : Bitmap)
    → ((x y : ℕ) → IsByte x → IsByte y → IsByte (op x y))
    → IsValid b
    → IsValid o
    → length b.val ≡ length o.val
    → IsValid (zipped op b o)
zipped-IsValid op b o f v w h = record {
  covers = omega (arith, v.covers, length-zip_with op b.val o.val h);
  all_bytes = zip_with-IsByte op b.val o.val f v.all_bytes w.all_bytes;
}

-- The result of a combination: valid, tight, of the same size, and `f` says its positions.
pub record IsCombined (b : Bitmap) (f : ℕ → Bool) (r : Bitmap) : Type 0 where
  pub valid : IsValid r
  pub tight : IsTight r
  pub same_size : r.size ≡ b.size
  pub at : (q : ℕ) → q < b.size → bit r q ≡ f q

module _ (b : Bitmap) (v : IsValid b) (t : IsTight b) where
  not_bitmap-eq : not_bitmap b ≡ ok (zipped (λ x y. bit_xor 255 x) b b)
  unfolding not_bitmap
  not_bitmap-eq = rw (
      combine_into-zip_with (λ x y. bit_xor 255 x) b.val b.val (new_empty_bitmap b.size).val refl
        (omega (arith, length-new_empty_bitmap b.size)))

  not-IsCombined : IsCombined b (λ q. not (bit b q)) (zipped (λ x y. bit_xor 255 x) b b)
  unfolding bit
  not-IsCombined = record {
    valid =
        zipped-IsValid (λ x y. bit_xor 255 x) b b (λ x y h k. bit_xor-lt 8 255 x (omega arith) h) v
          v refl;
    tight = omega (arith, length-zip_with (λ x y. bit_xor 255 x) b.val b.val refl);
    same_size = refl;
    at = λ q h. ground (
      arith,
      get_or-zip_with (λ x y. bit_xor 255 x) b.val b.val (q / 8) refl (omega (arith, v.covers)),
      bit_at-bit_xor (7 - q % 8) 255 (get_or b.val (q / 8) 0),
      bit_at-255 (7 - q % 8) (omega arith),
      bit_at-lt (get_or b.val (q / 8) 0) (7 - q % 8),
    );
  }

  -- On a valid and tight bitmap, Not returns, without panic, a valid and tight bitmap of the same size
  -- that has a position below the size on exactly when it was off.
  pub not_bitmap_lem : Returns (not_bitmap b) (IsCombined b (λ q. not (bit b q)))
  not_bitmap_lem = rw not_bitmap-eq not-IsCombined

module _ (b o : Bitmap) (v : IsValid b) (w : IsValid o) (t : IsTight b) (u : IsTight o)
    (same : b.size ≡ o.size) where
  same_length : length b.val ≡ length o.val
  same_length = omega arith

  and_bitmap-eq : and_bitmap b o ≡ ok (some (zipped bit_and b o))
  unfolding and_bitmap
  and_bitmap-eq = ground (
    arith,
    combine_into-zip_with bit_and b.val o.val (new_empty_bitmap b.size).val same_length,
    length-new_empty_bitmap b.size,
  )

  xor_bitmap-eq : xor_bitmap b o ≡ ok (some (zipped bit_xor b o))
  unfolding xor_bitmap
  xor_bitmap-eq = ground (
    arith,
    combine_into-zip_with bit_xor b.val o.val (new_empty_bitmap b.size).val same_length,
    length-new_empty_bitmap b.size,
  )

  pub and-IsCombined : IsCombined b (λ q. bit b q && bit o q) (zipped bit_and b o)
  unfolding bit
  and-IsCombined = record {
    valid =
        zipped-IsValid bit_and b o (λ x y h k. omega (arith, bit_and-le x x y (omega arith))) v w
          same_length;
    tight = omega (arith, length-zip_with bit_and b.val o.val same_length);
    same_size = refl;
    at = λ q h. ground (
      arith,
      get_or-zip_with bit_and b.val o.val (q / 8) same_length (omega (arith, v.covers)),
      bit_at-bit_and (7 - q % 8) (get_or b.val (q / 8) 0) (get_or o.val (q / 8) 0),
      bit_at-lt (get_or b.val (q / 8) 0) (7 - q % 8),
      bit_at-lt (get_or o.val (q / 8) 0) (7 - q % 8),
    );
  }

  xor-IsCombined :
      IsCombined b (λ q. if bit b q then not (bit o q) else bit o q) (zipped bit_xor b o)
  unfolding bit
  xor-IsCombined = record {
    valid = zipped-IsValid bit_xor b o (λ x y h k. bit_xor-lt 8 x y h k) v w same_length;
    tight = omega (arith, length-zip_with bit_xor b.val o.val same_length);
    same_size = refl;
    at = λ q h. ground (
      arith,
      get_or-zip_with bit_xor b.val o.val (q / 8) same_length (omega (arith, v.covers)),
      bit_at-bit_xor (7 - q % 8) (get_or b.val (q / 8) 0) (get_or o.val (q / 8) 0),
      bit_at-lt (get_or b.val (q / 8) 0) (7 - q % 8),
      bit_at-lt (get_or o.val (q / 8) 0) (7 - q % 8),
    );
  }

  -- On two valid and tight bitmaps of one size, And and XOR return, without panic, a valid and tight
  -- bitmap of that size whose positions below the size are the conjunction and the exclusive or.
  pub combine_lem :
      (r : Bitmap) × (s : Bitmap) × (and_bitmap b o ≡ ok (some r))
      × (xor_bitmap b o ≡ ok (some s))
      × IsCombined b (λ q. bit b q && bit o q) r
      × IsCombined b (λ q. if bit b q then not (bit o q) else bit o q) s
  combine_lem = (
    zipped bit_and b o,
    zipped bit_xor b o,
    and_bitmap-eq,
    xor_bitmap-eq,
    and-IsCombined,
    xor-IsCombined,
  )

-- On bitmaps of different sizes And and XOR return nil.
pub combine_none :
    (b o : Bitmap) → b.size ≢ o.size → (and_bitmap b o ≡ ok none) × (xor_bitmap b o ≡ ok none)
unfolding and_bitmap xor_bitmap
combine_none b o h = (ground arith, ground arith)

-- Where the slice of a bitmap is longer than its size needs, Not panics with an index out of range, and
-- so do And and XOR with any bitmap of the same size.
pub slack_panics :
    (b o : Bitmap)
    → (b.size + 7) / 8 < length b.val
    → o.size ≡ b.size
    → (not_bitmap b ≡ panic) × (and_bitmap b o ≡ panic) × (xor_bitmap b o ≡ panic)
unfolding not_bitmap and_bitmap xor_bitmap
slack_panics b o h e =
    let short : length (new_empty_bitmap b.size).val < length b.val =
      omega (arith, length-new_empty_bitmap b.size) in
    (
      ground (
        arith,
        combine_into_panic (λ x y. bit_xor 255 x) b.val b.val (new_empty_bitmap b.size).val short,
      ),
      ground (arith, combine_into_panic bit_and b.val o.val (new_empty_bitmap b.size).val short),
      ground (arith, combine_into_panic bit_xor b.val o.val (new_empty_bitmap b.size).val short),
    )
