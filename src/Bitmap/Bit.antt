-- ===== src/Bitmap/Bit.antt =====
-- The abstract view of a bitmap, a set of positions, and what one write does to it.
use bget.Common.{
  ℕ, zero, suc, ◌-◌, ◌*◌, ◌/◌, ◌%◌, ◌^◌, ◌≤◌, ◌<◌, bit_xor, Bool, true, not, ◌&&◌, ◌||◌, ltb, ◌==◌,
  List, [], ◌∷◌, length, get_or, set, ◌≡◌, refl, arith, All, length-set, get_or-set_self,
  get_or-set_ne, get_elem?_lem, each_below, each_below_lem, ltb→lt, ==_iff,
}
use bget.Common.Bits.{
  bit_at, bit_at-lt, bit_at-bit_and, bit_at-bit_or, bit_at-bit_xor, bit_at-pow, bit_or-lt,
  bit_and-le,
}
use bget.Common.Go.{ok}
use bget.Bitmap.{Bitmap, mask, update_byte, bit_on, bit_off}

-- Position `p` is in the set.
unfoldable pub bit : Bitmap → ℕ → Bool
bit b p = bit_at (get_or b.val (p / 8) 0) (7 - p % 8) == 1

abbrev pub IsByte : ℕ → Type 0
IsByte v = v < 256

-- The bytes are bytes and hold all `size` bits.
pub record IsValid (b : Bitmap) : Type 0 where
  pub covers : b.size ≤ length b.val * 8
  pub all_bytes : All IsByte b.val

pub get_or-IsByte : (xs : List ℕ) (i : ℕ) → All IsByte xs → IsByte (get_or xs i 0)
get_or-IsByte [] i h = omega arith
get_or-IsByte (x ∷ xs) zero h = h.0
get_or-IsByte (x ∷ xs) (suc i) h = get_or-IsByte xs i h.1

pub set-IsByte : (xs : List ℕ) (i v : ℕ) → All IsByte xs → IsByte v → All IsByte (set xs i v)
set-IsByte [] i v h k = tt
set-IsByte (x ∷ xs) zero v h k = (k, h.1)
set-IsByte (x ∷ xs) (suc i) v h k = (h.0, set-IsByte xs i v h.1 k)

-- Every write of one byte, where the byte is there.
abbrev pub written : (ℕ → ℕ) → Bitmap → ℕ → Bitmap
written op b p = record b { val = set b.val (p / 8) (op (get_or b.val (p / 8) 0)) }

pub update_byte_lem :
    (op : ℕ → ℕ) (b : Bitmap) (p : ℕ)
    → p / 8 < length b.val
    → update_byte op b p ≡ ok (written op b p)
unfolding update_byte
update_byte_lem op b p h = rw (get_elem?_lem b.val (p / 8) 0 h)

pub written-IsValid :
    (op : ℕ → ℕ) (b : Bitmap) (p : ℕ)
    → ((v : ℕ) → IsByte v → IsByte (op v))
    → IsValid b
    → IsValid (written op b p)
written-IsValid op b p keep v = record {
  covers = omega (arith, length-set b.val (p / 8) (op (get_or b.val (p / 8) 0)), v.covers);
  all_bytes =
      set-IsByte b.val (p / 8) _ v.all_bytes (keep _ (get_or-IsByte b.val (p / 8) v.all_bytes));
}

pow_table : each_below (λ k. ltb (2 ^ k) 256) 8 ≡ true
unfolding each_below
pow_table = refl

mask-lt : (p : ℕ) → mask p < 256
mask-lt p = ltb→lt _ _ (each_below_lem (λ k. ltb (2 ^ k) 256) 8 (7 - p % 8) (omega arith) pow_table)

pub bit_on-IsByte : (p v : ℕ) → IsByte v → IsByte (bit_on p v)
bit_on-IsByte p v h = bit_or-lt 8 v (mask p) h (mask-lt p)

pub bit_off-IsByte : (p v : ℕ) → IsByte v → IsByte (bit_off p v)
bit_off-IsByte p v h = omega (arith, bit_and-le v v (bit_xor 255 (mask p)) (omega arith))

ones_table : each_below (λ k. bit_at 255 k == 1) 8 ≡ true
unfolding each_below bit_at
ones_table = refl

pub bit_at-255 : (j : ℕ) → j < 8 → bit_at 255 j ≡ 1
bit_at-255 j h = (==_iff _ _).0 (each_below_lem (λ k. bit_at 255 k == 1) 8 j h ones_table)

bit_at-bit_on :
    (p q v : ℕ)
    → p / 8 ≡ q / 8
    → (bit_at (bit_on p v) (7 - q % 8) == 1) ≡ (p == q) || (bit_at v (7 - q % 8) == 1)
bit_at-bit_on p q v e = ground (
  arith,
  bit_at-bit_or (7 - q % 8) v (mask p),
  bit_at-pow (7 - p % 8) (7 - q % 8),
  bit_at-lt v (7 - q % 8),
)

bit_at-bit_off :
    (p q v : ℕ)
    → p / 8 ≡ q / 8
    → (bit_at (bit_off p v) (7 - q % 8) == 1) ≡ not (p == q) && (bit_at v (7 - q % 8) == 1)
bit_at-bit_off p q v e = ground (
  arith,
  bit_at-bit_and (7 - q % 8) v (bit_xor 255 (mask p)),
  bit_at-bit_xor (7 - q % 8) 255 (mask p),
  bit_at-255 (7 - q % 8) (omega arith),
  bit_at-pow (7 - p % 8) (7 - q % 8),
  bit_at-lt v (7 - q % 8),
)

-- One write puts the position in, and moves no other.
pub bit-written_on :
    (b : Bitmap) (p q : ℕ)
    → p / 8 < length b.val
    → bit (written (bit_on p) b p) q ≡ (p == q) || bit b q
unfolding bit
bit-written_on b p q h = ground (
  arith,
  get_or-set_self b.val (p / 8) (bit_on p (get_or b.val (p / 8) 0)) 0 h,
  get_or-set_ne b.val (p / 8) (q / 8) (bit_on p (get_or b.val (p / 8) 0)) 0,
  bit_at-bit_on p q (get_or b.val (p / 8) 0),
)

pub bit-written_off :
    (b : Bitmap) (p q : ℕ)
    → p / 8 < length b.val
    → bit (written (bit_off p) b p) q ≡ not (p == q) && bit b q
unfolding bit
bit-written_off b p q h = ground (
  arith,
  get_or-set_self b.val (p / 8) (bit_off p (get_or b.val (p / 8) 0)) 0 h,
  get_or-set_ne b.val (p / 8) (q / 8) (bit_off p (get_or b.val (p / 8) 0)) 0,
  bit_at-bit_off p q (get_or b.val (p / 8) 0),
)
