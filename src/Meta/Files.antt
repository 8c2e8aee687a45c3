-- ===== src/Meta/Files.antt =====
-- Where the files of a torrent begin, and what choosing one changes.
use bget.Common.{
  ℕ, zero, suc, ◌+◌, ◌*◌, ◌/◌, ◌%◌, ◌≤◌, ◌<◌, false, ◌==◌, if◌then◌else◌, List, [], ◌∷◌, ◌≡◌, refl,
  arith,
}
use bget.Common.Go.{Result, ok, err, panic, ◌>>=◌, Returns}
use bget.Filesystem.Layout.{FileInfo}
use bget.Meta.{Place, place_files, file_list, FileError}
use native.Mathlib.Nat.{div-add-mod, mod-lt}

-- `k` is the number of pieces of the length `pl` that `l` bytes take up, the last one in part.
abbrev pub TakesUp : ℕ → ℕ → ℕ → Type 0
TakesUp pl l k = (l ≤ pl * k) × (pl * k < l + pl)

-- Each file begins behind the pieces of those before it.
abbrev pub Placed : ℕ → ℕ → List FileInfo → List Place → Type 0
Placed pl begin [] [] = Unit
Placed pl begin (f ∷ fs) (p ∷ ps) =
    (p.begin ≡ begin)
    × (p.length ≡ f.length)
    × ((k : ℕ) × TakesUp pl f.length k × Placed pl (begin + k) fs ps)
Placed pl begin _ _ = ⊥

-- The count of the loop: one more than the full pieces where something is left over.
positive : (pl : ℕ) → 0 < pl → pl == 0 ≡ false
positive pl h = ground arith

take_up : (pl q r l : ℕ) → pl * q + r ≡ l → r < pl → TakesUp pl l (if r == 0 then q else q + 1)
take_up pl q zero l e h = (omega arith, omega arith)
take_up pl q (suc r) l e h = rw (positive (suc r) (omega arith)) (omega arith, omega arith)

abbrev count : ℕ → ℕ → ℕ
count pl l = if l % pl == 0 then l / pl else l / pl + 1

count-TakesUp : (pl l : ℕ) → 0 < pl → TakesUp pl l (count pl l)
count-TakesUp pl l h = take_up pl (l / pl) (l % pl) l (div-add-mod l pl) (mod-lt l h)

next_count :
    (pl l begin : ℕ)
    → (if l % pl == 0 then begin + l / pl else begin + l / pl + 1) ≡ begin + count pl l
next_count pl l begin = ground arith

Placed-cons :
    (pl begin offset : ℕ) (f : FileInfo) (fs : List FileInfo) (k : ℕ)
    (r : Result FileError (List Place))
    → TakesUp pl f.length k
    → Returns r (Placed pl (begin + k) fs)
    → Returns
        (r >>= λ rest.
          ok (record { path = f.path; length = f.length; begin = begin; offset = offset } ∷ rest))
        (Placed pl begin (f ∷ fs))
Placed-cons pl begin offset f fs k (ok ps) t h = (refl, refl, (k, t, h))
Placed-cons pl begin offset f fs k (err e) t h = absurd h
Placed-cons pl begin offset f fs k panic t h = absurd h

place_files_lem :
    (pl : ℕ) (fs : List FileInfo) (begin offset : ℕ)
    → 0 < pl
    → Returns (place_files pl fs begin offset) (Placed pl begin fs)
unfolding place_files
place_files_lem pl [] begin offset h = tt
place_files_lem pl (f ∷ fs) begin offset h =
    rw (positive pl h, next_count pl f.length begin)
      (Placed-cons pl begin offset f fs (count pl f.length)
        (place_files pl fs (begin + count pl f.length) (f.length % pl))
        (count-TakesUp pl f.length h)
        (place_files_lem pl fs (begin + count pl f.length) (f.length % pl) h))

-- FileList gives one entry for each file, with its length, and as its first piece the number of
-- pieces that the files before it take up, each rounded up.
pub file_list_lem :
    (pl : ℕ) (fs : List FileInfo) → 0 < pl → Returns (file_list pl fs) (Placed pl 0 fs)
unfolding file_list
file_list_lem pl fs h = place_files_lem pl fs 0 0 h
