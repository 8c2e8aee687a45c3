-- ===== src/Filesystem/Pieces.antt =====
-- What becomes of the pieces that NewFileSystem makes.
use bget.Common.{
  ℕ, zero, suc, ◌+◌, ◌-◌, ◌*◌, ◌/◌, ◌%◌, ◌≢◌, Bool, true, false, not, ◌&&◌, ◌==◌, ltb,
  if◌then◌else◌, List, [], ◌∷◌, ◌++◌, Option, none, some, length, take, drop, ◌≡◌, refl, arith, ap,
  All, Bool-cases, inl, inr,
}
use bget.Common.Bytes.{equal, equal_ne}
use bget.Common.Go.{Result, ok, err, panic, ◌>>=◌}
use bget.Filesystem.Piece.{
  Bytes, Piece, buffered, check, write, new_piece, new_pieces, new_pieces_from, hash_size,
}
use bget.Filesystem.Layout.{
  File, FileInfo, add_files, new_file, path_of, piece_count, FileSystem, new_file_system, dir,
}
use mathlib.Core.Path.{subst, subst⁻¹}
use bget.Bitmap.{Error}
use mathlib.Core.Option

module _ (sha1 : Bytes → Bytes) (get_buffer : Bytes) where
  -- The piece after a row of writes, whatever each of them returns.
  abbrev pub write_all : Piece → List Bytes → Piece
  write_all p [] = p
  write_all p (b ∷ bs) = write_all (write sha1 get_buffer p b).0 bs

  -- A piece as it can be: not complete, its length never set, and its hash not that of no bytes.
  abbrev pub IsUnset : Piece → Type 0
  IsUnset p = (p.length ≡ 0) × (p.complete ≡ false) × (equal (sha1 []) p.hash ≡ false)

  -- Only an empty buffer has the length 0, and its hash is the wrong one.
  pub no_check :
      (p : Piece) (b : Bytes)
      → p.length ≡ 0
      → equal (sha1 []) p.hash ≡ false
      → (length b == p.length && equal (sha1 b) p.hash) ≡ false
  no_check p [] l h = ground arith
  no_check p (x ∷ b) l h = ground arith

  write-IsUnset : (p : Piece) (b : Bytes) → IsUnset p → IsUnset (write sha1 get_buffer p b).0
  unfolding write check
  write-IsUnset p b (l, c, h) =
      ground (arith, no_check p (buffered sha1 get_buffer p.buffer ++ b) l h)

  -- No row of writes completes a piece that is made by `newPieces`, whose length is never set, unless
  -- its hash is that of no bytes.
  pub write_never_completes :
      (h : Bytes) (bs : List Bytes) → sha1 [] ≢ h → (write_all (new_piece h) bs).complete ≡ false
  write_never_completes h bs ne =
      let u = all (new_piece h) bs (refl, refl, equal_ne (sha1 []) h ne) in u.1
    where
      all : (p : Piece) (bs : List Bytes) → IsUnset p → IsUnset (write_all p bs)
      all p [] u = u
      all p (b ∷ bs) u = all (write sha1 get_buffer p b).0 bs (write-IsUnset p b u)

-- A piece with nothing in it, whose length is not set.
abbrev pub IsNew : Piece → Type 0
IsNew p = (p.length ≡ 0) × (p.complete ≡ false) × (p.buffer ≡ none)

abbrev pub StartsAtZero : File → Type 0
StartsAtZero f = (f.begin ≡ 0) × All IsNew f.pieces

new_pieces_from-IsNew : (n : ℕ) (hash : Bytes) → All IsNew (new_pieces_from n hash)
unfolding new_pieces_from
new_pieces_from-IsNew zero hash = tt
new_pieces_from-IsNew (suc n) hash =
    ((refl, refl, refl), new_pieces_from-IsNew n (drop hash_size hash))

new_pieces-IsNew : (hash : Bytes) → All IsNew (new_pieces hash)
unfolding new_pieces
new_pieces-IsNew hash = elim (Bool-cases (length hash % hash_size == 0)) [
  | inl whole ↦ rw whole (new_pieces_from-IsNew (length hash / hash_size) hash)
  | inr part ↦ rw part tt
]

-- A loop that gave a list gave a file for each entry, all of which begin at 0 with new pieces.
abbrev pub Begun {ℓ} : {E : Type ℓ} → ℕ → Result E (Option (List File)) → Type 0
Begun n (ok (some fs)) = All StartsAtZero fs × (length fs ≡ n)
Begun n _ = Unit

either : {A : Type 0} (P : A → Type 0) (b : Bool) (x y : A) → P x → P y → P (if b then x else y)
either P true x y p q = p
either P false x y p q = q

given :
    {A : Type 0} (P : A → Type 0) (o : Option Bytes) (x : A) (f : Bytes → A)
    → P x
    → ((p : Bytes) → P (f p))
    → P (elim o [ none ↦ x | some p ↦ f p ])
given P none x f p q = p
given P (some b) x f p q = q b

Begun-cons :
    (pieces : Bytes) (end offset : ℕ) (p : Bytes) (f : FileInfo) (n : ℕ)
    (r : Result Error (Option (List File)))
    → Begun n r
    → Begun (suc n) (r >>= λ rest. ok (Option.map (λ r. new_file 0 pieces end offset p f ∷ r) rest))
Begun-cons pieces end offset p f n (ok (some fs)) h =
    (((refl, new_pieces-IsNew (take (end * 20 - 0) pieces)), h.0), ap suc h.1)
Begun-cons pieces end offset p f n (ok none) h = tt
Begun-cons pieces end offset p f n (err e) h = tt
Begun-cons pieces end offset p f n panic h = tt

add_files-Begun :
    (pieces : Bytes) (pl offset : ℕ) (fs : List FileInfo)
    → Begun (length fs) (add_files pieces pl 0 offset fs)
unfolding add_files
add_files-Begun pieces pl offset [] = (tt, refl)
add_files-Begun pieces pl offset (f ∷ fs) =
    let n = suc (length fs) in
    let end = 0 + piece_count f.length pl in
    let B = Begun n in
    given B (path_of f.path_utf8 f.path) (ok none) _ tt (λ p. either B (pl == 0) panic _ tt (
      either B (ltb (length pieces) (end * 20)) (ok none) _ tt (
        Begun-cons pieces end offset p f (length fs) (add_files pieces pl 0 (f.length % pl) fs)
          (add_files-Begun pieces pl (f.length % pl) fs))))

abbrev files_of : Result Error (Option FileSystem) → Result Error (Option (List File))
files_of (ok none) = ok none
files_of (ok (some fs)) = ok (some fs.files)
files_of (err e) = err e
files_of panic = panic

Begun-map :
    (n : ℕ) (r : Result Error (Option (List File))) (make : List File → FileSystem)
    → ((l : List File) → (make l).files ≡ l)
    → Begun n r
    → Begun n (files_of (r >>= λ fs. ok (Option.map make fs)))
Begun-map n (ok none) make same h = tt
Begun-map n (ok (some l)) make same h =
    subst⁻¹ (λ x. All StartsAtZero x × (length x ≡ n)) (same l) h
Begun-map n (err e) make same h = tt
Begun-map n panic make same h = tt

-- Where NewFileSystem gives a file system, it has a file for each entry of the torrent, and every one of
-- them begins at the first piece and has pieces with no bytes, not complete, and of length 0.
pub new_file_system_begin :
    (abs : Bytes → Option Bytes) (files : List FileInfo) (pieces : Bytes) (pl : ℕ) (path : Bytes)
    (fs : FileSystem)
    → new_file_system abs files pieces pl path ≡ ok (some fs)
    → All StartsAtZero fs.files × (length fs.files ≡ length files)
unfolding new_file_system
new_file_system_begin abs files pieces pl path fs e =
    let B = λ (r : Result Error (Option FileSystem)). Begun (length files) (files_of r) in
    subst B e (
      either B (not (length pieces % 20 == 0)) (ok none) _ tt (
        given B (abs (dir path)) (ok none) _ tt (λ p.
          Begun-map (length files) (add_files pieces pl 0 0 files) _ (λ l. refl)
            (add_files-Begun pieces pl 0 files))))
