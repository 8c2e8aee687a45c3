-- ===== src/Filesystem/Refines.antt =====
-- The file system of one file, as it is made from a torrent, refines the abstract store.
use bget.Common.{
  ℕ, false, ◌==◌, List, [], ◌∷◌, Option, some, length, ◌≡◌, refl, arith, All, ap, sym,
}
use bget.Common.Bytes.{equal}
use bget.Common.Go.{Result, ok, err, panic}
use mathlib.Core.Path.{subst}
use bget.Filesystem.Piece.{Bytes, Piece}
use bget.Filesystem.Layout.{File, FileInfo, FileSystem, new_file_system}
use bget.Filesystem.Save.{Os, FsError}
use bget.Filesystem.Pieces.{IsUnset, IsNew, StartsAtZero, new_file_system_begin}
use bget.Filesystem.Appends.{Block, append, later, run}
use bget.Filesystem.Appending.{view, Fresh, Matches, with_file, save_piece-Matches}
use bget.Filesystem.Store.{Disk, save_piece}

module _ (os : Os) (sha1 : Bytes → Bytes) where
  open os use {World}

  -- SavePiece on a block.
  abbrev pub save_one : Disk os sha1 [] → Block → Disk os sha1 [] × Result FsError ℕ
  save_one d b = save_piece os sha1 [] d b.index b.begin b.bytes

  pub save_one-Matches :
      (d : Disk os sha1 []) (b : Block)
      → Fresh os sha1 d.fs.files
      → Matches os sha1 (append (view os sha1 d) b) (save_one d b)
  save_one-Matches d b h = one d.fs.files refl h
    where
      one :
          (files : List File)
          → d.fs.files ≡ files
          → Fresh os sha1 files
          → Matches os sha1 (append (view os sha1 d) b) (save_one d b)
      one [] e h = absurd h
      one (f ∷ []) e h =
          let same : with_file os sha1 d.world d.fs f ≡ d =
            λ i. record { world = d.world; fs = record d.fs { files = sym e i } } in
          subst (λ d. Matches os sha1 (append (view os sha1 d) b) (save_one d b)) same
            (save_piece-Matches os sha1 d.world d.fs f b h)
      one (f ∷ g ∷ fs) e h = absurd h

  abbrev Shows :
      List Bytes × List (Result FsError ℕ) → Disk os sha1 [] × List (Result FsError ℕ) → Type 0
  Shows (s, es) (d, rs) = (view os sha1 d ≡ s) × (rs ≡ es)

  later-Shows :
      (bs : List Block)
      → ((d : Disk os sha1 [])
          → Fresh os sha1 d.fs.files
          → Shows (run append bs (view os sha1 d)) (run save_one bs d))
      → (r : Disk os sha1 [] × Result FsError ℕ) (s : List Bytes × Result FsError ℕ)
      → Matches os sha1 s r
      → Shows (later append (run append bs) s) (later save_one (run save_one bs) r)
  later-Shows bs ih (d, ok l) s (v, e, fr) =
      let (shown, results) = ih d fr in rw (sym v, sym e) (shown, ap (◌∷◌ (ok l)) results)
  later-Shows bs ih (d, err x) s (v, e, fr) =
      let (shown, results) = ih d fr in rw (sym v, sym e) (shown, ap (◌∷◌ (err x)) results)
  later-Shows bs ih (d, panic) s (v, e, fr) = rw (sym v, sym e) (refl, refl)

  -- For any operating system and hash function, and for every row of calls of SavePiece up to a panic: a
  -- file system of one file that begins at the first piece, has a name and has pieces as newPieces makes
  -- them (whose hash is not that of no bytes) returns what the abstract store returns, and its pieces
  -- hold what the store holds.
  pub save_piece-append :
      (bs : List Block) (d : Disk os sha1 [])
      → Fresh os sha1 d.fs.files
      → (view os sha1 (run save_one bs d).0 ≡ (run append bs (view os sha1 d)).0)
        × ((run save_one bs d).1 ≡ (run append bs (view os sha1 d)).1)
  save_piece-append [] d h = (refl, refl)
  save_piece-append (b ∷ bs) d h =
      later-Shows bs (save_piece-append bs) (save_one d b) (append (view os sha1 d) b)
        (save_one-Matches d b h)

  -- The files have names, and no piece of them has the hash of no bytes.
  abbrev pub Named : File → Type 0
  Named f =
      ((length f.path == 0) ≡ false) × All (λ (p : Piece). equal (sha1 []) p.hash ≡ false) f.pieces

  both-IsUnset :
      (ps : List Piece)
      → All IsNew ps
      → All (λ (p : Piece). equal (sha1 []) p.hash ≡ false) ps
      → All (IsUnset sha1 []) ps
  both-IsUnset [] n h = tt
  both-IsUnset (p ∷ ps) n h = ((n.0.0, n.0.1, h.0), both-IsUnset ps n.1 h.1)

  made-Fresh :
      (files : List File)
      → All StartsAtZero files
      → length files ≡ 1
      → All Named files
      → Fresh os sha1 files
  made-Fresh [] s e n = absurd (omega arith)
  made-Fresh (f ∷ []) s e n = (s.0.0, n.0.0, both-IsUnset f.pieces s.0.1 n.0.1)
  made-Fresh (f ∷ g ∷ fs) s e n = absurd (omega arith)

  -- What NewFileSystem makes of a torrent of one file with a name, none of whose pieces has the hash of no
  -- bytes, refines the abstract store.
  pub new_file_system-Fresh :
      (abs : Bytes → Option Bytes) (info : FileInfo) (pieces : Bytes) (pl : ℕ) (path : Bytes)
      (fs : FileSystem)
      → new_file_system abs (info ∷ []) pieces pl path ≡ ok (some fs)
      → All Named fs.files
      → Fresh os sha1 fs.files
  new_file_system-Fresh abs info pieces pl path fs e named =
      let (begin, one) = new_file_system_begin abs (info ∷ []) pieces pl path fs e in
      made-Fresh fs.files begin one named
