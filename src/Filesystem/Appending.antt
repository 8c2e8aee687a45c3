-- ===== src/Filesystem/Appending.antt =====
-- One call of SavePiece over a file system of one file with new pieces, and the abstract store.
use bget.Common.{
  ℕ, zero, suc, ◌+◌, ◌-◌, ◌<◌, true, false, ltb, leb, ◌==◌, if◌then◌else◌, List, [], ◌∷◌, ◌++◌,
  Option, none, some, length, get_elem?, set, map, ◌≡◌, refl, arith, All, ap, inl, inr, Bool-cases,
  ◌∙◌, sym, length-set, get_elem?-none,
}
use bget.Common.Go.{Result, ok, err, panic}
use bget.Filesystem.Piece.{Bytes, Piece, check, write, piece_check}
use bget.Filesystem.Layout.{File, FileSystem, is_finish, place, search}
use bget.Filesystem.Save.{Os, FsError, Saving, invalid_index, save}
use bget.Filesystem.Pieces.{IsUnset, no_check}
use bget.Filesystem.Quiet.{Alike, All-get, Stays, save-Stays}
use bget.Filesystem.Appends.{
  Block, append, contents, map-set, length-map, set-get_or, offer, append_inside, filled,
  with_block, empty_left,
}
use bget.Filesystem.Store.{Disk, save_piece, freed, after_save, count_block, save_block}

module _ (os : Os) (sha1 : Bytes → Bytes) where
  open os use {World}

  -- What the abstract store shows of a disk: the contents of the pieces, those without a buffer being
  -- empty.
  abbrev pub view_files : List File → List Bytes
  view_files [] = []
  view_files (f ∷ fs) = map contents f.pieces

  abbrev pub view : Disk os sha1 [] → List Bytes
  view d = view_files d.fs.files

  -- One file that begins at the first piece and has a name, with pieces as `newPieces` makes them.
  abbrev pub Ready : File → Type 0
  Ready f = (f.begin ≡ 0) × ((length f.path == 0) ≡ false) × All (IsUnset sha1 []) f.pieces

  abbrev pub Fresh : List File → Type 0
  Fresh [] = ⊥
  Fresh (f ∷ []) = Ready f
  Fresh (f ∷ g ∷ fs) = ⊥

  abbrev pub Matches : List Bytes × Result FsError ℕ → Disk os sha1 [] × Result FsError ℕ → Type 0
  Matches (s, e) (d, r) = (view d ≡ s) × (r ≡ e) × Fresh d.fs.files

  pub place_one :
      (f : File) (k : ℕ)
      → f.begin ≡ 0
      → place (f ∷ []) k ≡ (if leb k (length f.pieces) then 0 else 1)
  unfolding place search
  place_one f k e = ground arith

  -- The file system `fs` with only the file `f`.
  abbrev pub with_file : World → FileSystem → File → Disk os sha1 []
  with_file w fs f = record { world = w; fs = record fs { files = f ∷ [] } }

  freed-Matches :
      (w : World) (fs : FileSystem) (f : File) (l reached pl : ℕ) (s : List Bytes)
      → Ready f
      → map contents f.pieces ≡ s
      → Matches (s, ok l) (with_file w fs (freed os sha1 [] reached pl f), ok l)
  freed-Matches w fs f l reached pl s r e = elim (Bool-cases (leb pl reached)) [
    | inl full ↦ rw full (e, refl, r)
    | inr part ↦ rw part (e, refl, r)
  ]

  Alike-Ready : {f g : File} → Alike f g → Ready f → Ready g
  Alike-Ready a r = rw (a.begin, a.path, a.pieces) r

  after_save-Matches :
      (w : World) (fs : FileSystem) (old f : File) (begin l : ℕ) (s : List Bytes)
      (r : Saving os × Result FsError (Unit {0}))
      → Stays os f r
      → Ready f
      → map contents f.pieces ≡ s
      → Matches (s, ok l) (after_save os sha1 [] (with_file w fs old) 0 begin l r)
  after_save-Matches w fs old f begin l s (t, ok a) h rf e =
      freed-Matches t.world fs t.file l (begin + l) fs.piece_length s (Alike-Ready h rf)
        (rw (h.pieces) e)
  after_save-Matches w fs old f begin l s (t, err a) h rf e =
      freed-Matches t.world fs t.file l (begin + l) fs.piece_length s (Alike-Ready h rf)
        (rw (h.pieces) e)
  after_save-Matches w fs old f begin l s (t, panic) h rf e = absurd h

  Unset-Whole :
      (ps : List Piece) → All (IsUnset sha1 []) ps → All (λ (p : Piece). p.complete ≡ false) ps
  Unset-Whole [] h = tt
  Unset-Whole (p ∷ ps) h = (h.0.1, Unset-Whole ps h.1)

  -- The block has been taken, and `f` is the file with it.
  count_block-Matches :
      (w : World) (fs : FileSystem) (old f : File) (begin l : ℕ) (s : List Bytes)
      → Ready f
      → 0 < length f.pieces
      → map contents f.pieces ≡ s
      → Matches (s, ok l) (count_block os sha1 [] (with_file w fs old) 0 begin l f)
  count_block-Matches w fs old f begin l s rf lt e = elim (Bool-cases (is_finish f)) [
    | inl end ↦
        rw (end, rf.1)
          (after_save-Matches w fs old f begin l s (save os w f)
            (save-Stays os w f (Unset-Whole f.pieces rf.2, lt)) rf e)
    | inr more ↦ rw more (freed-Matches w fs f l (begin + l) fs.piece_length s rf e)
  ]

  All-set :
      (ps : List Piece) (i : ℕ) (p : Piece)
      → All (IsUnset sha1 []) ps
      → IsUnset sha1 [] p
      → All (IsUnset sha1 []) (set ps i p)
  All-set [] i p h u = tt
  All-set (q ∷ ps) zero p h u = (u, h.1)
  All-set (q ∷ ps) (suc i) p h u = (h.0, All-set ps i p h.1 u)

  write_lem :
      (p : Piece) (b : Bytes)
      → IsUnset sha1 [] p
      → write sha1 [] (record p { buffer = some (contents p) }) b ≡ (
          if length (contents p ++ b) == 0
          then (record p { buffer = none }, err piece_check)
          else (record p { buffer = some (contents p ++ b) }, ok (length b)))
  unfolding write check
  write_lem p b (l, c, h) = ground (arith, no_check sha1 [] p (contents p ++ b) l h)

  put-Ready :
      (f : File) (k n : ℕ) (p : Piece)
      → Ready f
      → IsUnset sha1 [] p
      → Ready (record f { pieces = set f.pieces k p; downloaded = n })
  put-Ready f k n p rf u = (rf.0, rf.1, All-set f.pieces k p rf.2 u)

  save_block-Matches :
      (w : World) (fs : FileSystem) (f : File) (p : Piece) (b : Block)
      → Ready f
      → get_elem? f.pieces b.index ≡ some p
      → IsUnset sha1 [] p
      → b.index < length f.pieces
      → Matches
          (offer (map contents f.pieces) (contents p) b)
          (save_block os sha1 [] (with_file w fs f) 0 b.begin b.bytes f b.index (some p))
  save_block-Matches w fs f p b rf e u lt =
      let same = set-get_or f.pieces b.index p e in
      let new = contents p ++ b.bytes in
      let lt' : 0 < length f.pieces = omega arith in
      elim (Bool-cases (length (contents p) == b.begin)) [
        | inr off ↦ rw off (
          map-set f.pieces b.index (record p { buffer = some (contents p) }) ∙ same.1,
          refl,
          put-Ready f b.index f.downloaded _ rf u,
        )
        | inl on ↦ elim (Bool-cases (length new == 0)) [
          | inl nil ↦
              rw (on, write_lem p b.bytes u, nil)
                (
                  map-set f.pieces b.index (record p { buffer = none })
                      ∙ ap (set (map contents f.pieces) b.index)
                          (sym (empty_left (contents p) b.bytes nil))
                      ∙ same.1,
                  refl,
                  put-Ready f b.index f.downloaded (record p { buffer = none }) rf u,
                )
          | inr some_bytes ↦
              rw (on, write_lem p b.bytes u, some_bytes)
                (count_block-Matches w fs f (with_block f b p new) b.begin (length b.bytes) _
                  (put-Ready f b.index (f.downloaded + length b.bytes) (filled p new) rf u)
                  (rw (length-set f.pieces b.index (filled p new)) lt')
                  (map-set f.pieces b.index (filled p new)))
        ]
      ]

  -- SavePiece with the file that the search finds.
  abbrev in_file :
      World
      → FileSystem
      → File
      → Block
      → Option File
      → Option Piece
      → Disk os sha1 [] × Result FsError ℕ
  in_file w fs f b none o = (with_file w fs f, err invalid_index)
  in_file w fs f b (some _) o =
      save_block os sha1 [] (with_file w fs f) 0 b.begin b.bytes f b.index o

  save_piece_one :
      (w : World) (fs : FileSystem) (f : File) (b : Block)
      → f.begin ≡ 0
      → save_piece os sha1 [] (with_file w fs f) b.index b.begin b.bytes
        ≡ in_file w fs f b
            (if leb b.index (length f.pieces) then some f else none)
            (get_elem? f.pieces b.index)
  unfolding save_piece
  save_piece_one w fs f b e =
      let at_zero : b.index - f.begin ≡ b.index = omega arith in
      elim (Bool-cases (leb b.index (length f.pieces))) [
        | inl near ↦ rw (place_one f b.index e, near, at_zero) refl
        | inr far ↦ rw (place_one f b.index e, far) refl
      ]

  pub save_piece-Matches :
      (w : World) (fs : FileSystem) (f : File) (b : Block)
      → Ready f
      → Matches
          (append (map contents f.pieces) b)
          (save_piece os sha1 [] (with_file w fs f) b.index b.begin b.bytes)
  save_piece-Matches w fs f b rf =
      let n = length f.pieces in
      rw (save_piece_one w fs f b rf.0) (elim (Bool-cases (ltb n b.index)) [
        | inl far ↦ rw (length-map f.pieces, far, leb_far n b.index far) (refl, refl, rf)
        | inr near ↦ elim (Bool-cases (b.index == n)) [
          | inl at ↦
              rw
                (
                  length-map f.pieces,
                  near,
                  at,
                  leb_near n b.index near,
                  get_elem?-none f.pieces b.index (ground arith),
                )
                (refl, refl, rf)
          | inr inside ↦
              let lt : b.index < n = ground arith in
              let (p, found, u) = All-get (IsUnset sha1 []) f.pieces b.index rf.2 lt in
              rw
                (
                  append_inside (map contents f.pieces) b (rw (length-map f.pieces) lt),
                  (set-get_or f.pieces b.index p found).0,
                  leb_near n b.index near,
                  found,
                )
                (save_block-Matches w fs f p b rf found u lt)
        ]
      ])
    where
      leb_far : (n k : ℕ) → ltb n k ≡ true → leb k n ≡ false
      leb_far n k h = ground arith

      leb_near : (n k : ℕ) → ltb n k ≡ false → leb k n ≡ true
      leb_near n k h = ground arith
