-- ===== src/Filesystem/Appends.antt =====
-- The abstract store of a file's pieces: contents that only grow.
use bget.Common.{
  ℕ, zero, suc, ◌+◌, ◌<◌, true, false, not, ltb, ◌==◌, if◌then◌else◌, List, [], ◌∷◌, ◌++◌, some,
  length, get_elem?, get_or, set, map, ◌≡◌, refl, arith, ap, ge→ltb,
}
use bget.Common.Go.{Result, ok, err, panic}
use bget.Filesystem.Piece.{Bytes, Piece, buffered, piece_check}
use bget.Filesystem.Layout.{File}
use bget.Filesystem.Save.{FsError, invalid_index, wrong_order, piece}

-- A call of SavePiece.
pub record Block : Type 0 where
  pub index : ℕ
  pub begin : ℕ
  pub bytes : Bytes

-- The abstract store: what has been given for each piece. A block is taken where it continues its
-- piece; there is no end to a piece.
abbrev pub append : List Bytes → Block → List Bytes × Result FsError ℕ
append s b =
    let old = get_or s b.index [] in
    if ltb (length s) b.index
    then (s, err invalid_index)
    else if b.index == length s
    then (s, panic)
    else if not (length old == b.begin)
    then (s, err wrong_order)
    else if length (old ++ b.bytes) == 0
    then (s, err (piece piece_check))
    else (set s b.index (old ++ b.bytes), ok (length b.bytes))

-- A row of calls with what each of them returns, up to a panic.
module _ {S : Type 0} (step : S → Block → S × Result FsError ℕ) where
  abbrev pub later :
      (S → S × List (Result FsError ℕ)) → S × Result FsError ℕ → S × List (Result FsError ℕ)
  later rest (s, panic) = (s, panic ∷ [])
  later rest (s, r) = let (t, rs) = rest s in (t, r ∷ rs)

  abbrev pub run : List Block → S → S × List (Result FsError ℕ)
  run [] s = (s, [])
  run (b ∷ bs) s = later (run bs) (step s b)

abbrev pub contents : Piece → Bytes
contents p = buffered (λ b. b) [] p.buffer

pub map-set :
    (ps : List Piece) (i : ℕ) (p : Piece)
    → map contents (set ps i p) ≡ set (map contents ps) i (contents p)
map-set [] i p = refl
map-set (q ∷ ps) zero p = refl
map-set (q ∷ ps) (suc i) p = ap (◌∷◌ (contents q)) (map-set ps i p)

pub length-map : (ps : List Piece) → length (map contents ps) ≡ length ps
length-map [] = refl
length-map (p ∷ ps) = ap suc (length-map ps)

pub set-get_or :
    (ps : List Piece) (i : ℕ) (p : Piece)
    → get_elem? ps i ≡ some p
    → (get_or (map contents ps) i [] ≡ contents p)
      × (set (map contents ps) i (contents p) ≡ map contents ps)
set-get_or [] i p e = cc
set-get_or (q ∷ ps) zero p e = ground arith
set-get_or (q ∷ ps) (suc i) p e =
    let (got, same) = set-get_or ps i p e in (got, ap (◌∷◌ (contents q)) same)

-- The branches of `append` behind the tests of the index.
abbrev pub offer : List Bytes → Bytes → Block → List Bytes × Result FsError ℕ
offer s old b =
    if not (length old == b.begin)
    then (s, err wrong_order)
    else if length (old ++ b.bytes) == 0
    then (s, err (piece piece_check))
    else (set s b.index (old ++ b.bytes), ok (length b.bytes))

pub append_inside :
    (s : List Bytes) (b : Block) → b.index < length s → append s b ≡ offer s (get_or s b.index []) b
append_inside s b lt = rw (ge→ltb (length s) b.index (omega arith), other b.index (length s) lt)
  where
    other : (i n : ℕ) → i < n → (i == n) ≡ false
    other i n h = ground arith

abbrev pub filled : Piece → Bytes → Piece
filled p b = record p { buffer = some b }

abbrev pub with_block : File → Block → Piece → Bytes → File
with_block f b p new = record f {
  pieces = set f.pieces b.index (filled p new);
  downloaded = f.downloaded + length b.bytes;
}

pub empty_left : (x y : Bytes) → (length (x ++ y) == 0) ≡ true → x ≡ []
empty_left [] y e = refl
empty_left (a ∷ x) y e = ground arith
