-- ===== src/Filesystem/Piece.antt =====
-- filesystem/piece.go: the buffer of one piece and its check.
use bget.Common.{
  ℕ, zero, suc, ◌/◌, ◌%◌, Bool, true, false, ◌&&◌, ◌==◌, if◌then◌else◌, List, [], ◌∷◌, ◌++◌, Option,
  none, some, length, take, drop,
}
use bget.Common.Bytes.{equal}
use bget.Common.Go.{Result, ok, err, panic}

abbrev pub Bytes : Type 0
Bytes = List ℕ

pub data PieceError : Type 0 where
  piece_check piece_finish : PieceError

-- meta.HashSize
abbrev pub hash_size : ℕ
hash_size = 20

-- `buffer` is none for a nil *bytes.Buffer, and `has_timer` tells whether `timeout` is set.
pub record Piece : Type 0 where
  pub buffer : Option Bytes
  pub hash : Bytes
  pub length : ℕ
  pub complete : Bool
  pub at_disk : Bool
  pub has_timer : Bool

-- crypto/sha1's `Sum`, and the contents of a buffer from the buffer pool.
module _ (sha1 : Bytes → Bytes) (get_buffer : Bytes) where
  abbrev pub buffered : Option Bytes → Bytes
  buffered none = get_buffer
  buffered (some b) = b

  -- The test of a piece whose buffer holds `b`.
  unfoldable pub check : Piece → Bytes → Bool
  check p b = length b == p.length && equal (sha1 b) p.hash

  -- The piece as the call leaves it, with what it returns. Stopping a timer that is nil panics.
  unfoldable pub write : Piece → Bytes → Piece × Result PieceError ℕ
  unfolding check
  write p block =
      if p.complete
      then (p, err piece_finish)
      else let b = buffered p.buffer ++ block in
        let p' = record p { buffer = some b } in
        if length b == p.length
        then if check p' b
          then (record p' { complete = true }, (if p.has_timer then ok (length block) else panic))
          else (record p' { buffer = none }, err piece_check)
        else (p', ok (length block))

-- `new(piece)` with its hash copied.
abbrev pub new_piece : Bytes → Piece
new_piece h = record {
  buffer = none;
  hash = h;
  length = 0;
  complete = false;
  at_disk = false;
  has_timer = false;
}

-- `n` pieces, the first of them with the hash at the head of `hash`.
unfoldable pub new_pieces_from : ℕ → Bytes → List Piece
new_pieces_from zero hash = []
new_pieces_from (suc n) hash =
    new_piece (take hash_size hash) ∷ new_pieces_from n (drop hash_size hash)

unfoldable pub new_pieces : Bytes → List Piece
unfolding new_pieces_from
new_pieces hash =
    if length hash % hash_size == 0 then new_pieces_from (length hash / hash_size) hash else []
