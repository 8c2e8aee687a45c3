-- ===== src/Peer/Manager/Blocks.antt =====
-- The blocks that are asked for one after the other, and what a saved block changes.
use bget.Common.{ℕ, ◌+◌, ◌*◌, ◌≤◌, ◌<◌, [], ◌∷◌, ◌++◌, length, ◌≡◌, arith, append_assoc}
use bget.Common.Go.{ok}
use bget.Common.Int.{ℤ, pos, ◌+ℤ◌, ◌-ℤ◌}
use bget.Common.Decimal.{decimal, decimal_int, decimal_snoc}
use bget.Peer.Message.{Request}
use bget.Peer.Manager.Requests.{next_request, max_request_length}
use bget.Peer.Manager.Handlers.{hash}

abbrev pub at_block : ℕ → ℤ → ℤ → ℕ → Request
at_block i begin length t = record { index = i; begin = begin; length = length; create_at = t }

-- After a block of 16 KiB at `b`, with at least two more in front of the end of the piece and some
-- bytes over, the next request is the 16 KiB behind it.
pub next_request_full :
    (i t piece_length b : ℕ)
    → b + 3 * max_request_length < piece_length
    → next_request piece_length (at_block i (pos b) (pos max_request_length) t)
      ≡ ok (at_block i (pos (b + max_request_length)) (pos max_request_length) t)
unfolding next_request ◌+ℤ◌ ◌-ℤ◌
next_request_full i t piece_length b h = ground arith

-- Nearer to the end of the piece, behind a block of 16 KiB too, the next request stops one block short of it: its end lies 16 KiB
-- before the end of the piece, also where that gives it a length of 0 or less.
pub next_request_short :
    (i t piece_length b : ℕ)
    → b + max_request_length < piece_length
    → piece_length ≤ b + 3 * max_request_length
    → next_request piece_length (at_block i (pos b) (pos max_request_length) t)
      ≡ ok (
          at_block i
            (pos (b + max_request_length))
            (pos piece_length -ℤ pos (b + 2 * max_request_length))
            t)
unfolding next_request ◌+ℤ◌ ◌-ℤ◌
next_request_short i t piece_length b h k = ground arith

-- Two requests with one length have one key in the table of the peers that wait for a block, where the
-- index of the one is that of the other with a digit behind it, and the offset of the other is written
-- as this digit in front of the offset of the one.
pub hash_collision :
    (i d b b' l t : ℕ)
    → 0 < i
    → d < 10
    → decimal b' ≡ (b'0' + d) ∷ decimal b
    → hash (at_block (i * 10 + d) (pos b) (pos l) t) ≡ hash (at_block i (pos b') (pos l) t)
unfolding hash decimal_int
hash_collision i d b b' l t hi hd e =
    rw (
      decimal_snoc i d hi hd,
      e,
      append_assoc (decimal i) ((b'0' + d) ∷ []) (decimal b ++ decimal l),
    )
