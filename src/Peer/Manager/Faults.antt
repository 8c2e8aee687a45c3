-- ===== src/Peer/Manager/Faults.antt =====
-- Messages of a remote peer that end the manager or the process.
use bget.Common.{ℕ, ◌<◌, false, [], ◌∷◌, ◌≡◌, arith}
use bget.Common.Go.{panic}
use bget.Common.Int.{pos}
use bget.Common.Map.{lookup, string_eq}
use bget.Bitmap.Ops.{out_of_range_lem}
use bget.Peer.Wire.{Bytes}
use bget.Peer.Message.{Request, msg_have}
use bget.Peer.Receive.{index}
use bget.Peer.Manager.{PeerState, Session, Storage}
use bget.Peer.Manager.Requests.{close_peer}
use bget.Peer.Manager.Handlers.{
  handle_have, handle_req, handle_suggest_piece, handle_message, serve, interested,
}

module _ (st : Storage) where
  open st use {Disk}

  -- An index that equals the number of pieces passes the tests of the handlers, which compare with `>`,
  -- and makes them panic: a request; a `have` from a peer that has unchoked us and that we have shown no
  -- interest in; a suggestion or an allowed-fast.
  pub piece_num_panics :
      (now : ℕ) (s : Session Disk) (r : Request)
      → s.m.finish.size ≡ s.m.piece_num
      → s.m.need.size ≡ s.m.piece_num
      → s.p.bitmap.size ≡ s.m.piece_num
      → s.p.is_choke ≡ false
      → interested (lookup s.p.addr s.m.interest) ≡ false
      → r.index ≡ s.m.piece_num
      → (handle_req st s r ≡ panic)
        × (handle_have st now s.m.piece_num s ≡ panic)
        × (handle_suggest_piece st now s.m.piece_num s ≡ panic)
  unfolding handle_req handle_have handle_suggest_piece
  piece_num_panics now s r hf hn hb hc hi e = (
    ground (arith, out_of_range_lem s.m.finish (pos r.index)),
    ground (
      arith,
      out_of_range_lem s.m.need (pos s.m.piece_num),
      out_of_range_lem s.p.bitmap (pos s.m.piece_num),
    ),
    ground (arith, out_of_range_lem s.p.bitmap (pos s.m.piece_num)),
  )

  -- Two messages with an index beyond the pieces make the process panic, while the peer is still
  -- running: the second closes a channel that the first has closed.
  pub bad_index_twice :
      (now start i j : ℕ) (s : Session Disk) (a b : Bytes)
      → s.p.state ≡ PeerState.running
      → s.m.piece_num < i
      → s.m.piece_num < j
      → serve st
          ((now, start, record { peer_id = a; id = msg_have; payload = index i })
            ∷ (now, start, record { peer_id = b; id = msg_have; payload = index j })
            ∷ [])
          s
        ≡ panic
  unfolding serve handle_message handle_have close_peer
  bad_index_twice now start i j s a b r hi hj = ground arith
