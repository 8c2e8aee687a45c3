-- ===== src/Peer/Greeting.antt =====
-- The two sides of the handshake agree.
use bget.Common.{
  ◌<◌, ◌≢◌, Bool, true, ◌||◌, if◌then◌else◌, ◌++◌, length, ◌≡◌, sym, ap, ◌∙◌, arith, append_assoc,
}
use bget.Common.Bytes.{equal, equal_refl, equal_ne}
use bget.Common.Go.{ok, err}
use bget.Peer.Wire.{Bytes}
use bget.Peer.Receive.{eof, read_full}
use bget.Peer.Framing.{read_full_left}
use bget.Peer.Handshake.{
  HandshakeMsg, handshake_head, extension, read_handshake, handshake, check_handshake,
  recv_handshake, info_hash, read, all_zero, check_id, open_connection, closed, closed_with, accept,
}

module _ (info id rest : Bytes) (hi : length info ≡ 20) (hd : length id ≡ 20) where
  greeting : HandshakeMsg
  greeting = record { head = handshake_head; reserved = extension; info_hash = info; peer_id = id }

  full : (xs ys : Bytes) → length xs ≡ 20 → read_full 20 (xs ++ ys) ≡ ok (xs, ys)
  full xs ys h = rw (← h) (read_full_left xs ys)

  layout : handshake info id ++ rest ≡ handshake_head ++ (extension ++ (info ++ (id ++ rest)))
  unfolding handshake
  layout = ap (λ (t : Bytes). handshake_head ++ (extension ++ t)) (append_assoc info id rest)

  read_layout :
      read_handshake (handshake_head ++ (extension ++ (info ++ (id ++ rest))))
      ≡ ok (record { head = handshake_head; reserved = extension; info_hash = info; peer_id = id })
  unfolding read_handshake
  read_layout = rw (
    read_full_left handshake_head (extension ++ (info ++ (id ++ rest))),
    read_full_left extension (info ++ (id ++ rest)),
    full info (id ++ rest) hi,
    full id rest hd,
  )

  pub read-handshake :
      read_handshake (handshake info id ++ rest)
      ≡ ok (record { head = handshake_head; reserved = extension; info_hash = info; peer_id = id })
  read-handshake = ap read_handshake layout ∙ read_layout

  head_is : equal handshake_head handshake_head ≡ true
  head_is = equal_refl handshake_head

  -- A peer that connects with `handshake` is answered alike: recvHandshake accepts the answer if it
  -- names the same torrent, takes the id from it and turns the fast extension on; for another torrent
  -- it returns errInfoHash.
  pub recv_handshake_lem :
      (fast : Bool) (want : Bytes)
      → want ≢ info
      → (recv_handshake fast info (handshake info id ++ rest)
          ≡ ok (record { fast_extension = true; id = id }))
        × (recv_handshake fast want (handshake info id ++ rest) ≡ err info_hash)
  unfolding recv_handshake check_handshake
  recv_handshake_lem fast want ne = (
    ground (arith, read-handshake, equal_refl info, head_is),
    ground (arith, read-handshake, equal_ne info want (λ e. ne (sym e)), head_is),
  )

  -- The server accepts such a handshake, with its info hash and its reserved bytes, exactly when the id
  -- is all zeros or the server's own; otherwise it closes the connection and returns no error.
  pub accept_lem :
      (own : Bytes)
      → accept own (handshake info id ++ rest)
        ≡ (if all_zero id || equal own id then open_connection info extension else closed)
  unfolding accept check_id
  accept_lem own = ground (arith, read-handshake, head_is)

-- A connection that ends before the 68 bytes of a handshake makes both sides return the error of the
-- read: recvHandshake to AddAddrPeer, which drops the peer, and Accept to runServer, which panics.
pub handshake_short :
    (fast : Bool) (info own input : Bytes)
    → length input < 20
    → (recv_handshake fast info input ≡ err (read eof)) × (accept own input ≡ closed_with eof)
unfolding recv_handshake accept read_handshake read_full
handshake_short fast info own input h = (ground arith, ground arith)
