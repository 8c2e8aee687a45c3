-- ===== src/Examples/Wires.antt =====
-- The theorems on messages and handshakes at concrete calls.
use bget.Common.{
  ◌≢◌, true, false, ◌||◌, if◌then◌else◌, List, [], ◌∷◌, ◌++◌, none, ◌≡◌, refl, arith, length,
  replicate,
}
use bget.Common.Bytes.{equal}
use bget.Common.Go.{ok, err}
use bget.Bitmap.{Bitmap}
use bget.Peer.Wire.{Bytes, bytes_of}
use bget.Peer.Message.{Message, message_bytes, piece, msg_cancel}
use bget.Peer.Receive.{read_message, dispatch, asked}
use bget.Peer.Delivery.{Call, sent}
use bget.Peer.Sending.{Sender}
use bget.Peer.Misframed.{piece_read_as_cancel}
use bget.Peer.Handshake.{
  handshake, recv_handshake, accept, extension, info_hash, all_zero, open_connection, closed,
}
use bget.Peer.Greeting.{recv_handshake_lem, accept_lem}

abbrev address : Bytes
address = b'h' ∷ []

abbrev two_bytes : Bitmap
two_bytes = record { val = 160 ∷ 16 ∷ []; size = 16 }

abbrev first : Call
first = Call.request 1 16384 16384

abbrev second : Call
second = Call.bitfield two_bytes

abbrev before : Sender
before = record { link = record { running = true; closing = false; written = [] }; pending = [] }

abbrev after : Sender
after = record {
  link = record { running = true; closing = false; written = message_bytes (sent first) };
  pending = second ∷ [];
}

abbrev have_all_message : Message
have_all_message = record { length = 1; id = 14; body = [] }

piece_read_as_cancel_example :
    (m : Message) × (read_message (message_bytes (piece 1 0 (7 ∷ 8 ∷ [])) ++ (9 ∷ []))
      ≡ ok (m, 9 ∷ []))
    × (m.body ≡ bytes_of 1 ++ (bytes_of 0 ++ (7 ∷ 8 ∷ [])))
    × (dispatch true address 5 m
        ≡ ok (record { peer_id = address; id = msg_cancel; payload = asked none }))
piece_read_as_cancel_example =
    piece_read_as_cancel true address 5 1 0 (7 ∷ 8 ∷ []) (9 ∷ []) (omega arith) (omega arith)

abbrev tail : Bytes
tail = replicate 9 1

abbrev torrent : Bytes
torrent = replicate 20 3

abbrev other_torrent : Bytes
other_torrent = replicate 20 4

abbrev my_id : Bytes
my_id = replicate 20 65

differs : other_torrent ≢ torrent
differs e = cc

recv_handshake_example :
    (recv_handshake false torrent (handshake torrent my_id ++ [])
      ≡ ok (record { fast_extension = true; id = my_id }))
    × (recv_handshake false other_torrent (handshake torrent my_id ++ []) ≡ err info_hash)
recv_handshake_example = recv_handshake_lem torrent my_id [] refl refl false other_torrent differs

accept_example :
    accept my_id (handshake torrent my_id ++ [])
    ≡ (if all_zero my_id || equal my_id my_id then open_connection torrent extension else closed)
accept_example = accept_lem torrent my_id [] refl refl my_id
