-- ===== src/Peer/Misframed.antt =====
-- The sending methods whose bytes do not arrive as what was meant.
use bget.Common.{
  ℕ, ◌+◌, ◌*◌, ◌/◌, ◌%◌, ◌^◌, ◌≤◌, ◌<◌, ◌≢◌, Bool, ltb, if◌then◌else◌, [], ◌∷◌, ◌++◌, none, length,
  take, drop, ◌≡◌, refl, ap, ◌∙◌, arith,
}
use bget.Common.Go.{ok, err}
use bget.Peer.Wire.{Bytes, bytes_of}
use bget.Peer.Message.{
  Message, message_bytes, msg_cancel, msg_port, msg_allowed_fast, piece, listen_port, keep_alive,
  suggest_piece, allowed_fast,
}
use bget.Peer.Receive.{eof, msg_id, read_full, read_message, dispatch, asked}
use bget.Peer.Framing.{body_of, read_message_header, read_message_frame}
use bget.Peer.Delivery.{Call, sent, Fits, dispatch_any_extension, message_bytes-sent}
use bget.Peer.Delivery

-- `piece` sends the block, with at most 16 KiB of data, under the id of a cancel message; unless there
-- are just four bytes of data, the receiver makes of it a cancel message whose request is nil.
pub piece_read_as_cancel :
    (fast : Bool) (addr : Bytes) (now i b : ℕ) (block rest : Bytes)
    → length block ≤ 16 * 1024
    → length block ≢ 4
    → (m : Message) × (read_message (message_bytes (piece i b block) ++ rest) ≡ ok (m, rest))
      × (m.body ≡ bytes_of i ++ (bytes_of b ++ block))
      × (dispatch fast addr now m
          ≡ ok (record { peer_id = addr; id = msg_cancel; payload = asked none }))
unfolding piece message_bytes dispatch
piece_read_as_cancel fast addr now i b block rest h ne = (
  m,
  ap (λ n. read_message (bytes_of n ++ (msg_cancel ∷ (body ++ rest)))) (omega arith)
      ∙ read_message_frame msg_cancel body rest (omega arith),
  refl,
  dispatch_any_extension fast addr now m ∙ ground arith,
)
  where
    body : Bytes
    body = bytes_of i ++ (bytes_of b ++ block)

    m : Message
    m = record { length = length body + 1; id = msg_cancel; body = body }

-- `allowedFast` announces thirteen bytes and sends five: the receiver takes the next eight bytes of the
-- stream into the message, and reports the end of the stream if they are not there.
pub allowed_fast_overruns :
    (i : ℕ) (rest : Bytes)
    → read_message (message_bytes (allowed_fast i) ++ rest) ≡ (
        if ltb (length rest) 8
        then err eof
        else ok (
          record { length = 13; id = msg_allowed_fast; body = bytes_of i ++ take 8 rest },
          drop 8 rest,
        ))
unfolding allowed_fast message_bytes read_full
allowed_fast_overruns i rest = read_message_header 13 _ (omega arith) ∙ ground arith

-- `listenPort` announces three bytes and sends five: the message is cut after the two high bytes of the
-- port, its two low bytes stay in the stream, and the message is refused as unsupported.
pub listen_port_cut :
    (fast : Bool) (addr : Bytes) (now port : ℕ) (rest : Bytes)
    → (m : Message) × (read_message (message_bytes (listen_port port) ++ rest)
        ≡ ok (m, port / 2 ^ 8 % 256 ∷ port % 256 ∷ rest))
      × (m.body ≡ port / 2 ^ 24 % 256 ∷ port / 2 ^ 16 % 256 ∷ [])
      × (dispatch fast addr now m ≡ err msg_id)
unfolding listen_port message_bytes dispatch read_full
listen_port_cut fast addr now port rest = (
  m,
  read_message_header 3 _ (omega arith) ∙ ground arith,
  refl,
  dispatch_any_extension fast addr now m,
)
  where
    m : Message
    m = record { length = 3; id = msg_port; body = port / 2 ^ 24 % 256 ∷ port / 2 ^ 16 % 256 ∷ [] }

-- `suggestPiece` sends no head, for `init` puts none into the table: the receiver takes the index for a
-- length prefix.
pub suggest_piece_headless :
    (i : ℕ) (rest : Bytes)
    → i < 2 ^ 32
    → read_message (message_bytes (suggest_piece i) ++ rest) ≡ body_of i rest
unfolding suggest_piece message_bytes
suggest_piece_headless i rest h = read_message_header i rest h

-- `keepAlive` sends one byte in place of four: of a message of less than 256 bytes behind it the
-- receiver takes the first three for the rest of an empty message's prefix, and goes on inside it.
pub keep_alive_short :
    (c : Call) (rest : Bytes)
    → Fits c
    → length (Delivery.body_of c) + 1 < 256
    → read_message (message_bytes keep_alive ++ (message_bytes (sent c) ++ rest))
      ≡ ok (
        record { length = 0; id = 0; body = [] },
        (length (Delivery.body_of c) + 1) ∷ Delivery.id_of c ∷ (Delivery.body_of c ++ rest),
      )
unfolding keep_alive message_bytes
keep_alive_short c rest h k = rw (message_bytes-sent c h) (
    ap
      (λ (p : Bytes).
        read_message (p ++ (len % 256 ∷ Delivery.id_of c ∷ (Delivery.body_of c ++ rest))))
      zeros
    ∙ read_message_header 0 (len % 256 ∷ Delivery.id_of c ∷ (Delivery.body_of c ++ rest))
        (omega arith)
    ∙ ap
        (λ n. ok (
          record { length = 0; id = 0; body = [] },
          n ∷ Delivery.id_of c ∷ (Delivery.body_of c ++ rest),
        ))
        (omega arith))
  where
    len : ℕ
    len = length (Delivery.body_of c) + 1

    zeros :
        ◌≡◌ {A = Bytes}
          (0 ∷ len / 2 ^ 24 % 256 ∷ len / 2 ^ 16 % 256 ∷ len / 2 ^ 8 % 256 ∷ [])
          (bytes_of 0)
    zeros = ground arith
