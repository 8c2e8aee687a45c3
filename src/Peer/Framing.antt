-- ===== src/Peer/Framing.antt =====
-- What a receiver reads of each message that a peer sends.
use bget.Common.{
  ℕ, ◌+◌, ◌^◌, ◌<◌, ltb, ◌==◌, if◌then◌else◌, [], ◌∷◌, ◌++◌, length, ◌≡◌, ap, ◌∙◌, arith,
  length-append, take_left, drop_left, ge→ltb,
}
use bget.Common.Go.{Result, ok, err, ◌>>=◌}
use bget.Peer.Wire.{Unpacked, Bytes, bytes_of, pack_uint32, unpack_uint32, unpack-pack_uint32}
use bget.Peer.Message.{Message, msg_max_length}
use bget.Peer.Receive.{ReadError, msg_length, read_full, read_message, split_id}

pub read_full_left : (xs rest : Bytes) → read_full (length xs) (xs ++ rest) ≡ ok (xs, rest)
unfolding read_full
read_full_left xs rest = rw (
  ge→ltb (length (xs ++ rest)) (length xs) (omega (arith, length-append xs rest)),
  take_left xs rest,
  drop_left xs rest,
)

pub header_value : (len : ℕ) → len < 2 ^ 32 → (unpack_uint32 (bytes_of len) 0).value ≡ len
unfolding pack_uint32
header_value len h = ap (λ (u : Unpacked). u.value) (unpack-pack_uint32 [] [] len h)

-- What is done after the length prefix.
abbrev pub body_of : ℕ → Bytes → Result ReadError (Message × Bytes)
body_of len after =
    if ltb msg_max_length len
    then err msg_length
    else if len == 0
    then ok (record { length = 0; id = 0; body = [] }, after)
    else (read_full len after >>= λ r. split_id len r.0 r.1)

pub read_message_header :
    (len : ℕ) (after : Bytes)
    → len < 2 ^ 32
    → read_message (bytes_of len ++ after) ≡ body_of len after
unfolding read_message
read_message_header len after h = rw (read_full_left (bytes_of len) after, header_value len h)

-- A frame, a length prefix with as many bytes behind it, is read whole and leaves what follows it.
pub read_message_frame :
    (id : ℕ) (body rest : Bytes)
    → length body < msg_max_length
    → read_message (bytes_of (length body + 1) ++ ((id ∷ body) ++ rest))
      ≡ ok (record { length = length body + 1; id = id; body = body }, rest)
read_message_frame id body rest h =
    read_message_header (length body + 1) ((id ∷ body) ++ rest) (omega arith)
    ∙ ground (arith, read_all)
  where
    read_all : read_full (length body + 1) ((id ∷ body) ++ rest) ≡ ok (id ∷ body, rest)
    read_all =
        ap (λ n. read_full n ((id ∷ body) ++ rest)) (omega arith) ∙ read_full_left (id ∷ body) rest
