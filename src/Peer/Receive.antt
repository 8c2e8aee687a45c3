-- ===== src/Peer/Receive.antt =====
-- peer/protocol.go: reading one message from a connection, and its translation by `dispatch`.
use bget.Common.{
  ℕ, zero, suc, ◌+◌, ◌==◌, Bool, not, ◌&&◌, ◌||◌, ltb, if◌then◌else◌, List, [], ◌∷◌, Option, none,
  some, length, take, drop,
}
use bget.Common.Int.{pos}
use bget.Common.Go.{Result, ok, err, panic, ◌>>=◌}
use bget.Bitmap.{Bitmap, new_bitmap}
use bget.Filesystem.{Block}
use bget.Peer.Wire.{Bytes, unpack_uint32}
use bget.Peer.Message.{
  Message, Request, msg_max_length, msg_choke, msg_unchoke, msg_interest, msg_no_interest, msg_have,
  msg_bitfield, msg_request, msg_piece, msg_cancel, msg_port, msg_suggest_piece, msg_have_all,
  msg_have_none, msg_reject_request, msg_allowed_fast,
}

-- `eof` is the error of a read that the connection's end cuts short.
pub data ReadError : Type 0 where
  eof msg_length : ReadError

-- io.ReadFull: all the bytes that are wanted, or an error.
unfoldable pub read_full : ℕ → Bytes → Result ReadError (Bytes × Bytes)
read_full n input = if ltb (length input) n then err eof else ok (take n input, drop n input)

-- `id, payload := msgID(data[0]), data[1:]`
abbrev pub split_id : ℕ → Bytes → Bytes → Result ReadError (Message × Bytes)
split_id len [] input = panic
split_id len (id ∷ payload) input = ok (record { length = len; id = id; body = payload }, input)

unfoldable pub read_message : Bytes → Result ReadError (Message × Bytes)
unfolding read_full unpack_uint32
read_message input = do
  (header, after) ← read_full 4 input
  let len = (unpack_uint32 header 0).value
  if ltb msg_max_length len
      then err msg_length
      else if len == 0
      then ok (record { length = 0; id = 0; body = [] }, after)
      else (read_full len after >>= λ r. split_id len r.0 r.1)

-- The Data field of a messageWithID; a pointer that is nil is `none`.
pub data Payload : Type 0 where
  empty : Payload
  index : ℕ → Payload
  bits : Bitmap → Payload
  asked : Option Request → Payload
  block : Option Block → Payload

pub record MessageWithId : Type 0 where
  pub peer_id : Bytes
  pub id : ℕ
  pub payload : Payload

pub data DispatchError : Type 0 where
  fast_extension msg_id : DispatchError

-- The third argument is the clock.
unfoldable pub new_request : ℕ → Bytes → Option Request
unfolding unpack_uint32
new_request now bytes =
    if not (length bytes == 12)
    then none
    else let i = unpack_uint32 bytes 0 in
      let b = unpack_uint32 bytes i.offset in
      let l = unpack_uint32 bytes b.offset in
      some (record { index = i.value; begin = pos b.value; length = pos l.value; create_at = now })

unfoldable pub new_block : Bytes → Option Block
unfolding unpack_uint32
new_block bytes =
    if ltb (length bytes) 12
    then none
    else let i = unpack_uint32 bytes 0 in
      let b = unpack_uint32 bytes i.offset in
      some (record { index = i.value; begin = b.value; bytes = drop b.offset bytes })

-- The zero value of the named result `msg`, whose ID the first test reads.
abbrev zero_message : MessageWithId
zero_message = record { peer_id = []; id = 0; payload = empty }

payload_of : ℕ → Message → Result DispatchError Payload
unfolding new_request new_block
payload_of now m =
    if m.id == msg_choke
      || m.id == msg_unchoke
      || m.id == msg_interest
      || m.id == msg_no_interest
      || m.id == msg_have_all
      || m.id == msg_have_none
    then ok empty
    else if m.id == msg_have || m.id == msg_suggest_piece || m.id == msg_allowed_fast
    then ok (index (unpack_uint32 m.body 0).value)
    else if m.id == msg_bitfield
    then ok (bits (new_bitmap m.body))
    else if m.id == msg_request || m.id == msg_cancel || m.id == msg_reject_request
    then ok (asked (new_request now m.body))
    else if m.id == msg_piece
    then ok (block (new_block m.body))
    else err msg_id

-- `fast` is p.fastExtension and `addr` is p.addr.
unfoldable pub dispatch : Bool → Bytes → ℕ → Message → Result DispatchError MessageWithId
unfolding payload_of
dispatch fast addr now m =
    if not fast && ltb msg_port zero_message.id
    then err fast_extension
    else do payload ← payload_of now m; ok (record { peer_id = addr; id = m.id; payload = payload })

-- peer/peer.go, `recvMessage`: the messages that the loop hands to the manager until a read or a
-- translation fails and the peer is closed. `clock k` is the time of round `k`; a round that reads
-- takes four bytes at least, so as many rounds as there are bytes, and one more, are enough. That the
-- peer is closed from outside meanwhile is not modelled: it only ends the loop earlier.
unfoldable pub recv_message : Bool → Bytes → (ℕ → ℕ) → ℕ → ℕ → Bytes → List MessageWithId
unfolding read_message dispatch
recv_message fast addr clock zero k input = []
recv_message fast addr clock (suc fuel) k input = elim (read_message input) [
  | ok (m, rest) ↦
      if m.length == 0
      then recv_message fast addr clock fuel (k + 1) rest
      else elim (dispatch fast addr (clock k) m) [
        | ok msg ↦ msg ∷ recv_message fast addr clock fuel (k + 1) rest
        | err e ↦ []
        | panic ↦ []
      ]
  | err e ↦ []
  | panic ↦ []
]
