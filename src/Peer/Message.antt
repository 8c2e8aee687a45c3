-- ===== src/Peer/Message.antt =====
-- peer/protocol.go: the messages as they are written to and read from a connection, and `dispatch`.
-- A connection's input is the list of bytes that are still to come before it ends.
use bget.Common.{ℕ, ◌+◌, ◌*◌, ◌%◌, ◌^◌, ◌==◌, if◌then◌else◌, [], ◌∷◌, ◌++◌, length}
use bget.Common.Int.{ℤ}
use bget.Bitmap.{Bitmap}
use bget.Peer.Wire.{Bytes, bytes_of, pack_uint32}

-- The message ids.
abbrev pub msg_choke : ℕ
msg_choke = 0

abbrev pub msg_unchoke : ℕ
msg_unchoke = 1

abbrev pub msg_interest : ℕ
msg_interest = 2

abbrev pub msg_no_interest : ℕ
msg_no_interest = 3

abbrev pub msg_have : ℕ
msg_have = 4

abbrev pub msg_bitfield : ℕ
msg_bitfield = 5

abbrev pub msg_request : ℕ
msg_request = 6

abbrev pub msg_piece : ℕ
msg_piece = 7

abbrev pub msg_cancel : ℕ
msg_cancel = 8

abbrev pub msg_port : ℕ
msg_port = 9

abbrev pub msg_suggest_piece : ℕ
msg_suggest_piece = 0x0d

abbrev pub msg_have_all : ℕ
msg_have_all = 0x0e

abbrev pub msg_have_none : ℕ
msg_have_none = 0x0f

abbrev pub msg_reject_request : ℕ
msg_reject_request = 0x10

abbrev pub msg_allowed_fast : ℕ
msg_allowed_fast = 0x11

abbrev pub msg_max_length : ℕ
msg_max_length = 16 * 1024 + 9

abbrev pub msg_id_len : ℕ
msg_id_len = 1

pub record Message : Type 0 where
  pub length : ℕ
  pub id : ℕ
  pub body : Bytes

-- A request's length can become negative in `nextRequest`; its index never is.
pub record Request : Type 0 where
  pub index : ℕ
  pub begin : ℤ
  pub length : ℤ
  pub create_at : ℕ

-- The table `msgHead` that `init` fills; an id that it does not hold reads as nil.
abbrev head_of : ℕ → ℕ → Bytes
head_of len id = bytes_of len ++ id ∷ []

unfoldable pub msg_head : ℕ → Bytes
msg_head id =
    if id == msg_choke
    then head_of 1 msg_choke
    else if id == msg_unchoke
    then head_of 1 msg_unchoke
    else if id == msg_interest
    then head_of 1 msg_interest
    else if id == msg_no_interest
    then head_of 1 msg_no_interest
    else if id == msg_have
    then head_of 5 msg_have
    else if id == msg_request
    then head_of 13 msg_request
    else if id == msg_cancel
    then head_of 13 msg_cancel
    else if id == msg_port
    then head_of 3 msg_port
    else if id == msg_have_all
    then head_of 1 msg_have_all
    else if id == msg_have_none
    then head_of 1 msg_have_none
    else if id == msg_reject_request
    then head_of 0xd msg_reject_request
    else if id == msg_allowed_fast
    then head_of 0xd msg_allowed_fast
    else []

-- What `sendMessage` is given, and the bytes that it hands to one Write: a slice as it is, a message
-- field by field.
pub data Outgoing : Type 0 where
  raw : Bytes → Outgoing
  framed : Message → Outgoing

unfoldable pub message_bytes : Outgoing → Bytes
unfolding pack_uint32
message_bytes (raw v) = v
message_bytes (framed m) = pack_uint32 [] m.length ++ m.id ∷ [] ++ m.body

-- The sending methods of a peer, by the data that they hand to `sendMessage`.
unfoldable pub keep_alive : Outgoing
keep_alive = raw (0 ∷ [])

unfoldable pub choke : Outgoing
unfolding msg_head
choke = raw (msg_head msg_choke)

unfoldable pub unchoke : Outgoing
unfolding msg_head
unchoke = raw (msg_head msg_unchoke)

unfoldable pub interest : Outgoing
unfolding msg_head
interest = raw (msg_head msg_interest)

unfoldable pub no_interest : Outgoing
unfolding msg_head
no_interest = raw (msg_head msg_no_interest)

unfoldable pub have : ℕ → Outgoing
unfolding msg_head pack_uint32
have index = raw (pack_uint32 (msg_head msg_have) index)

unfoldable pub bitfield : Bitmap → Outgoing
bitfield b =
    let body = b.val in
    framed (record { length = (msg_id_len + length body) % 2 ^ 32; id = msg_bitfield; body = body })

-- `msg ++ index ++ begin ++ length`, for the three messages of that shape.
abbrev pub pack_triple : Bytes → ℕ → ℕ → ℕ → Bytes
pack_triple msg index begin length = pack_uint32 (pack_uint32 (pack_uint32 msg index) begin) length

unfoldable pub request : ℕ → ℕ → ℕ → Outgoing
unfolding msg_head pack_uint32
request index begin length = raw (pack_triple (msg_head msg_request) index begin length)

-- The code passes msgCancel here.
unfoldable pub piece : ℕ → ℕ → Bytes → Outgoing
unfolding pack_uint32
piece index begin bytes =
    let body = pack_uint32 (pack_uint32 [] index) begin ++ bytes in
    framed (record { length = (msg_id_len + length body) % 2 ^ 32; id = msg_cancel; body = body })

unfoldable pub cancel : ℕ → ℕ → ℕ → Outgoing
unfolding msg_head pack_uint32
cancel index begin length = raw (pack_triple (msg_head msg_cancel) index begin length)

unfoldable pub listen_port : ℕ → Outgoing
unfolding msg_head pack_uint32
listen_port port = raw (pack_uint32 (msg_head msg_port) port)

unfoldable pub have_all : Outgoing
unfolding msg_head
have_all = raw (msg_head msg_have_all)

unfoldable pub have_none : Outgoing
unfolding msg_head
have_none = raw (msg_head msg_have_none)

unfoldable pub suggest_piece : ℕ → Outgoing
unfolding msg_head pack_uint32
suggest_piece index = raw (pack_uint32 (msg_head msg_suggest_piece) index)

unfoldable pub reject_request : ℕ → ℕ → ℕ → Outgoing
unfolding msg_head pack_uint32
reject_request index begin length =
    raw (pack_triple (msg_head msg_reject_request) index begin length)

unfoldable pub allowed_fast : ℕ → Outgoing
unfolding msg_head pack_uint32
allowed_fast index = raw (pack_uint32 (msg_head msg_allowed_fast) index)
