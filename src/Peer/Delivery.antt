-- ===== src/Peer/Delivery.antt =====
-- The sending methods against the receive loop: which message a peer's call is for the other side.
use bget.Common.{
  ℕ, zero, suc, ◌+◌, ◌*◌, ◌/◌, ◌%◌, ◌^◌, bit_or, ◌<◌, Bool, true, false, List, [], ◌∷◌, ◌++◌, some,
  length, ◌≡◌, refl, ap, ◌∙◌, arith, length-append, append_assoc, All,
}
use bget.Common.Int.{pos}
use bget.Common.Go.{ok}
use bget.Bitmap.{Bitmap, new_bitmap}
use bget.Peer.Wire.{Bytes, bytes_of, join_bytes}
use bget.Peer.Message.{
  Outgoing, raw, framed, message_bytes, msg_head, msg_max_length, msg_choke, msg_unchoke,
  msg_interest, msg_no_interest, msg_have, msg_bitfield, msg_request, msg_cancel, msg_have_all,
  msg_have_none, msg_reject_request,
}
use bget.Peer.Message
use bget.Peer.Receive.{
  read_message, dispatch, MessageWithId, Payload, empty, index, bits, asked, recv_message,
}
use bget.Peer.Framing.{read_message_frame}

-- The calls whose message arrives as it was meant.
pub data Call : Type 0 where
  choke unchoke interest no_interest have_all have_none : Call
  have : ℕ → Call
  bitfield : Bitmap → Call
  request cancel reject_request : ℕ → ℕ → ℕ → Call

-- The peer's method for a call.
abbrev pub sent : Call → Outgoing
sent choke = Message.choke
sent unchoke = Message.unchoke
sent interest = Message.interest
sent no_interest = Message.no_interest
sent have_all = Message.have_all
sent have_none = Message.have_none
sent (have i) = Message.have i
sent (bitfield b) = Message.bitfield b
sent (request i b l) = Message.request i b l
sent (cancel i b l) = Message.cancel i b l
sent (reject_request i b l) = Message.reject_request i b l

-- The protocol's id of a call, the body behind it, and what it says.
abbrev pub id_of : Call → ℕ
id_of choke = msg_choke
id_of unchoke = msg_unchoke
id_of interest = msg_interest
id_of no_interest = msg_no_interest
id_of have_all = msg_have_all
id_of have_none = msg_have_none
id_of (have i) = msg_have
id_of (bitfield b) = msg_bitfield
id_of (request i b l) = msg_request
id_of (cancel i b l) = msg_cancel
id_of (reject_request i b l) = msg_reject_request

abbrev triple : ℕ → ℕ → ℕ → Bytes
triple i b l = bytes_of i ++ (bytes_of b ++ bytes_of l)

abbrev pub body_of : Call → Bytes
body_of (have i) = bytes_of i
body_of (bitfield b) = b.val
body_of (request i b l) = triple i b l
body_of (cancel i b l) = triple i b l
body_of (reject_request i b l) = triple i b l
body_of _ = []

abbrev asks : ℕ → ℕ → ℕ → ℕ → Payload
asks now i b l = asked (some (record { index = i; begin = pos b; length = pos l; create_at = now }))

abbrev pub meaning : ℕ → Call → Payload
meaning now (have i) = index i
meaning now (bitfield b) = bits (new_bitmap b.val)
meaning now (request i b l) = asks now i b l
meaning now (cancel i b l) = asks now i b l
meaning now (reject_request i b l) = asks now i b l
meaning now _ = empty

-- The arguments fit the fields, and the message the receiver's limit.
abbrev pub Fits : Call → Type 0
Fits (have i) = i < 2 ^ 32
Fits (bitfield b) = length b.val < msg_max_length
Fits (request i b l) = (i < 2 ^ 32) × (b < 2 ^ 32) × (l < 2 ^ 32)
Fits (cancel i b l) = (i < 2 ^ 32) × (b < 2 ^ 32) × (l < 2 ^ 32)
Fits (reject_request i b l) = (i < 2 ^ 32) × (b < 2 ^ 32) × (l < 2 ^ 32)
Fits _ = Unit

abbrev pub frame : ℕ → Bytes → Bytes
frame id body = bytes_of (length body + 1) ++ (id ∷ body)

pub message_bytes-sent : (c : Call) → Fits c → message_bytes (sent c) ≡ frame (id_of c) (body_of c)
unfolding message_bytes Message.choke Message.unchoke Message.interest Message.no_interest
    Message.have_all Message.have_none Message.have Message.bitfield Message.request Message.cancel
    Message.reject_request
message_bytes-sent choke h = refl
message_bytes-sent (bitfield b) h = ap (λ n. bytes_of n ++ (msg_bitfield ∷ b.val)) (omega arith)
message_bytes-sent _ h = refl

-- The four bytes of a number, joined as unpackUint32 joins them.
abbrev rejoined : ℕ → ℕ
rejoined i =
    bit_or
      (bit_or (bit_or (i / 2 ^ 24 % 256 * 2 ^ 24 % 2 ^ 32) (i / 2 ^ 16 % 256 * 2 ^ 16 % 2 ^ 32))
        (i / 2 ^ 8 % 256 * 2 ^ 8 % 2 ^ 32))
      (i % 256)

rejoined_lem : (i : ℕ) → i < 2 ^ 32 → rejoined i ≡ i
rejoined_lem i h =
    join_bytes (i / 2 ^ 24 % 256) (i / 2 ^ 16 % 256) (i / 2 ^ 8 % 256) (i % 256) (omega arith)
      (omega arith) (omega arith) (omega arith)
    ∙ omega arith

asked_lem :
    (now i b l : ℕ)
    → i < 2 ^ 32
    → b < 2 ^ 32
    → l < 2 ^ 32
    → asks now (rejoined i) (rejoined b) (rejoined l) ≡ asks now i b l
asked_lem now i b l hi hb hl = rw (rejoined_lem i hi, rejoined_lem b hb, rejoined_lem l hl)

abbrev pub received : Bytes → ℕ → Call → MessageWithId
received addr now c = record { peer_id = addr; id = id_of c; payload = meaning now c }

abbrev message_of : Call → Message.Message
message_of c = record { length = length (body_of c) + 1; id = id_of c; body = body_of c }

-- dispatch translates a message alike whether or not the peer has the fast extension: the test that
-- should refuse a fast message reads the id of a result that is not set yet.
pub dispatch_any_extension :
    (fast : Bool) (addr : Bytes) (now : ℕ) (m : Message.Message)
    → dispatch fast addr now m ≡ dispatch true addr now m
unfolding dispatch
dispatch_any_extension true addr now m = refl
dispatch_any_extension false addr now m = refl

dispatch-message_of :
    (addr : Bytes) (now : ℕ) (c : Call)
    → Fits c
    → dispatch true addr now (message_of c) ≡ ok (received addr now c)
unfolding dispatch
dispatch-message_of addr now (have i) h = rw (rejoined_lem i h)
dispatch-message_of addr now (request i b l) h = rw (asked_lem now i b l h.0 h.1 h.2)
dispatch-message_of addr now (cancel i b l) h = rw (asked_lem now i b l h.0 h.1 h.2)
dispatch-message_of addr now (reject_request i b l) h = rw (asked_lem now i b l h.0 h.1 h.2)
dispatch-message_of addr now _ h = refl

-- The bytes of a row of calls, and the messages that they mean, with the clock of each round.
abbrev pub stream : List Call → Bytes
stream [] = []
stream (c ∷ cs) = message_bytes (sent c) ++ stream cs

abbrev pub delivered : Bytes → (ℕ → ℕ) → ℕ → List Call → List MessageWithId
delivered addr clock k [] = []
delivered addr clock k (c ∷ cs) = received addr (clock k) c ∷ delivered addr clock (k + 1) cs

length-body_of : (c : Call) → Fits c → length (body_of c) < msg_max_length
length-body_of (bitfield b) h = h
length-body_of _ h = omega arith

read_message-sent :
    (c : Call) (rest : Bytes)
    → Fits c
    → read_message (message_bytes (sent c) ++ rest) ≡ ok (message_of c, rest)
read_message-sent c rest h =
    rw (message_bytes-sent c h, append_assoc)
      (read_message_frame (id_of c) (body_of c) rest (length-body_of c h))

recv_message_step :
    (fast : Bool) (addr : Bytes) (clock : ℕ → ℕ) (fuel k : ℕ) (c : Call) (rest : Bytes)
    → Fits c
    → recv_message fast addr clock (suc fuel) k (message_bytes (sent c) ++ rest)
      ≡ received addr (clock k) c ∷ recv_message fast addr clock fuel (k + 1) rest
unfolding recv_message
recv_message_step fast addr clock fuel k c rest h = ground (
  arith,
  read_message-sent c rest h,
  dispatch_any_extension fast addr (clock k) (message_of c),
  dispatch-message_of addr (clock k) c h,
)

recv_message_end :
    (fast : Bool) (addr : Bytes) (clock : ℕ → ℕ) (fuel k : ℕ)
    → recv_message fast addr clock (suc fuel) k [] ≡ []
unfolding recv_message read_message
recv_message_end fast addr clock fuel k = refl

recv_message-stream :
    (fast : Bool) (addr : Bytes) (clock : ℕ → ℕ) (cs : List Call) (fuel k : ℕ)
    → All Fits cs
    → length (stream cs) < fuel
    → recv_message fast addr clock fuel k (stream cs) ≡ delivered addr clock k cs
recv_message-stream fast addr clock cs zero k h f = absurd (omega arith)
recv_message-stream fast addr clock [] (suc fuel) k h f = recv_message_end fast addr clock fuel k
recv_message-stream fast addr clock (c ∷ cs) (suc fuel) k h f =
    recv_message_step fast addr clock fuel k c (stream cs) h.0
    ∙ ap (◌∷◌ (received addr (clock k) c)) (
        recv_message-stream fast addr clock cs fuel (k + 1) h.1 (
          omega (
            arith,
            length-append (message_bytes (sent c)) (stream cs),
            ap length (message_bytes-sent c h.0),
          )))

-- The bytes of a row of messages, written whole one after the other, are these messages for the receive
-- loop, each with its id and its arguments.
pub recv_message-delivered :
    (fast : Bool) (addr : Bytes) (clock : ℕ → ℕ) (cs : List Call)
    → All Fits cs
    → recv_message fast addr clock (length (stream cs) + 1) 0 (stream cs)
      ≡ delivered addr clock 0 cs
recv_message-delivered fast addr clock cs h =
    recv_message-stream fast addr clock cs (length (stream cs) + 1) 0 h (omega arith)
