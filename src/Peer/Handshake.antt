-- ===== src/Peer/Handshake.antt =====
-- peer/protocol.go and peer/server.go: the handshake, as it is written, checked by the side that
-- connects (`recvHandshake`) and by the server (`Accept`).
use bget.Common.{ℕ, bit_and, Bool, true, not, ◌&&◌, ◌==◌, if◌then◌else◌, [], ◌∷◌, ◌++◌}
use bget.Common.Bytes.{equal}
use bget.Common.Go.{Result, ok, err, panic, ◌>>=◌}
use bget.Peer.Wire.{Bytes}
use bget.Peer.Receive.{ReadError, read_full}

pub data HandshakeError : Type 0 where
  proto info_hash : HandshakeError
  read : ReadError → HandshakeError

pub record HandshakeMsg : Type 0 where
  pub head : Bytes
  pub reserved : Bytes
  pub info_hash : Bytes
  pub peer_id : Bytes

-- "BitTorrent protocol", behind its length.
abbrev pub handshake_head : Bytes
handshake_head =
    19 ∷ b'B' ∷ b'i' ∷ b't' ∷ b'T' ∷ b'o' ∷ b'r' ∷ b'r' ∷ b'e' ∷ b'n' ∷ b't' ∷ b' ' ∷ b'p' ∷ b'r'
    ∷ b'o' ∷ b't' ∷ b'o' ∷ b'c' ∷ b'o' ∷ b'l' ∷ []

-- Eight reserved bytes; `init` sets the bit of the fast extension in the last.
abbrev pub extension : Bytes
extension = 0 ∷ 0 ∷ 0 ∷ 0 ∷ 0 ∷ 0 ∷ 0 ∷ 4 ∷ []

-- binary.Write and binary.Read of the structure: its four arrays, one behind the other.
unfoldable pub write_handshake : HandshakeMsg → Bytes
write_handshake m = m.head ++ (m.reserved ++ (m.info_hash ++ m.peer_id))

unfoldable pub read_handshake : Bytes → Result ReadError HandshakeMsg
read_handshake input = do
  (head, after_head) ← read_full 20 input
  (reserved, after_reserved) ← read_full 8 after_head
  (info, after_info) ← read_full 20 after_reserved
  (id, rest) ← read_full 20 after_info
  ok (record { head = head; reserved = reserved; info_hash = info; peer_id = id })

-- The bytes that `handshake` writes for a peer with this id.
unfoldable pub handshake : Bytes → Bytes → Bytes
unfolding write_handshake
handshake info id =
    write_handshake
      (record { head = handshake_head; reserved = extension; info_hash = info; peer_id = id })

abbrev pub last_reserved : Bytes → ℕ
last_reserved (a ∷ b ∷ c ∷ d ∷ e ∷ f ∷ g ∷ h ∷ rest) = h
last_reserved _ = 0

abbrev pub has_fast : Bytes → Bool
has_fast reserved = not (bit_and (last_reserved reserved) 4 == 0)

-- What a successful `recvHandshake` sets: p.fastExtension, which it never resets, and p.id.
pub record Greeted : Type 0 where
  pub fast_extension : Bool
  pub id : Bytes

unfoldable pub check_handshake : Bool → Bytes → HandshakeMsg → Result HandshakeError Greeted
check_handshake fast info resp =
    if not (equal resp.head handshake_head)
    then err proto
    else if not (equal resp.info_hash info)
    then err info_hash
    else ok (record {
      fast_extension = if has_fast resp.reserved && has_fast extension then true else fast;
      id = resp.peer_id;
    })

unfoldable pub recv_handshake : Bool → Bytes → Bytes → Result HandshakeError Greeted
recv_handshake fast info input = elim (read_handshake input) [
  | ok resp ↦ check_handshake fast info resp
  | err e ↦ err (read e)
  | panic ↦ panic
]

-- peer/server.go, `checkID`: an id of zeros, or the server's own.
unfoldable pub all_zero : Bytes → Bool
all_zero [] = true
all_zero (v ∷ id) = v == 0 && all_zero id

unfoldable pub check_id : Bytes → Bytes → Bool
unfolding all_zero
check_id own id = if all_zero id then true else equal own id

-- What `Accept` returns for a connection with this input: the connection is left open, or it is closed
-- and the results are zero beside the error of the read, if there was one.
pub data Accepted : Type 0 where
  open_connection : Bytes → Bytes → Accepted
  closed : Accepted
  closed_with : ReadError → Accepted

unfoldable pub accept : Bytes → Bytes → Accepted
accept own input = elim (read_handshake input) [
  | ok resp ↦
      if equal resp.head handshake_head && check_id own resp.peer_id
      then open_connection resp.info_hash resp.reserved
      else closed
  | err e ↦ closed_with e
  | panic ↦ closed
]
