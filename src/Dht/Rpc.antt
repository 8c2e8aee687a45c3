-- ===== src/Dht/Rpc.antt =====
-- dht/krpc.go and pool.go: the queries of the DHT and what comes back for them; dht/node.go: the calls
-- of a node. The connection is a parameter, and so is the decoding of a valid message into the structs
-- of its answer, which goes by reflection.
use Prim.Native.Nat.{ℕ}
use bget.Common.{true, false, not, ◌==◌, if◌then◌else◌, [], ◌∷◌, Option, none, some, length}
use bget.Common.Int.{ℤ, pos}
use bget.Bencode.Encode.{
  Value, nil, int, str, struct, marshaler, list, item, no_items, dict, entry, no_entries,
  no_members, member,
}
use bget.Dht.{Bytes}

pub data RpcError : Type 0 where
  encode network decode response node_size address no_match : RpcError

pub record Head : Type 0 where
  pub trans_id : Bytes
  pub describe : Bytes
  pub version : Bytes

-- `e` is always nil.
pub record Request : Type 0 where
  pub head : Head
  pub query : Bytes
  pub body : Value

-- What MarshalBencode of a nodeID writes.
unfoldable pub marshal_id : Bytes → Bytes
marshal_id id = b'2' ∷ b'0' ∷ b':' ∷ id

-- An array of twenty bytes is set only from the bytes of a whole id.
unfoldable pub unmarshal_id : Bytes → Option Bytes
unmarshal_id given = if not (length given == 20) then none else some given

abbrev pub id_value : Bytes → Value
id_value id = marshaler false (some (marshal_id id))

-- The fields of the embedded head stand first.
unfoldable pub request_value : Request → Value
request_value r = struct (
    member (b't' ∷ []) false (str r.head.trans_id) (
      member (b'y' ∷ []) false (str r.head.describe) (
        member (b'v' ∷ []) true (str r.head.version) (
          member (b'q' ∷ []) false (str r.query)
            (member (b'a' ∷ []) false r.body (member (b'e' ∷ []) true nil no_members))))))

-- kError: what MarshalBencode hands to Marshal.
unfoldable pub error_value : ℤ → Bytes → Value
error_value code description =
    dict (entry (b'e' ∷ []) (list (item (int code) (item (str description) no_items))) no_entries)

-- Two calls of rand.Intn(128).
unfoldable pub new_tran_id : ℕ → ℕ → Bytes
new_tran_id a b = a ∷ b ∷ []

-- `id`, `info_hash`, `target`, and the names of the queries.
abbrev key_id : Bytes
key_id = b'i' ∷ b'd' ∷ []

abbrev key_target : Bytes
key_target = b't' ∷ b'a' ∷ b'r' ∷ b'g' ∷ b'e' ∷ b't' ∷ []

abbrev key_info_hash : Bytes
key_info_hash = b'i' ∷ b'n' ∷ b'f' ∷ b'o' ∷ b'_' ∷ b'h' ∷ b'a' ∷ b's' ∷ b'h' ∷ []

abbrev key_implied_port : Bytes
key_implied_port =
    b'i' ∷ b'm' ∷ b'p' ∷ b'l' ∷ b'i' ∷ b'e' ∷ b'd' ∷ b'_' ∷ b'p' ∷ b'o' ∷ b'r' ∷ b't' ∷ []

abbrev key_port : Bytes
key_port = b'p' ∷ b'o' ∷ b'r' ∷ b't' ∷ []

abbrev key_token : Bytes
key_token = b't' ∷ b'o' ∷ b'k' ∷ b'e' ∷ b'n' ∷ []

abbrev pub query_ping : Bytes
query_ping = b'p' ∷ b'i' ∷ b'n' ∷ b'g' ∷ []

abbrev pub query_find_node : Bytes
query_find_node = b'f' ∷ b'i' ∷ b'n' ∷ b'd' ∷ b'_' ∷ b'n' ∷ b'o' ∷ b'd' ∷ b'e' ∷ []

abbrev pub query_get_peers : Bytes
query_get_peers = b'g' ∷ b'e' ∷ b't' ∷ b'_' ∷ b'p' ∷ b'e' ∷ b'e' ∷ b'r' ∷ b's' ∷ []

abbrev pub query_announce_peer : Bytes
query_announce_peer =
    b'a' ∷ b'n' ∷ b'n' ∷ b'o' ∷ b'u' ∷ b'n' ∷ b'c' ∷ b'e' ∷ b'_' ∷ b'p' ∷ b'e' ∷ b'e' ∷ b'r' ∷ []

abbrev pub ping_req : Bytes → Value
ping_req id = struct (member key_id false (id_value id) no_members)

abbrev pub find_node_req : Bytes → Bytes → Value
find_node_req id target =
    struct
      (member key_id false (id_value id) (member key_target false (id_value target) no_members))

abbrev pub get_peers_req : Bytes → Bytes → Value
get_peers_req id info_hash =
    struct
      (member key_id false (id_value id) (member key_info_hash false (str info_hash) no_members))

abbrev pub announce_peer_req : Bytes → Bytes → ℤ → Bytes → Value
announce_peer_req id info_hash port token = struct (
    member key_id false (id_value id) (
      member key_info_hash false (str info_hash) (
        member key_implied_port false (int (pos 1))
          (member key_port false (int port) (member key_token false (str token) no_members)))))

-- The query of a client whose version is empty.
abbrev pub query : Bytes → Bytes → Value → Request
query tran_id name body = record {
  head = record { trans_id = tran_id; describe = b'q' ∷ []; version = [] };
  query = name;
  body = body;
}
