-- ===== src/Dht/Calls.antt =====
-- dht/krpc.go and pool.go: a query over the connection of a node, and what is made of the answer;
-- dht/node.go: the calls of a node. The connection is a parameter, and so is the decoding of a valid
-- message into the structs of its answer, which goes by reflection.
use bget.Common.{
  ℕ, Bool, not, ◌||◌, ◌==◌, if◌then◌else◌, List, [], ◌∷◌, ◌++◌, Option, none, some, length,
  replicate,
}
use bget.Common.Bytes.{equal}
use bget.Common.Go.{Result, ok, err, panic}
use bget.Common.State.{State, ◌>>=◌, ◌>>◌, return}
use bget.Common.Int.{ℤ}
use bget.Bencode.Encode.{EncodeError, marshal}
use bget.Bencode.Scanner.{fresh}
use bget.Bencode.Valid.{valid, check_valid}
use bget.Dht.{Bytes, Node, NodeState, check_id, uncompress_nodes}
use bget.Dht.Rpc.{
  RpcError, Request, encode, network, decode, response, node_size, address, no_match, query,
  request_value, ping_req, find_node_req, get_peers_req, announce_peer_req, query_ping,
  query_find_node, query_get_peers, query_announce_peer,
}
use bget.Utils.{parse_ipv4_addr}

-- `read_all` is `ReadFrom` of a buffer: the bytes that came, and whether they ended with the end of the
-- stream and not with an error. `stop_timer` is false where the timer has fired.
pub record Net : Type 1 where
  pub World : Type 0
  pub write : World → Bytes → World × Bool
  pub read_all : World → World × Bytes × Bool
  pub stop_timer : World → World × Bool
  pub redial : World → World

-- The answers, as far as the code reads them. An id is `none` where the answer has none.
pub record Response : Type 0 where
  pub trans_id : Bytes
  pub describe : Bytes
  pub body : Bytes

pub record FindNodeResp : Type 0 where
  pub id : Option Bytes
  pub nodes : Bytes

pub record GetPeersResp : Type 0 where
  pub id : Option Bytes
  pub token : Bytes
  pub values : List Bytes
  pub nodes : Bytes

-- The decoding of a message that checkValid has let through; `id_body` is that of both answers that have
-- an id only.
pub record Decoding : Type 0 where
  pub response : Bytes → Option Response
  pub id_body : Bytes → Option (Option Bytes)
  pub nodes_body : Bytes → Option FindNodeResp
  pub peers_body : Bytes → Option GetPeersResp

abbrev pub pkg_size : ℕ
pkg_size = 1024

-- The buffers that are in the pool. A new one holds pkgSize zeros; one that is put back keeps its bytes.
unfoldable pub get_buffer : List Bytes → Bytes × List Bytes
get_buffer [] = (replicate pkg_size 0, [])
get_buffer (b ∷ pool) = (b, pool)

-- `Unmarshal` into a struct.
unfoldable pub into : {A : Type 0} → (Bytes → Option A) → Bytes → Option A
into f given = elim (check_valid given fresh) [ valid s ↦ f given | _ ↦ none ]

-- The state after a ping that failed.
unfoldable pub demoted : NodeState → NodeState
demoted NodeState.good = NodeState.questionable
demoted NodeState.questionable = NodeState.bad
demoted NodeState.unknown = NodeState.bad
demoted s = s

module _ (net : Net) (dec : Decoding) where
  open net use {World}

  pub record Wire : Type 0 where
    pub world : World
    pub pool : List Bytes

  abbrev pub Call : Type 0 → Type 0
  Call = State Wire RpcError

  abbrev pub refuse : {A : Type 0} → RpcError → Call A
  refuse e s = (s, err e)

  abbrev pub decoded : {A : Type 0} → Option A → Call A
  decoded none s = (s, err decode)
  decoded (some a) s = (s, ok a)

  abbrev pub send : Result EncodeError Bytes → Call (Unit {0})
  send (ok given) s =
      let (w, sent) = net.write s.world given in
      (record s { world = w }, (if sent then ok tt else err network))
  send (err e) s = (s, err encode)
  send panic s = (s, panic)

  -- What the buffer holds behind the read; it goes back into the pool at the end of the call, which
  -- takes no other before.
  abbrev pub receive : Call Bytes
  receive s =
      let (b, pool) = get_buffer s.pool in
      let (w, given, ended) = net.read_all s.world in
      let whole = b ++ given in
      (record { world = w; pool = whole ∷ pool }, (if ended then ok whole else err network))

  abbrev pub restart : Call (Unit {0})
  restart s =
      let (w, running) = net.stop_timer s.world in
      (record s { world = if running then w else net.redial w }, ok tt)

  abbrev pub answer : {A : Type 0} → (Bytes → Option A) → Request → Bytes → Call A
  answer body r whole = do
    restart
    msg ← decoded (into dec.response whole)
    if not (equal msg.trans_id r.head.trans_id) || not (equal msg.describe (b'r' ∷ []))
        then refuse response
        else decoded (into body msg.body)

  unfoldable pub request : {A : Type 0} → (Bytes → Option A) → Request → Call A
  request body r = do send (marshal (request_value r)); whole ← receive; answer body r whole

  -- The calls of a krpcClient; `t` is the transaction id that newTranID draws.
  unfoldable pub ping : Bytes → Bytes → Call (Option Bytes)
  ping t own = request dec.id_body (query t query_ping (ping_req own))

  abbrev pub nodes_of : Bytes → Call (List (Option Node))
  nodes_of given s = elim (uncompress_nodes given) [
    | ok ns ↦ (s, ok ns)
    | err e ↦ (s, err address)
    | panic ↦ (s, panic)
  ]

  unfoldable pub find_node : Bytes → Bytes → Bytes → Call (Option Bytes × List (Option Node))
  find_node t own target = do
    resp ← request dec.nodes_body (query t query_find_node (find_node_req own target))
    nodes ← nodes_of resp.nodes
    return (resp.id, nodes)

  unfoldable pub parse_addrs : List Bytes → Call (List Bytes)
  parse_addrs [] s = (s, ok [])
  parse_addrs (p ∷ ps) s = elim (parse_ipv4_addr p) [
    | ok a ↦ (parse_addrs ps >>= λ rest. return (a ∷ rest)) s
    | err e ↦ (s, err address)
    | panic ↦ (s, panic)
  ]

  -- The addresses of peers, or nodes that are closer, with the token.
  unfoldable pub get_peers : Bytes → Bytes → Bytes → Call (List Bytes × List (Option Node) × Bytes)
  unfolding parse_addrs
  get_peers t own info_hash = do
    resp ← request dec.peers_body (query t query_get_peers (get_peers_req own info_hash))
    if length resp.token == 0
        then refuse node_size
        else if not (length resp.values == 0)
        then (do addrs ← parse_addrs resp.values; return (addrs, [], resp.token))
        else if length resp.nodes == 0
        then refuse node_size
        else (do nodes ← nodes_of resp.nodes; return ([], nodes, resp.token))

  -- `port` is the number behind the address of this node, `none` where it has none.
  unfoldable pub announce_peer : Bytes → Bytes → Option ℤ → Bytes → Bytes → Call (Option Bytes)
  announce_peer t own none info_hash token = refuse address
  announce_peer t own (some port) info_hash token =
      request dec.id_body (query t query_announce_peer (announce_peer_req own info_hash port token))

  -- The calls of a node. One without a client, as uncompressNode makes it, is read through a nil pointer.
  abbrev pub checked : Node → Option Bytes → Call Node
  checked n id s = elim (check_id n id) [
    | ok n' ↦ (s, ok n')
    | err e ↦ (s, err no_match)
    | panic ↦ (s, panic)
  ]

  unfoldable pub ping_node : Bytes → Bytes → Node → Call Node
  ping_node t own n = if n.client then (ping t own >>= checked n) else (λ s. (s, panic))

  unfoldable pub find_node_from : Bytes → Bytes → Bytes → Node → Call (Node × List (Option Node))
  find_node_from t own target n =
      if n.client
      then (do found ← find_node t own target; n' ← checked n found.0; return (n', found.1))
      else (λ s. (s, panic))

  abbrev pub after_ping : Node → Wire × Result RpcError Node → Wire × Result RpcError Node
  after_ping n (s, ok n') = (s, ok (record n' { state = NodeState.good }))
  after_ping n (s, err e) = (s, ok (record n { state = demoted n.state }))
  after_ping n (s, panic) = (s, panic)

  unfoldable pub check_status : Bytes → Bytes → Node → Wire → Wire × Result RpcError Node
  check_status t own n s = after_ping n (ping_node t own n s)
