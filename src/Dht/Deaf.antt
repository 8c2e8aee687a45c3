-- ===== src/Dht/Deaf.antt =====
-- No answer to a query of the DHT is ever understood.
use bget.Common.{
  ℕ, zero, suc, Bool, true, false, if◌then◌else◌, List, [], ◌∷◌, ◌++◌, Option, none, some, ◌≡◌, ◌<◌,
  refl, arith, All,
}
use mathlib.Core.Path.{subst⁻¹}
use bget.Common.Go.{Result, ok, err, panic}
use bget.Common.State.{follow}
use bget.Bencode.Encode.{marshal}
use bget.Bencode.Scanner.{fresh, reset, step_in, state_begin_value}
use bget.Bencode.Valid.{Verdict, valid, invalid, fault, running, rounds, check_from, check_valid}
use bget.Dht.{Bytes, Node}
use bget.Dht.Rpc.{
  RpcError, Request, network, decode, request_value, query, query_find_node, query_get_peers,
  query_announce_peer, find_node_req, get_peers_req, announce_peer_req,
}
use bget.Common.Int.{ℤ}
use bget.Dht.Calls
use bget.Dht.Calls.{
  Net, Decoding, Wire, get_buffer, into, request, check_status, ping, ping_node, find_node,
  get_peers, announce_peer, demoted,
}

-- The buffer starts with a zero byte.
abbrev pub Zeroed : Bytes → Type 0
Zeroed [] = ⊥
Zeroed (x ∷ b) = x ≡ 0

get_buffer-Zeroed :
    (pool : List Bytes)
    → All Zeroed pool
    → Zeroed (get_buffer pool).0 × All Zeroed (get_buffer pool).1
unfolding get_buffer
get_buffer-Zeroed [] h = (refl, tt)
get_buffer-Zeroed (b ∷ pool) h = h

append-Zeroed : (b c : Bytes) → Zeroed b → Zeroed (b ++ c)
append-Zeroed [] c h = absurd h
append-Zeroed (x ∷ b) c h = h

-- No value starts with a zero byte.
abbrev IsRefused : Verdict → Type 0
IsRefused (invalid e) = Unit
IsRefused _ = ⊥

check_from-zero :
    (fuel : ℕ) (b : Bytes) → 0 < fuel → IsRefused (check_from fuel (reset fresh) 0 (0 ∷ b))
unfolding check_from reset step_in state_begin_value
check_from-zero zero b h = absurd (omega arith)
check_from-zero (suc fuel) b h = ground arith

into-Zeroed : {A : Type 0} (f : Bytes → Option A) (b : Bytes) → Zeroed b → into f b ≡ none
unfolding into check_valid
into-Zeroed f [] h = absurd h
into-Zeroed f (x ∷ b) h = rw h (refused _ (check_from-zero (rounds (0 ∷ b)) b (omega arith)))
  where
    refused : (v : Verdict) → IsRefused v → elim v [ valid s ↦ f (0 ∷ b) | _ ↦ none ] ≡ none
    refused (invalid e) h = refl
    refused fault h = absurd h
    refused running h = absurd h
    refused (valid s) h = absurd h

-- An error, and no panic.
abbrev pub Fails : {E A : Type 0} → Result E A → Type 0
Fails (err e) = Unit
Fails _ = ⊥

module _ (net : Net) (dec : Decoding) where
  open net use {World}

  -- The buffers of the pool stay as they are, and the call gives no result.
  abbrev pub Unanswered : {A : Type 0} → Wire net dec × Result RpcError A → Type 0
  Unanswered (s, r) = All Zeroed s.pool × Fails r

  answer-none :
      {A : Type 0} (body : Bytes → Option A) (r : Request) (whole : Bytes) (s : Wire net dec)
      → Zeroed whole
      → (w : World) × (Calls.answer net dec body r whole s ≡ (record s { world = w }, err decode))
  answer-none body r whole s z =
      let w : World = ((Calls.restart net dec s).0).world in
      (w, rw (into-Zeroed dec.response whole z) refl)

  receive-Unanswered :
      {A : Type 0} (body : Bytes → Option A) (r : Request) (s : Wire net dec)
      → All Zeroed s.pool
      → Unanswered (follow (Calls.receive net dec s) (Calls.answer net dec body r))
  receive-Unanswered body r s h =
      let buffer = get_buffer-Zeroed s.pool h in
      let given = (net.read_all s.world).1 in
      let whole = (get_buffer s.pool).0 ++ given in
      let z : Zeroed whole = append-Zeroed (get_buffer s.pool).0 given buffer.0 in
      by_end body r
        (record { world = (net.read_all s.world).0; pool = whole ∷ (get_buffer s.pool).1 }) whole
        (net.read_all s.world).2 z (z, buffer.1)
    where
      by_end :
          {A : Type 0} (body : Bytes → Option A) (r : Request) (t : Wire net dec) (whole : Bytes)
          (ended : Bool)
          → Zeroed whole
          → All Zeroed t.pool
          → Unanswered (
              follow
                (let x : Wire net dec × Result RpcError Bytes =
                    (t, (if ended then ok whole else err network)) in
                  x)
                (Calls.answer net dec body r))
      by_end body r t whole true z h = let (w, e) = answer-none body r whole t z in rw e (h, tt)
      by_end body r t whole false z h = (h, tt)

  -- What is read is appended to the zeros of the buffer, and no message starts with a zero.
  request-Unanswered :
      {A : Type 0} (body : Bytes → Option A) (r : Request) (given : Bytes) (s : Wire net dec)
      → marshal (request_value r) ≡ ok given
      → All Zeroed s.pool
      → Unanswered (request net dec body r s)
  unfolding request
  request-Unanswered {A} body r given s e h =
      rw e (by_write (net.write s.world given).0 (net.write s.world given).1)
    where
      by_write :
          (w : World) (went : Bool)
          → Unanswered {A = A} (
              follow
                (let x : Wire net dec × Result RpcError (Unit {0}) =
                    (record s { world = w }, (if went then ok tt else err network)) in
                  x)
                (λ _ t. follow (Calls.receive net dec t) (Calls.answer net dec body r)))
      by_write w true = receive-Unanswered body r (record s { world = w }) h
      by_write w false = (h, tt)

  Unanswered-follow :
      {A B : Type 0} (r : Wire net dec × Result RpcError A) (k : A → Calls.Call net dec B)
      → Unanswered r
      → Unanswered (follow r k)
  Unanswered-follow (s, ok a) k (h, f) = absurd f
  Unanswered-follow (s, err e) k h = h
  Unanswered-follow (s, panic) k (h, f) = absurd f

  pub ping-Unanswered :
      (t own : Bytes) (s : Wire net dec) → All Zeroed s.pool → Unanswered (ping net dec t own s)
  unfolding ping marshal request_value
  ping-Unanswered t own s h = request-Unanswered dec.id_body _ _ s refl h

  -- On any connection, and with any decoding of valid messages, each of the four calls of a krpcClient
  -- returns an error, whatever is written and read, where the buffers in the pool start with a zero
  -- byte, as new ones do; the call leaves them so.
  pub calls-Unanswered :
      (t own target info_hash token : Bytes) (port : ℤ) (s : Wire net dec)
      → All Zeroed s.pool
      → Unanswered (ping net dec t own s)
        × Unanswered (find_node net dec t own target s)
        × Unanswered (get_peers net dec t own info_hash s)
        × Unanswered (announce_peer net dec t own (some port) info_hash token s)
  unfolding find_node get_peers announce_peer marshal request_value
  calls-Unanswered t own target info_hash token port s h = (
    ping-Unanswered t own s h,
    Unanswered-follow (request net dec dec.nodes_body _ s) _ (
        request-Unanswered dec.nodes_body (query t query_find_node (find_node_req own target)) _ s
          refl h),
    Unanswered-follow (request net dec dec.peers_body _ s) _ (
        request-Unanswered dec.peers_body (query t query_get_peers (get_peers_req own info_hash)) _
          s refl h),
    request-Unanswered dec.id_body
        (query t query_announce_peer (announce_peer_req own info_hash port token)) _ s refl h,
  )

  ping_node-client :
      (t own : Bytes) (n : Node) (s : Wire net dec)
      → n.client ≡ true
      → ping_node net dec t own n s ≡ follow (ping net dec t own s) (Calls.checked net dec n)
  unfolding ping_node
  ping_node-client t own n s c = ground arith

  pub check_status-demoted :
      (t own : Bytes) (n : Node) (s : Wire net dec)
      → n.client ≡ true
      → All Zeroed s.pool
      → All Zeroed (check_status net dec t own n s).0.pool
        × ((check_status net dec t own n s).1 ≡ ok (record n { state = demoted n.state }))
  unfolding check_status
  check_status-demoted t own n s c h =
      subst⁻¹ Lowered (ping_node-client t own n s c)
        (lowered (ping net dec t own s) (ping-Unanswered t own s h))
    where
      Lowered : Wire net dec × Result RpcError Node → Type 0
      Lowered r =
          All Zeroed (Calls.after_ping net dec n r).0.pool
          × ((Calls.after_ping net dec n r).1 ≡ ok (record n { state = demoted n.state }))

      lowered :
          (r : Wire net dec × Result RpcError (Option Bytes))
          → Unanswered r
          → Lowered (follow r (Calls.checked net dec n))
      lowered (s, ok a) (h, f) = absurd f
      lowered (s, err e) (h, f) = (h, refl)
      lowered (s, panic) (h, f) = absurd f
