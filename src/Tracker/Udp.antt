-- ===== src/Tracker/Udp.antt =====
-- tracker/udp.go: a tracker over UDP. What the network does is a parameter: whether the dial and a write
-- succeed, the outcome of each read, and the numbers of the random source. Times are in seconds.
use bget.Common.{
  ℕ, zero, suc, ◌+◌, ◌*◌, Bool, true, false, not, ◌&&◌, ◌||◌, ltb, ◌==◌, if◌then◌else◌, List, [],
  Option, none, some, replicate,
}
use bget.Common.Go.{Result, ok, err, panic}
use bget.Peer.Wire.{Bytes}
use bget.Tracker.{conv_addrs, event_none}

pub data UdpError : Type 0 where
  udp_resp udp_time_out wait_time network : UdpError

pub record UdpTracker : Type 0 where
  pub conn_id : ℕ
  pub conn : Bool
  pub tran_id : ℕ
  pub next_time : ℕ

pub record ConnectResp : Type 0 where
  pub action : ℕ
  pub tran_id : ℕ
  pub connect_id : ℕ

pub record AnnResp : Type 0 where
  pub action : ℕ
  pub tran_id : ℕ
  pub interval : ℕ
  pub peers : Bytes

-- What one `binary.Read` of a whole reply comes to: a reply, a time-out, or another error.
pub data Read (R : Type 0) : Type 0 where
  got : R → Read R
  timed_out : Read R
  failed : Read R

-- What a loop of reads comes to; `running` is where its bound was too small.
pub data Waited (R : Type 0) : Type 0 where
  reply : R → Waited R
  refused : UdpError → Waited R
  nothing : Waited R
  running : Waited R

abbrev pub udp_base_timeout : ℕ
udp_base_timeout = 15

abbrev pub udp_wait_max_time : ℕ
udp_wait_max_time = 60

abbrev pub action_connect : ℕ
action_connect = 0

abbrev pub action_announce : ℕ
action_announce = 1

-- The loop of `connect`, with the number of reads before and the time-out of the next.
unfoldable pub wait_connect : ℕ → (ℕ → Read ConnectResp) → ℕ → ℕ → Waited ConnectResp
wait_connect zero reads n timeout = running
wait_connect (suc fuel) reads n timeout =
    let later = wait_connect fuel reads (suc n) (timeout * 2) in
    elim (reads n) [
      | got r ↦ reply r
      | failed ↦ refused udp_time_out
      | timed_out ↦ if ltb udp_wait_max_time (timeout * 2) then refused network else later
    ]

-- The loop of `announce`: a reply with the transaction 0 counts as none, and ends it without an error.
unfoldable pub wait_announce : ℕ → (ℕ → Read AnnResp) → ℕ → ℕ → Waited AnnResp
wait_announce zero reads n timeout = running
wait_announce (suc fuel) reads n timeout =
    let later = wait_announce fuel reads (suc n) (timeout * 2) in
    elim (reads n) [
      | got r ↦ if not (r.tran_id == 0) then reply r else nothing
      | failed ↦ refused network
      | timed_out ↦ if ltb udp_wait_max_time (timeout * 2) then refused udp_time_out else later
    ]

-- One call of `Announce`, as the network and the clock have it.
pub record Network : Type 0 where
  pub dials : Bool
  pub writes : Bool
  pub random : ℕ
  pub now : ℕ
  pub connects : ℕ → Read ConnectResp
  pub announces : ℕ → Read AnnResp

-- Each loop ends within this many reads.
abbrev pub max_reads : ℕ
max_reads = 3

-- The fields that `annReq` is given; the others stay 0, among them the info hash, the id and the port.
pub record AnnReq : Type 0 where
  pub connect_id : ℕ
  pub action : ℕ
  pub tran_id : ℕ
  pub event : ℕ
  pub info_hash : Bytes
  pub peer_id : Bytes
  pub port : ℕ

unfoldable pub ann_req : UdpTracker → ℕ → AnnReq
ann_req t event = record {
  connect_id = t.conn_id;
  action = action_announce;
  tran_id = t.tran_id;
  event = event;
  info_hash = replicate 20 0;
  peer_id = replicate 20 0;
  port = 0;
}

abbrev pub connected : UdpTracker → Waited ConnectResp → Option UdpError × UdpTracker
connected t (reply r) =
    if r.action == action_connect && t.tran_id == r.tran_id
    then (none, record t { conn_id = r.connect_id })
    else (some udp_resp, t)
connected t (refused e) = (some e, t)
connected t nothing = (none, t)
connected t running = (none, t)

unfoldable pub connect : Network → UdpTracker → Option UdpError × UdpTracker
unfolding wait_connect
connect w t =
    let t' = record t { conn = true; tran_id = w.random } in
    if not w.dials
    then (some network, record t { conn = false })
    else if not w.writes
    then (some network, t')
    else connected t' (wait_connect max_reads w.connects 0 udp_base_timeout)

abbrev pub replied : ℕ → UdpTracker → Waited AnnResp → Result UdpError Bytes × UdpTracker
replied now t (reply r) =
    if not (r.action == action_announce) || not (r.tran_id == t.tran_id)
    then (err udp_resp, t)
    else (ok r.peers, record t { next_time = now + r.interval })
replied now t (refused e) = (err e, t)
replied now t nothing = (ok [], t)
replied now t running = (ok [], t)

-- `announce`, with the request that it writes, if it comes to that.
unfoldable pub announce :
    Network → UdpTracker → ℕ → Result UdpError Bytes × UdpTracker × Option AnnReq
unfolding wait_announce ann_req
announce w t event =
    let r = replied w.now t (wait_announce max_reads w.announces 0 udp_base_timeout) in
    if event == event_none && ltb w.now t.next_time
    then (err wait_time, t, none)
    else if not w.writes
    then (err network, t, none)
    else (r.0, r.1, some (ann_req t event))

abbrev pub peers_of : Option (List Bytes) → Result UdpError (List Bytes)
peers_of none = err udp_resp
peers_of (some addrs) = ok addrs

abbrev pub with_peers :
    Result UdpError Bytes × UdpTracker × Option AnnReq
    → Result UdpError (List Bytes) × UdpTracker × Option AnnReq
with_peers (ok bytes, t, req) = (peers_of (conv_addrs bytes), t, req)
with_peers (err e, t, req) = (err e, t, req)
with_peers (panic, t, req) = (panic, t, req)

abbrev pub announce_behind :
    Network
    → ℕ
    → Option UdpError × UdpTracker
    → Result UdpError (List Bytes) × UdpTracker × Option AnnReq
announce_behind w event (some e, t) = (err e, t, none)
announce_behind w event (none, t) = with_peers (announce w t event)

-- `Announce`.
unfoldable pub announce_udp :
    Network → UdpTracker → ℕ → Result UdpError (List Bytes) × UdpTracker × Option AnnReq
unfolding connect announce
announce_udp w t event =
    if not t.conn then announce_behind w event (connect w t) else with_peers (announce w t event)
