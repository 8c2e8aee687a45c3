-- ===== src/Tracker/Timeouts.antt =====
-- The loops of reads of the UDP tracker, and what a failed connect leaves.
use bget.Common.{
  ℕ, suc, ◌<◌, true, false, not, if◌then◌else◌, Option, none, some, ◌≡◌, ◌≢◌, refl, arith, ap, ◌∙◌,
}
use bget.Common.Go.{Result, ok, err, panic}
use bget.Peer.Wire.{Bytes}
use bget.Tracker.Udp.{
  Read, timed_out, running, ConnectResp, AnnResp, wait_connect, wait_announce, UdpTracker, UdpError,
  Network, connect, announce, announce_udp, announce_behind, with_peers, AnnReq, ann_req, max_reads,
  udp_base_timeout,
}

-- Both loops of reads end within three, for time-outs of 15, 30 and 60 seconds, whatever the network does:
-- with a larger bound they do the same, and three do.
pub wait_connect-wait_announce :
    (fuel : ℕ) (connects : ℕ → Read ConnectResp) (announces : ℕ → Read AnnResp)
    → (wait_connect (suc (suc (suc fuel))) connects 0 udp_base_timeout
        ≡ wait_connect max_reads connects 0 udp_base_timeout)
      × (wait_connect max_reads connects 0 udp_base_timeout ≢ running)
      × (wait_announce (suc (suc (suc fuel))) announces 0 udp_base_timeout
          ≡ wait_announce max_reads announces 0 udp_base_timeout)
      × (wait_announce max_reads announces 0 udp_base_timeout ≢ running)
unfolding wait_connect wait_announce
wait_connect-wait_announce fuel connects announces =
    (ground arith, (λ h. ground arith), ground arith, (λ h. ground arith))

connect_timed_out :
    (w : Network) (t : UdpTracker)
    → w.dials ≡ true
    → w.writes ≡ true
    → ((n : ℕ) → w.connects n ≡ timed_out)
    → connect w t ≡ (some UdpError.network, record t { conn = true; tran_id = w.random })
unfolding connect wait_connect
connect_timed_out w t dials writes silent = rw (dials, writes, silent 0, silent 1, silent 2)

announce_udp-fresh :
    (w : Network) (t s : UdpTracker) (event : ℕ) (e : UdpError)
    → t.conn ≡ false
    → connect w t ≡ (some e, s)
    → announce_udp w t event ≡ (err e, s, none)
unfolding announce_udp
announce_udp-fresh w t s event e fresh lost = rw (announce_udp, fresh, lost)

with_peers-request :
    (r : Result UdpError Bytes × UdpTracker × Option AnnReq) → (with_peers r).2 ≡ r.2
with_peers-request (ok bytes, t, req) = refl
with_peers-request (err e, t, req) = refl
with_peers-request (panic, t, req) = refl

announce_udp-again :
    (v : Network) (s : UdpTracker) (event : ℕ)
    → s.conn ≡ true
    → v.writes ≡ true
    → 0 < event
    → (announce_udp v s event).2 ≡ some (ann_req s event)
unfolding announce_udp
announce_udp-again v s event kept sends h =
    ap (λ r. r.2) direct ∙ with_peers-request (announce v s event) ∙ asks
  where
    direct : announce_udp v s event ≡ with_peers (announce v s event)
    direct =
        ap
          (λ b.
            if not b
            then announce_behind v event (connect v s)
            else with_peers (announce v s event))
          kept

    asks : (announce v s event).2 ≡ some (ann_req s event)
    asks = unfold announce in ground (arith, sends)

-- Where the dial and the writes succeed and every read of a tracker without a connection times out, Announce
-- returns an error, and the next Announce, for another event than EventNone, does not connect again: it
-- writes a request with the connection id from before.
pub announce_udp-connect :
    (w v : Network) (t : UdpTracker) (event later : ℕ)
    → t.conn ≡ false
    → w.dials ≡ true
    → w.writes ≡ true
    → ((n : ℕ) → w.connects n ≡ timed_out)
    → v.writes ≡ true
    → 0 < later
    → ((announce_udp w t event).0 ≡ err UdpError.network)
      × ((announce_udp v (announce_udp w t event).1 later).2
          ≡ some (ann_req (record t { tran_id = w.random }) later))
unfolding ann_req
announce_udp-connect w v t event later fresh dials writes silent sends h =
    let s = record t { conn = true; tran_id = w.random } in
    let first =
      announce_udp-fresh w t s event UdpError.network fresh
        (connect_timed_out w t dials writes silent) in
    (
      ap (λ r. r.0) first,
      ap (λ r. (announce_udp v r.1 later).2) first ∙ announce_udp-again v s later refl sends h,
    )
