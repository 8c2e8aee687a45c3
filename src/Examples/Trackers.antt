-- ===== src/Examples/Trackers.antt =====
-- The theorems on trackers and on the addresses of a task at concrete replies.
use bget.Common.{ℕ, zero, suc, true, false, List, [], ◌∷◌, ◌++◌, none, some, ◌≡◌, ◌≢◌, refl, arith}
use bget.Common.Go.{Result, ok, err, panic}
use bget.Peer.Wire.{Bytes}
use bget.Tracker.{conv_addrs, event_none, event_start, event_stop}
use bget.Tracker.Addrs.{texts, conv_addrs_lem}
use bget.Tracker.Manager.{Manager, start, announce}
use bget.Tracker.Failover.{start_lem, announce-Erring, Erring}
use bget.Tracker.Udp.{
  Network, UdpTracker, UdpError, Read, timed_out, wait_connect, wait_announce, running, max_reads,
  udp_base_timeout, announce_udp, ann_req,
}
use bget.Tracker.Timeouts.{wait_connect-wait_announce, announce_udp-connect}
use bget.Meta.{get_announce}
use bget.Task.{announce_slots}
use bget.Task.Slots.{announce_slots-get_announce}

-- 10.0.0.1:80 and 10.0.0.2:81
abbrev two_addrs : Bytes
two_addrs = 10 ∷ 0 ∷ 0 ∷ 1 ∷ 0 ∷ 80 ∷ 10 ∷ 0 ∷ 0 ∷ 2 ∷ 0 ∷ 81 ∷ []

conv_addrs_example : conv_addrs two_addrs ≡ some (texts 1 two_addrs ++ [] ∷ [])
conv_addrs_example = conv_addrs_lem 1 two_addrs refl

-- The tracker 0 always fails, and any other answers with its number.
abbrev numbered : ℕ → ℕ → ℕ → Result ℕ (List ℕ) × ℕ
numbered zero q event = (err 7, 0)
numbered (suc t) q event = (ok (suc t ∷ []), suc t)

abbrev three : Manager ℕ
three = record { now = some 0; trackers = some 0 ∷ some 5 ∷ none ∷ [] }

start_example :
    start numbered three 1
    ≡ ok (some (5 ∷ []), record { now = some 1; trackers = some 0 ∷ some 5 ∷ none ∷ [] })
start_example =
    start_lem numbered three (some 0 ∷ []) (none ∷ []) (some 5) 1 (5 ∷ []) refl ((7, refl), tt) refl

announce-Erring_example : Erring numbered (announce numbered three 1 event_none)
announce-Erring_example = announce-Erring numbered three 1 event_none 0 0 7 refl refl refl

abbrev silent : {R : Type 0} → ℕ → Read R
silent n = timed_out

abbrev quiet_network : Network
quiet_network = record {
  dials = true;
  writes = true;
  random = 9;
  now = 100;
  connects = silent;
  announces = silent;
}

wait_connect-wait_announce_example :
    (wait_connect 5 silent 0 udp_base_timeout ≡ wait_connect max_reads silent 0 udp_base_timeout)
    × (wait_connect max_reads silent 0 udp_base_timeout ≢ running)
    × (wait_announce 5 silent 0 udp_base_timeout
        ≡ wait_announce max_reads silent 0 udp_base_timeout)
    × (wait_announce max_reads silent 0 udp_base_timeout ≢ running)
wait_connect-wait_announce_example = wait_connect-wait_announce 2 silent silent

abbrev new_udp_tracker : UdpTracker
new_udp_tracker = record { conn_id = 0; conn = false; tran_id = 0; next_time = 0 }

announce_udp-connect_example :
    ((announce_udp quiet_network new_udp_tracker event_start).0 ≡ err UdpError.network)
    × ((announce_udp quiet_network
          (announce_udp quiet_network new_udp_tracker event_start).1
          event_stop).2
        ≡ some (ann_req (record new_udp_tracker { tran_id = 9 }) event_stop))
announce_udp-connect_example =
    announce_udp-connect quiet_network quiet_network new_udp_tracker event_start event_stop refl
      refl refl (λ n. refl) refl (omega arith)

-- Two addresses in one list beside the announce address: three addresses for two slots.
announce_slots_example : announce_slots (b'a' ∷ []) (((b'b' ∷ []) ∷ (b'c' ∷ []) ∷ []) ∷ []) ≡ panic
unfolding get_announce
announce_slots_example =
    announce_slots-get_announce (b'a' ∷ []) (((b'b' ∷ []) ∷ (b'c' ∷ []) ∷ []) ∷ [])
