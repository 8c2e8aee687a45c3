-- ===== src/Tracker.antt =====
-- tracker/: the addresses in a tracker's reply (tracker.go), with the manager of the trackers of a task
-- (manager.go) and the UDP tracker (udp.go) below it.
use bget.Common.{
  ℕ, zero, suc, ◌+◌, ◌*◌, ◌/◌, ◌%◌, not, ◌||◌, ◌==◌, ltb, if◌then◌else◌, List, [], ◌∷◌, ◌++◌,
  Option, none, some, length, take, drop, get_or, ◌^◌, bit_or,
}
use bget.Common.Decimal.{decimal}
use bget.Utils.{dotted}
use bget.Peer.Wire.{Bytes}
pub mod Addrs
pub mod Manager
pub mod Failover
pub mod Udp
pub mod Timeouts

abbrev pub event_none : ℕ
event_none = 0

abbrev pub event_complete : ℕ
event_complete = 1

abbrev pub event_start : ℕ
event_start = 2

abbrev pub event_stop : ℕ
event_stop = 3

-- `net.JoinHostPort` on the text of an IPv4 address, which has no colon.
abbrev pub join_host_port : Bytes → ℕ → Bytes
join_host_port host port = host ++ (b':' ∷ decimal port)

-- The text of the first six bytes.
unfoldable pub address : Bytes → Bytes
unfolding dotted
address bytes =
    let p = bit_or (get_or bytes 4 0 * 2 ^ 8 % 2 ^ 16) (get_or bytes 5 0) in
    join_host_port (dotted (take 4 bytes)) p

-- The slots of the result, with the data that is left; the loop leaves a slot empty unless more than six
-- bytes are left.
unfoldable pub conv_each : ℕ → Bytes → List Bytes
unfolding address
conv_each zero bytes = []
conv_each (suc n) bytes =
    (if ltb 6 (length bytes) then address bytes else []) ∷ conv_each n (drop 6 bytes)

-- `none` is a nil slice.
unfoldable pub conv_addrs : Bytes → Option (List Bytes)
unfolding conv_each
conv_addrs bytes =
    if ltb (length bytes) 6 || not (length bytes % 6 == 0)
    then none
    else some (conv_each (length bytes / 6) bytes)
