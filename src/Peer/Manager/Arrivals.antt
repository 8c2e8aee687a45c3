-- ===== src/Peer/Manager/Arrivals.antt =====
-- peer/manager.go: the calls that hand something to the run loop or wait for it, `AddPeer`, `AddAddrPeer`,
-- `GetStatus` and `Close`.
use bget.Common.{
  ℕ, Bool, true, false, not, ◌==◌, if◌then◌else◌, List, [], ◌∷◌, ◌++◌, Option, none, some,
  replicate, get_or, bit_and,
}
use bget.Common.Go.{Result, ok, panic}
use bget.Peer.Wire.{Bytes}
use bget.Peer.Manager.{Peer, PeerState, TaskState, Storage, HandlerError}
use bget.Peer.Manager.Start.{fresh_peer, new_peer}
use bget.Peer.Manager.Choke.{Loop, Status}
use bget.Peer.Manager.Run
use bget.Peer.Manager.Run.{Event, Ending}

abbrev pub is_on : TaskState → Bool
is_on TaskState.running = true
is_on _ = false

-- The peer of a connection that was accepted, with the eight reserved bytes of its handshake; `none`
-- where the manager is not running.
unfoldable pub add_peer : TaskState → Bytes → Bytes → Option Peer
add_peer state addr extension =
    if is_on state
    then some (record (fresh_peer (replicate 20 0) addr) {
      fast_extension = not (bit_and (get_or extension 7 0) 4 == 0);
      is_choke = true;
      state = PeerState.running;
    })
    else none

abbrev pub greeted : Option Peer → List Peer
greeted none = []
greeted (some p) = record p { state = PeerState.ready } ∷ []

-- The peers that are ready, in the order of the addresses; the goroutines may overtake each other.
-- `greet` is the two handshakes, `none` where one of them fails.
unfoldable pub greet_each : (Peer → Option Peer) → List Bytes → List Peer
greet_each greet [] = []
greet_each greet (a ∷ rest) =
    elim (new_peer none a) [ none ↦ [] | some p ↦ greeted (greet p) ] ++ greet_each greet rest

unfoldable pub add_addr_peer : (Peer → Option Peer) → TaskState → List Bytes → List Peer
unfolding greet_each
add_addr_peer greet state addrs = if is_on state then greet_each greet addrs else []

module _ (st : Storage) (sort : (Peer → Peer → Bool) → List Peer → List Peer) (sha1 : Bytes → Bytes)
    (fuel : ℕ) (ip_of : Bytes → Option Bytes) (info : Bytes) where
  open st use {Disk}

  -- With the loop waiting for it: the loop ends, and the manager is closed after it. A manager whose
  -- channel `closing` is closed cannot be sent to.
  unfoldable pub close_manager : Loop Disk → Result HandlerError (Loop Disk)
  close_manager l =
      if not (is_on l.m.state)
      then ok l
      else if l.closing
      then panic
      else Run.close st sort sha1 fuel ip_of info l

  -- With the loop waiting for it; `none` is nil.
  unfoldable pub get_status : Loop Disk → Option Status
  get_status l =
      if is_on l.m.state then some (Run.status_of st sort sha1 fuel ip_of info l) else none
