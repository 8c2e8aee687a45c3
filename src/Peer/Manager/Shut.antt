-- ===== src/Peer/Manager/Shut.antt =====
-- peer/manager.go: the run loop's `close`, and a message that it does not know.
use bget.Common.{
  ℕ, ◌+◌, Bool, true, false, if◌then◌else◌, List, [], ◌∷◌, Option, some, length, ◌≡◌, refl, arith,
  All, ◌⊎◌, inl, inr,
}
use bget.Common.Go.{ok, err}
use bget.Common.Map.{lookup, string_eq}
use bget.Peer.Wire.{Bytes}
use bget.Peer.Receive.{MessageWithId, recv_message}
use bget.Peer.Delivery.{Call, received, stream, recv_message-delivered}
use bget.Peer.Manager.{Peer, PeerState, TaskState, Session, Storage, HandlerError, unknown_message}
use bget.Peer.Manager.Handlers.{handle_message}
use bget.Peer.Manager.Choke.{Loop, is_running}
use bget.Peer.Manager.Run
use bget.Peer.Manager.Run.{Event, returned, run, rounds, step, step_message, close, close_peers}

-- The channel `closing` of each running peer is open, and all of them closed.
abbrev pub Open : Bytes × Peer → Type 0
Open (k, p) = (is_running p.state ≡ false) ⊎ (p.closed ≡ false)

abbrev pub all_closed : List (Bytes × Peer) → List (Bytes × Peer)
all_closed [] = []
all_closed ((k, p) ∷ ps) =
    (k, if is_running p.state then record p { closed = true } else p) ∷ all_closed ps

close_peers-Open :
    (ps : List (Bytes × Peer))
    → All Open ps
    → close_peers {E = HandlerError} ps ≡ ok (all_closed ps)
unfolding close_peers
close_peers-Open [] h = refl
close_peers-Open ((k, p) ∷ ps) (o, h) = ground (arith, close_peers-Open ps h)

module _ (st : Storage) (sort : (Peer → Peer → Bool) → List Peer → List Peer) (sha1 : Bytes → Bytes)
    (fuel : ℕ) (ip_of : Bytes → Option Bytes) (info : Bytes) where
  open st use {Disk}

  -- The loop behind `close`.
  abbrev pub shut : Loop Disk → Loop Disk
  shut l = record l {
    m = record l.m { state = TaskState.init };
    peers = all_closed l.peers;
    closing = true;
  }

  close-Open :
      (l : Loop Disk)
      → All Open l.peers
      → l.closing ≡ false
      → close st sort sha1 fuel ip_of info l ≡ ok (shut l)
  unfolding close
  close-Open l h c = rw (close_peers-Open l.peers h, c) refl

  step_message_unknown :
      (now start : ℕ) (msg : MessageWithId) (l : Loop Disk) (p : Peer)
      → lookup msg.peer_id l.peers ≡ some p
      → p.state ≡ PeerState.running
      → All Open l.peers
      → l.closing ≡ false
      → handle_message st now start (Run.session st sort sha1 fuel ip_of info p l) msg
        ≡ err unknown_message
      → step_message st sort sha1 fuel ip_of info now start msg l
        ≡ ok (shut l, some (returned (some unknown_message)))
  unfolding step_message
  step_message_unknown now start msg l p found running h c e = ground (arith, close-Open l h c)

  handle_message_unknown :
      (now start : ℕ) (s : Session Disk) (addr : Bytes) (k : ℕ) (c : Call)
      → (c ≡ Call.interest) ⊎ (c ≡ Call.no_interest)
      → handle_message st now start s (received addr k c) ≡ err unknown_message
  unfolding handle_message
  handle_message_unknown now start s addr k c (inl e) = rw e refl
  handle_message_unknown now start s addr k c (inr e) = rw e refl

  arrives :
      (fast : Bool) (addr : Bytes) (clock : ℕ → ℕ) (c : Call)
      → (c ≡ Call.interest) ⊎ (c ≡ Call.no_interest)
      → recv_message fast addr clock (length (stream (c ∷ [])) + 1) 0 (stream (c ∷ []))
        ≡ received addr (clock 0) c ∷ []
  arrives fast addr clock c (inl e) =
      rw (e, recv_message-delivered fast addr clock (Call.interest ∷ []) (tt, tt))
  arrives fast addr clock c (inr e) =
      rw (e, recv_message-delivered fast addr clock (Call.no_interest ∷ []) (tt, tt))

  -- The bytes of a peer's `interest` or `noInterest` are one message for the loop that receives it. Where
  -- the sender is a running peer that the manager knows, and the channels `closing` of the manager and of
  -- its running peers are open, this message ends the run loop: it closes all of these channels, sets the
  -- manager's state to taskInit and returns errUnknowMsaage, whatever else was to come.
  pub interest_ends_manager :
      (fast : Bool) (clock : ℕ → ℕ) (now start : ℕ) (l : Loop Disk) (addr : Bytes) (p : Peer)
      (c : Call) (es : List (Event Disk))
      → (c ≡ Call.interest) ⊎ (c ≡ Call.no_interest)
      → lookup addr l.peers ≡ some p
      → p.state ≡ PeerState.running
      → All Open l.peers
      → l.closing ≡ false
      → (recv_message fast addr clock (length (stream (c ∷ [])) + 1) 0 (stream (c ∷ []))
          ≡ received addr (clock 0) c ∷ [])
        × (run st sort sha1 fuel ip_of info
              (Event.message now start (received addr (clock 0) c) ∷ es)
              l
            ≡ ok (shut l, some (returned (some unknown_message))))
  unfolding run rounds step
  interest_ends_manager fast clock now start l₀ addr p c es which found running h unclosed =
      let l : Loop Disk = record l₀ { m = record l₀.m { state = TaskState.running } } in
      (
        arrives fast addr clock c which,
        rw
            (step_message_unknown now start (received addr (clock 0) c) l p found running h unclosed
              (handle_message_unknown now start (Run.session st sort sha1 fuel ip_of info p l) addr
                (clock 0) c which))
            refl,
      )
