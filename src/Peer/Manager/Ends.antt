-- ===== src/Peer/Manager/Ends.antt =====
-- How a remote peer ends the run loop of a manager.
use bget.Common.{
  ℕ, ◌≤◌, Bool, true, List, [], ◌∷◌, ◌++◌, Option, none, some, ◌≡◌, refl, arith, ap, ◌∙◌,
}
use bget.Common.Go.{ok, Returns}
use bget.Common.Int.{pos}
use bget.Common.Map.{lookup, insert, delete, string_eq, lookup-insert_self, lookup-delete_self}
use bget.Bitmap.{must_get_bit}
use bget.Filesystem.{Block}
use bget.Peer.Wire.{Bytes}
use bget.Peer.Message.{Request, msg_request, msg_cancel}
use bget.Peer.Receive.{MessageWithId, asked}
use bget.Peer.Manager.{Peer, PeerState, TaskState, Session, Storage}
use bget.Peer.Manager.Handlers.{handle_message, handle_req, handle_cancel, hash, holds, waiting}
use bget.Peer.Manager.Choke.{Loop}
use bget.Peer.Manager.Run
use bget.Peer.Manager.Run.{Event, Ending, returned, run, rounds, step, step_message, step_read}

-- A request or a cancel of the peer `a`, as the loop receives it.
abbrev pub about : ℕ → Bytes → Request → MessageWithId
about id a r = record { peer_id = a; id = id; payload = asked (some r) }

module _ (st : Storage) (sort : (Peer → Peer → Bool) → List Peer → List Peer) (sha1 : Bytes → Bytes)
    (fuel : ℕ) (ip_of : Bytes → Option Bytes) (info : Bytes) where
  open st use {Disk}

  -- The session after a request that is let through.
  abbrev admitted : Request → Session Disk → Session Disk
  admitted r s = record s {
    m = record s.m {
      peer_request =
          insert (hash r) (waiting (lookup (hash r) s.m.peer_request) ++ s.p.addr ∷ [])
            s.m.peer_request;
      reads = s.m.reads ++ r ∷ [];
    };
  }

  abbrev cancelled : Request → Session Disk → Session Disk
  cancelled r s = record s { m = record s.m { peer_request = delete (hash r) s.m.peer_request } }

  handle_req-admitted :
      (s : Session Disk) (r : Request)
      → r.index ≤ s.m.piece_num
      → must_get_bit s.m.finish (pos r.index) ≡ ok true
      → holds s.p.addr s.m.unchoke ≡ true
      → handle_req st s r ≡ ok (admitted r s)
  unfolding handle_req
  handle_req-admitted s r le done held = ground arith

  handle_cancel-cancelled :
      (s : Session Disk) (r : Request) (ps : List Bytes)
      → r.index ≤ s.m.piece_num
      → lookup (hash r) s.m.peer_request ≡ some ps
      → handle_cancel st s r ≡ ok (cancelled r s)
  unfolding handle_cancel
  handle_cancel-cancelled s r ps le known = ground arith

  -- The step of a message that its handler takes.
  step_message-handled :
      (now start : ℕ) (msg : MessageWithId) (l : Loop Disk) (p : Peer) (s : Session Disk)
      → lookup msg.peer_id l.peers ≡ some p
      → p.state ≡ PeerState.running
      → handle_message st now start (Run.session st sort sha1 fuel ip_of info p l) msg ≡ ok s
      → step_message st sort sha1 fuel ip_of info now start msg l
        ≡ ok (Run.put_back st sort sha1 fuel ip_of info msg.peer_id s l, none)
  unfolding step_message
  step_message-handled now start msg l p s found running e = ground arith

  step_read-missing :
      (b : Block) (l : Loop Disk)
      → lookup (hash (Run.request_of st sort sha1 fuel ip_of info b)) l.m.peer_request ≡ none
      → step_read st sort sha1 fuel ip_of info b l ≡ ok (l, some (returned none))
  unfolding step_read
  step_read-missing b l e = ground arith

  -- A running peer whom we have unchoked asks for a block of a finished piece and cancels it before the
  -- storage has read it: when the block comes, the run loop returns with a nil error. It leaves the
  -- manager in taskRunning and its channel `closing` open.
  pub cancelled_read_ends_run :
      (t₁ t₂ n₁ n₂ : ℕ) (l : Loop Disk) (p : Peer) (r : Request) (b : Block)
      → lookup p.addr l.peers ≡ some p
      → p.state ≡ PeerState.running
      → holds p.addr l.m.unchoke ≡ true
      → r.index ≤ l.m.piece_num
      → must_get_bit l.m.finish (pos r.index) ≡ ok true
      → hash (Run.request_of st sort sha1 fuel ip_of info b) ≡ hash r
      → Returns
          (run st sort sha1 fuel ip_of info
            (Event.message t₁ n₁ (about msg_request p.addr r)
              ∷ Event.message t₂ n₂ (about msg_cancel p.addr r)
              ∷ Event.read b
              ∷ [])
            l)
          (λ e.
            (e.1 ≡ some (returned none))
            × (e.0.m.state ≡ TaskState.running)
            × (e.0.closing ≡ l.closing))
  unfolding run rounds step handle_message
  cancelled_read_ends_run t₁ t₂ n₁ n₂ l₀ p r b found running held le done same =
      let l : Loop Disk = record l₀ { m = record l₀.m { state = TaskState.running } } in
      let s₁ = admitted r (Run.session st sort sha1 fuel ip_of info p l) in
      let l₁ = Run.put_back st sort sha1 fuel ip_of info p.addr s₁ l in
      let s₂ = cancelled r (Run.session st sort sha1 fuel ip_of info p l₁) in
      rw
        (
          step_message-handled t₁ n₁ (about msg_request p.addr r) l p s₁ found running
              (handle_req-admitted (Run.session st sort sha1 fuel ip_of info p l) r le done held),
          step_message-handled t₂ n₂ (about msg_cancel p.addr r) l₁ p s₂
              (lookup-insert_self p.addr p l₀.peers) running
              (handle_cancel-cancelled (Run.session st sort sha1 fuel ip_of info p l₁) r
                (waiting (lookup (hash r) l₀.m.peer_request) ++ p.addr ∷ []) le
                (lookup-insert_self (hash r) _ l₀.m.peer_request)),
          step_read-missing b (Run.put_back st sort sha1 fuel ip_of info p.addr s₂ l₁) (
              ap (λ (h : Bytes). lookup h s₂.m.peer_request) same
              ∙ lookup-delete_self (hash r) s₁.m.peer_request),
        )
        (refl, refl, refl)
