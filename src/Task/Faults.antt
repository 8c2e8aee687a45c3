-- ===== src/Task/Faults.antt =====
-- Tasks that are nil, and tasks whose manager has ended by itself.
use bget.Common.{
  Bool, true, false, List, [], ◌∷◌, Option, none, some, ℕ, ◌≡◌, refl, arith, Bool-cases, inl, inr,
  if◌then◌else◌, All,
}
use mathlib.Core.Path.{subst}
use bget.Common.Go.{Result, ok, err, panic, Returns, ◌>>=◌}
use bget.Common.Map.{lookup, insert, string_eq, lookup-insert_self}
use bget.Common.Int.{ℤ}
use bget.Bencode.Decoded.{atoi}
use bget.Filesystem.{Block}
use bget.Filesystem.Layout.{FileInfo}
use bget.Peer.Wire.{Bytes}
use bget.Peer.Receive.{MessageWithId}
use bget.Peer.Manager.{Peer, PeerState, Session, Storage, HandlerError, TaskState}
use bget.Peer.Manager.Handlers.{handle_message}
use bget.Peer.Manager.Start.{init_peer}
use bget.Peer.Manager.Choke.{Loop, is_running, update_unchoke}
use bget.Peer.Manager.Run
use bget.Peer.Manager.Run.{
  Event, Ending, returned, run, rounds, step, step_message, step_read, step_arrived, close,
  close_peers,
}
use bget.Peer.Manager.Arrivals.{get_status}
use bget.Task.Life
use bget.Task.Life.{
  Task, Stage, goes_on, new_task, start, stop, add, get_file_list, start_task, stop_task,
}

module _ (st : Storage) (sort : (Peer → Peer → Bool) → List Peer → List Peer) (sha1 : Bytes → Bytes)
    (fuel : ℕ) (ip_of : Bytes → Option Bytes) (info : Bytes) where
  open st use {Disk}

  add_new :
      (ip port : Bytes) (p : ℤ) (hash : Bytes) (make : Bytes → ℤ → Option (Task Disk))
      (tasks : Life.Tasks st sort sha1 fuel ip_of info)
      → atoi port ≡ (p, true)
      → lookup hash tasks ≡ none
      → add st sort sha1 fuel ip_of info (some (ip, port)) (some (hash, make)) tasks
        ≡ (insert hash (make ip p) tasks, ok hash)
  unfolding add
  add_new ip port p hash make tasks number e = ground arith

  nil_panics :
      (hash : Bytes) (events : List (Event Disk)) (tasks : Life.Tasks st sort sha1 fuel ip_of info)
      → lookup hash tasks ≡ some none
      → (get_file_list st sort sha1 fuel ip_of info hash tasks ≡ panic)
        × (start_task st sort sha1 fuel ip_of info hash events tasks ≡ panic)
        × (stop_task st sort sha1 fuel ip_of info hash tasks ≡ panic)
  unfolding get_file_list start_task stop_task
  nil_panics hash events tasks e = ground arith

  -- Add of a new torrent that was read, for which NewManager gives nil (the address of the server being an
  -- ip and a number), returns its id with no error, and with the table that it leaves GetFileList, Start
  -- and Stop of that id panic.
  pub add_nil_task :
      (ip port : Bytes) (p : ℤ) (hash : Bytes) (files : List FileInfo) (events : List (Event Disk))
      (tasks : Life.Tasks st sort sha1 fuel ip_of info)
      → atoi port ≡ (p, true)
      → lookup hash tasks ≡ none
      → let (tasks', r) =
          add st sort sha1 fuel ip_of info
            (some (ip, port))
            (some (hash, λ ip p. new_task hash files none))
            tasks in
        (r ≡ ok hash)
        × (get_file_list st sort sha1 fuel ip_of info hash tasks' ≡ panic)
        × (start_task st sort sha1 fuel ip_of info hash events tasks' ≡ panic)
        × (stop_task st sort sha1 fuel ip_of info hash tasks' ≡ panic)
  unfolding new_task
  add_nil_task ip port p hash files events tasks number e =
      let (files_panic, start_panics, stop_panics) =
        nil_panics hash events (insert hash none tasks) (lookup-insert_self hash none tasks) in
      rw (add_new ip port p hash (λ ip p. none) tasks number e)
        (refl, files_panic, start_panics, stop_panics)

  abbrev Stepped : Type 0
  Stepped = Run.Stepped st sort sha1 fuel ip_of info

  -- Where the loop has returned an error, the manager is back in taskInit.
  abbrev pub ClosedByError : Stepped → Type 0
  ClosedByError (ok (l, some (returned (some e)))) = l.m.state ≡ TaskState.init
  ClosedByError (ok (l, some (returned none))) = Unit
  ClosedByError (ok (l, some Ending.blocked)) = Unit
  ClosedByError (ok (l, none)) = Unit
  ClosedByError (err e) = Unit
  ClosedByError panic = Unit

  abbrev pub IsNoDump : Event Disk → Type 0
  IsNoDump (Event.dumped d n e taken) = ⊥
  IsNoDump _ = Unit

  close-ClosedByError :
      (l : Loop Disk) (e : HandlerError)
      → ClosedByError (
          close st sort sha1 fuel ip_of info l >>= λ l'.
          Run.stop st sort sha1 fuel ip_of info l' (returned (some e)))
  unfolding close
  close-ClosedByError l e = by_peers (close_peers l.peers)
    where
      by_peers :
          (r : Result HandlerError (List (Bytes × Peer)))
          → ClosedByError (
              (r >>= λ peers.
              if l.closing
              then panic
              else ok (record l {
                m = record l.m { state = TaskState.init };
                peers = peers;
                closing = true;
              }))
              >>= λ l'. Run.stop st sort sha1 fuel ip_of info l' (returned (some e)))
      by_peers (ok ps) = elim (Bool-cases l.closing) [ inl c ↦ rw c tt | inr c ↦ rw c refl ]
      by_peers (err x) = tt
      by_peers panic = tt

  handled-ClosedByError :
      (a : Bytes) (l : Loop Disk) (r : Result HandlerError (Session Disk))
      → ClosedByError (Run.handled st sort sha1 fuel ip_of info a l r)
  handled-ClosedByError a l (ok s) = tt
  handled-ClosedByError a l (err HandlerError.fatal) = tt
  handled-ClosedByError a l (err HandlerError.unknown_message) =
      close-ClosedByError l HandlerError.unknown_message
  handled-ClosedByError a l (err (HandlerError.storage x)) =
      close-ClosedByError l (HandlerError.storage x)
  handled-ClosedByError a l panic = tt

  step_message-ClosedByError :
      (now start : ℕ) (msg : MessageWithId) (l : Loop Disk)
      → ClosedByError (step_message st sort sha1 fuel ip_of info now start msg l)
  unfolding step_message
  step_message-ClosedByError now start msg l = by_peer (lookup msg.peer_id l.peers)
    where
      by_peer :
          (o : Option Peer)
          → ClosedByError (elim o [
            | none ↦ err HandlerError.fatal
            | some p ↦
                if is_running p.state
                then Run.handled st sort sha1 fuel ip_of info msg.peer_id l
                    (handle_message st now start (Run.session st sort sha1 fuel ip_of info p l) msg)
                else ok (l, none)
          ])
      by_peer none = tt
      by_peer (some p) = elim (Bool-cases (is_running p.state)) [
        | inl on ↦ simp on (
            handled-ClosedByError msg.peer_id l
              (handle_message st now start (Run.session st sort sha1 fuel ip_of info p l) msg))
        | inr off ↦ simp off tt
      ]

  -- A call that goes on with what it gives.
  go_on-ClosedByError :
      (r : Result HandlerError (Loop Disk))
      → ClosedByError (r >>= Run.go_on st sort sha1 fuel ip_of info)
  go_on-ClosedByError (ok l) = tt
  go_on-ClosedByError (err e) = tt
  go_on-ClosedByError panic = tt

  step_read-ClosedByError :
      (b : Block) (l : Loop Disk) → ClosedByError (step_read st sort sha1 fuel ip_of info b l)
  unfolding step_read
  step_read-ClosedByError b l = ground arith

  step_arrived-ClosedByError :
      (p : Peer) (l : Loop Disk) → ClosedByError (step_arrived st sort sha1 fuel ip_of info p l)
  unfolding step_arrived
  step_arrived-ClosedByError p l =
      elim (Bool-cases (Run.is_ready st sort sha1 fuel ip_of info p.state)) [
        | inl ready ↦ simp ready (
            by_peer (
              init_peer sha1 fuel (ip_of p.addr) info
                (Run.session st sort sha1 fuel ip_of info p l)))
        | inr new ↦ simp new tt
      ]
    where
      by_peer :
          (o : Option (Result HandlerError (Session Disk)))
          → ClosedByError (elim o [
            | none ↦ ok (l, some Ending.blocked)
            | some r ↦
                (r >>= λ s. Run.go_on st sort sha1 fuel ip_of info (
                  Run.put_back st sort sha1 fuel ip_of info p.addr
                    (record s { p = record s.p { state = PeerState.running } })
                    l))
          ])
      by_peer none = tt
      by_peer (some (ok s)) = tt
      by_peer (some (err e)) = tt
      by_peer (some panic) = tt

  step-ClosedByError :
      (ev : Event Disk) (l : Loop Disk)
      → IsNoDump ev
      → ClosedByError (step st sort sha1 fuel ip_of info ev l)
  unfolding step
  step-ClosedByError (Event.arrived p) l h = step_arrived-ClosedByError p l
  step-ClosedByError (Event.message now start msg) l h = step_message-ClosedByError now start msg l
  step-ClosedByError (Event.read b) l h = step_read-ClosedByError b l
  step-ClosedByError Event.status_asked l h = tt
  step-ClosedByError (Event.dumped d n e taken) l h = absurd h
  step-ClosedByError Event.choke_tick l h = go_on-ClosedByError (update_unchoke sort l)
  step-ClosedByError Event.optimistic_tick l h = tt
  step-ClosedByError Event.close_asked l h = elim (Bool-cases l.closing) [
    | inl c ↦ rw c tt
    | inr c ↦ rw c tt
  ]
  step-ClosedByError (Event.lost a) l h = tt

  rounds-ClosedByError :
      (events : List (Event Disk)) (l : Loop Disk)
      → All IsNoDump events
      → ClosedByError (rounds st sort sha1 fuel ip_of info events l)
  unfolding rounds
  rounds-ClosedByError [] l h = tt
  rounds-ClosedByError (ev ∷ events) l h =
      through (step st sort sha1 fuel ip_of info ev l) (step-ClosedByError ev l h.0)
        (λ t. rounds-ClosedByError events t h.1)
    where
      through :
          (r : Stepped)
          → ClosedByError r
          → ((t : Loop Disk) → ClosedByError (rounds st sort sha1 fuel ip_of info events t))
          → ClosedByError (
              Run.and_then st sort sha1 fuel ip_of info
                (rounds st sort sha1 fuel ip_of info events)
                r)
      through (ok (t, none)) h k = k t
      through (ok (t, some e)) h k = h
      through (err e) h k = h
      through panic h k = h

  start_lem :
      (events : List (Event Disk)) (t : Task Disk) (l : Loop Disk) (e : Option Ending)
      → t.stage ≡ Stage.state_init
      → run st sort sha1 fuel ip_of info events t.loop ≡ ok (l, e)
      → start st sort sha1 fuel ip_of info events t
        ≡ ok (record t { loop = l; looping = goes_on e; stage = Stage.state_running })
  unfolding start
  start_lem events t l e fresh ended = ground arith

  stop_closed :
      (t : Task Disk)
      → t.stage ≡ Stage.state_running
      → t.loop.m.state ≡ TaskState.init
      → stop st sort sha1 fuel ip_of info t ≡ panic
  unfolding stop get_status
  stop_closed t on closed = ground arith

  -- A task that has been started, and whose run loop has ended with an error of a handler (nothing being
  -- dumped on the way), panics when it is stopped: GetStatus gives it nil.
  pub stop_after_error :
      (events : List (Event Disk)) (t : Task Disk) (l : Loop Disk) (e : HandlerError)
      → t.stage ≡ Stage.state_init
      → All IsNoDump events
      → run st sort sha1 fuel ip_of info events t.loop ≡ ok (l, some (returned (some e)))
      → Returns
          (start st sort sha1 fuel ip_of info events t)
          (λ t'. stop st sort sha1 fuel ip_of info t' ≡ panic)
  unfolding run
  stop_after_error events t l e fresh quiet ended =
      let t' : Task Disk = record t { loop = l; looping = false; stage = Stage.state_running } in
      let closed : l.m.state ≡ TaskState.init = subst ClosedByError ended (
        rounds-ClosedByError events
          (record t.loop { m = record t.loop.m { state = TaskState.running } }) quiet) in
      rw (start_lem events t l (some (returned (some e))) fresh ended) (stop_closed t' refl closed)
