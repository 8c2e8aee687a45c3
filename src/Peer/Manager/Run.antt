-- ===== src/Peer/Manager/Run.antt =====
-- peer/manager.go: `Run` with `close`, as a step for each case of its `select`, and the calls that hand
-- something to it. The order in which the cases come up is the list of the events.
use bget.Common.{
  ℕ, ◌+◌, Bool, true, false, if◌then◌else◌, List, [], ◌∷◌, ◌++◌, Option, none, some, length,
}
use bget.Common.Go.{Result, ok, err, panic, ◌>>=◌}
use bget.Common.Int.{pos}
use bget.Common.Map.{lookup, insert, string_eq}
use bget.Filesystem.{Block}
use bget.Peer.Wire.{Bytes}
use bget.Peer.Message.{Request, Outgoing, piece}
use bget.Peer.Receive.{MessageWithId}
use bget.Peer.Manager.{
  Peer, PeerState, TaskState, Session, Storage, HandlerError, SaveError, fatal, storage,
}
use bget.Peer.Manager.Handlers.{handle_message, hash, negate}
use bget.Peer.Manager.Start.{init_peer}
use bget.Peer.Manager.Choke.{Loop, Status, Sent, is_running, update_unchoke, optim_unchoke}

-- What a case of the select received. `dumped` carries what `Dump` leaves behind and returns, and whether
-- the receiver of `memc` is there before a call of Close.
pub data Event (Disk : Type 0) : Type 0 where
  arrived : Peer → Event Disk
  message : ℕ → ℕ → MessageWithId → Event Disk
  read : Block → Event Disk
  status_asked choke_tick optimistic_tick close_asked : Event Disk
  dumped : Disk → ℕ → Option SaveError → Bool → Event Disk
  -- The connection of a peer has failed: `close` of peer.go, called by the goroutine that reads it.
  lost : Bytes → Event Disk

-- `returned none` is a return with a nil error; `blocked` is a wait that nothing ends.
pub data Ending : Type 0 where
  returned : Option HandlerError → Ending
  blocked : Ending

abbrev pub count_running : List (Bytes × Peer) → ℕ
count_running [] = 0
count_running ((k, p) ∷ ps) = (if is_running p.state then 1 else 0) + count_running ps

abbrev pub addressed : Bytes → List Outgoing → Sent
addressed a [] = []
addressed a (o ∷ os) = (a, o) ∷ addressed a os

-- `Close` of each running peer: closing a channel for the second time panics.
unfoldable pub close_peers : {E : Type 0} → List (Bytes × Peer) → Result E (List (Bytes × Peer))
close_peers [] = ok []
close_peers ((k, p) ∷ ps) = do
  later ← close_peers ps
  if is_running p.state
      then (if p.closed then panic else ok ((k, record p { closed = true }) ∷ later))
      else ok ((k, p) ∷ later)

-- The blocks of one read: each of the peers that wait for it gets it.
unfoldable pub serve_block :
    Block → List Bytes → List (Bytes × Peer) → ℕ → Sent → List (Bytes × Peer) × ℕ × Sent
serve_block b [] peers upload out = (peers, upload, out)
serve_block b (a ∷ rest) peers upload out =
    let l = length b.bytes in
    serve_block b rest
      (elim (lookup a peers) [
        | none ↦ peers
        | some p ↦ insert a (record p { upload = p.upload + l }) peers
      ])
      (upload + l) (out ++ (a, piece b.index b.begin b.bytes) ∷ [])

module _ (st : Storage) (sort : (Peer → Peer → Bool) → List Peer → List Peer) (sha1 : Bytes → Bytes)
    (fuel : ℕ) (ip_of : Bytes → Option Bytes) (info : Bytes) where
  open st use {Disk}

  abbrev pub Stepped : Type 0
  Stepped = Result HandlerError (Loop Disk × Option Ending)

  abbrev pub go_on : Loop Disk → Stepped
  go_on l = ok (l, none)

  abbrev pub stop : Loop Disk → Ending → Stepped
  stop l e = ok (l, some e)

  -- `close`
  unfoldable pub close : Loop Disk → Result HandlerError (Loop Disk)
  unfolding close_peers
  close l = do
    peers ← close_peers l.peers
    if l.closing
        then panic
        else ok
            (record l { m = record l.m { state = TaskState.init }; peers = peers; closing = true })

  -- The session of a peer goes back into the loop.
  abbrev pub put_back : Bytes → Session Disk → Loop Disk → Loop Disk
  put_back a s l = record l {
    m = s.m;
    peers = insert a s.p l.peers;
    sent = l.sent ++ addressed s.p.addr s.out;
  }

  abbrev pub session : Peer → Loop Disk → Session Disk
  session p l = record { m = l.m; p = p; out = [] }

  abbrev pub is_ready : PeerState → Bool
  is_ready PeerState.ready = true
  is_ready _ = false

  -- A peer that is not ready is left to a goroutine that greets it and brings it here again; where the
  -- loop of generateFastSet does not end, neither does this step.
  unfoldable pub step_arrived : Peer → Loop Disk → Stepped
  step_arrived p l =
      if is_ready p.state
      then elim (init_peer sha1 fuel (ip_of p.addr) info (session p l)) [
        | none ↦ stop l blocked
        | some r ↦
            (r >>= λ s.
            go_on (put_back p.addr (record s { p = record s.p { state = PeerState.running } }) l))
      ]
      else go_on l

  -- An error of a handler closes the manager and ends the loop.
  abbrev pub handled : Bytes → Loop Disk → Result HandlerError (Session Disk) → Stepped
  handled a l (ok s) = go_on (put_back a s l)
  handled a l (err fatal) = err fatal
  handled a l (err e) = (close l >>= λ l'. stop l' (returned (some e)))
  handled a l panic = panic

  unfoldable pub step_message : ℕ → ℕ → MessageWithId → Loop Disk → Stepped
  step_message now start msg l = elim (lookup msg.peer_id l.peers) [
    | none ↦ err fatal
    | some p ↦
        if is_running p.state
        then handled msg.peer_id l (handle_message st now start (session p l) msg)
        else go_on l
  ]

  abbrev pub request_of : Block → Request
  request_of b = record {
    index = b.index;
    begin = pos b.begin;
    length = pos (length b.bytes);
    create_at = 0;
  }

  unfoldable pub step_read : Block → Loop Disk → Stepped
  unfolding serve_block
  step_read b l = elim (lookup (hash (request_of b)) l.m.peer_request) [
    | none ↦ stop l (returned none)
    | some waiting ↦
        let (peers, upload, out) = serve_block b waiting l.peers l.m.upload [] in
        go_on (record l { m = record l.m { upload = upload }; peers = peers; sent = l.sent ++ out })
  ]

  abbrev pub lose : Option Peer → Bytes → Loop Disk → Loop Disk
  lose none a l = l
  lose (some p) a l = record l { peers = insert a (record p { state = PeerState.stop }) l.peers }

  abbrev pub status_of : Loop Disk → Status
  status_of l = record {
    peer_num = count_running l.peers;
    download = l.m.download;
    upload = l.m.upload;
    left = l.m.left;
  }

  unfoldable pub step_dumped : Disk → ℕ → Option SaveError → Bool → Loop Disk → Stepped
  step_dumped disk n e taken l =
      let l' = record l { m = record l.m { disk = disk } } in
      if taken
      then go_on (record l { m = record l'.m { memory = l.m.memory ++ negate n ∷ [] } })
      else if l.closing
      then stop l' blocked
      else stop l' (returned (elim e [ none ↦ none | some x ↦ some (storage x) ]))

  -- One round of the loop. A receive from the closed channel `closing` gives a nil channel, and sending
  -- to that blocks for ever. The goroutine that `update` starts, which dumps the pieces, is an event.
  unfoldable pub step : Event Disk → Loop Disk → Stepped
  unfolding step_arrived step_message step_read step_dumped
  step (arrived p) l = step_arrived p l
  step (message now start msg) l = step_message now start msg l
  step (read b) l = step_read b l
  step status_asked l = go_on (record l { answers = l.answers ++ status_of l ∷ [] })
  step (dumped disk n e taken) l = step_dumped disk n e taken l
  step choke_tick l = (update_unchoke sort l >>= go_on)
  step optimistic_tick l = go_on (optim_unchoke l)
  step close_asked l = if l.closing then stop l blocked else stop l (returned none)
  step (lost a) l = go_on (lose (lookup a l.peers) a l)

  abbrev pub and_then : (Loop Disk → Stepped) → Stepped → Stepped
  and_then rest (ok (l, none)) = rest l
  and_then rest r = r

  unfoldable pub rounds : List (Event Disk) → Loop Disk → Stepped
  rounds [] l = go_on l
  rounds (e ∷ es) l = and_then (rounds es) (step e l)

  unfoldable pub run : List (Event Disk) → Loop Disk → Stepped
  unfolding rounds
  run es l = rounds es (record l { m = record l.m { state = TaskState.running } })
