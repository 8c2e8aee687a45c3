-- ===== src/Task/Life.antt =====
-- task.go: `newTask`, `start` and `stop` of a task over its manager; what the trackers are told is left
-- out. download.go: the table of the tasks.
use bget.Common.{Bool, true, false, if◌then◌else◌, List, [], ◌∷◌, Option, none, some, ℕ}
use bget.Common.Go.{Result, ok, err, panic, ◌>>=◌}
use bget.Common.Map.{lookup, insert, string_eq}
use bget.Common.Int.{ℤ}
use bget.Filesystem.Layout.{FileInfo}
use bget.Bencode.Decoded.{atoi}
use bget.Meta
use bget.Peer.Wire.{Bytes}
use bget.Peer.Manager.{Manager, Peer, Storage, HandlerError}
use bget.Peer.Manager.Choke.{Loop}
use bget.Peer.Manager.Run.{Event, Ending, run}
use bget.Peer.Manager.Arrivals.{get_status, close_manager}

-- task.state
pub data Stage : Type 0 where
  state_init state_running state_stop : Stage

-- `looping` says that a goroutine is in the run loop of the manager.
pub record Task (Disk : Type 0) : Type 0 where
  pub hash : Bytes
  pub files : List FileInfo
  pub loop : Loop Disk
  pub looping : Bool
  pub stage : Stage

-- Behind the slice of addresses: `none` is nil, where NewManager gives nil.
unfoldable pub new_task :
    {Disk : Type 0} → Bytes → List FileInfo → Option (Manager Disk) → Option (Task Disk)
new_task hash files none = none
new_task hash files (some m) = some (record {
  hash = hash;
  files = files;
  loop = record { m = m; peers = []; sent = []; answers = []; closing = false };
  looping = false;
  stage = Stage.state_init;
})

-- What a call of a task comes to: it may wait for ever.
pub data Called (A : Type 0) : Type 0 where
  back : A → Called A
  waits : Called A

-- Whether the loop is still there after its events.
abbrev pub goes_on : Option Ending → Bool
goes_on none = true
goes_on (some e) = false

module _ (st : Storage) (sort : (Peer → Peer → Bool) → List Peer → List Peer) (sha1 : Bytes → Bytes)
    (fuel : ℕ) (ip_of : Bytes → Option Bytes) (info : Bytes) where
  open st use {Disk}

  -- The task after the events that its manager has seen since.
  unfoldable pub start : List (Event Disk) → Task Disk → Result HandlerError (Task Disk)
  start events t = elim t.stage [
    | Stage.state_init ↦ do
      (l, e) ← run st sort sha1 fuel ip_of info events t.loop
      ok (record t { loop = l; looping = goes_on e; stage = Stage.state_running })
    | _ ↦ ok t
  ]

  -- GetStatus of a manager that runs waits for its loop, and gives nil where it does not run.
  abbrev pub stop_running : Task Disk → Result HandlerError (Called (Task Disk))
  stop_running t = elim (get_status st sort sha1 fuel ip_of info t.loop) [
    | none ↦ panic
    | some status ↦
        if t.looping
        then (close_manager st sort sha1 fuel ip_of info t.loop >>= λ l.
            ok (back (record t { loop = l; looping = false; stage = Stage.state_init })))
        else ok waits
  ]

  unfoldable pub stop : Task Disk → Result HandlerError (Called (Task Disk))
  stop t = elim t.stage [ Stage.state_running ↦ stop_running t | _ ↦ ok (back t) ]

  -- download.go: the table, in which a task may be nil. `no_torrent` is the error of NewTorrent, and
  -- `fatal` the end of the process by `logger.Fatalln`.
  abbrev pub Tasks : Type 0
  Tasks = List (Bytes × Option (Task Disk))

  pub data DownloadError : Type 0 where
    no_torrent create_task_repeat fatal task_not_found : DownloadError

  -- The address of the server, which SplitHostPort has split into an ip and a port, `none` where it has
  -- returned an error, and the task that newTask makes for the ip and the port's number.
  abbrev pub at_address :
      Option (Bytes × Bytes) → (Bytes → ℤ → Option (Task Disk)) → Option (Option (Task Disk))
  at_address none make = none
  at_address (some (ip, port)) make =
      let (p, is_number) = atoi port in if is_number then some (make ip p) else none

  -- `Add`: a torrent that was read is its id, with newTask of it.
  unfoldable pub add :
      Option (Bytes × Bytes)
      → Option (Bytes × (Bytes → ℤ → Option (Task Disk)))
      → Tasks
      → Tasks × Result DownloadError Bytes
  add split none tasks = (tasks, err no_torrent)
  add split (some (hash, make)) tasks = elim (lookup hash tasks) [
    | some t ↦ (tasks, err create_task_repeat)
    | none ↦ elim (at_address split make) [
      | none ↦ (tasks, err fatal)
      | some made ↦ (insert hash made tasks, ok hash)
    ]
  ]

  unfoldable pub get_file_list : Bytes → Tasks → Result DownloadError (List FileInfo)
  get_file_list id tasks = elim (lookup id tasks) [
    | none ↦ err task_not_found
    | some t ↦ elim t [ none ↦ panic | some t' ↦ ok t'.files ]
  ]

  abbrev pub or_same : Result Meta.FileError (List FileInfo) → List FileInfo → List FileInfo
  or_same (ok fs) old = fs
  or_same _ old = old

  -- The error of SetFile is dropped.
  unfoldable pub set_each : List (ℤ × Bool) → List FileInfo → List FileInfo
  set_each [] fs = fs
  set_each ((i, on) ∷ rest) fs = set_each rest (or_same (Meta.set_file i on fs) fs)

  unfoldable pub set_files : Bytes → List (ℤ × Bool) → Tasks → Result DownloadError Tasks
  unfolding set_each
  set_files id [] tasks = ok tasks
  set_files id (o ∷ os) tasks = elim (lookup id tasks) [
    | none ↦ ok tasks
    | some t ↦ elim t [
      | none ↦ panic
      | some t' ↦ ok (insert id (some (record t' { files = set_each (o ∷ os) t'.files })) tasks)
    ]
  ]

  -- A call of a task in the table; one that is nil is read through.
  abbrev pub on_task :
      {A : Type 0}
      → Bytes
      → Tasks
      → (Task Disk → Result HandlerError A)
      → Result HandlerError (Option A)
  on_task id tasks call = elim (lookup id tasks) [
    | none ↦ ok none
    | some t ↦ elim t [ none ↦ panic | some t' ↦ (call t' >>= λ a. ok (some a)) ]
  ]

  unfoldable pub start_task :
      Bytes → List (Event Disk) → Tasks → Result HandlerError (Option (Task Disk))
  start_task id events tasks = on_task id tasks (start events)

  unfoldable pub stop_task : Bytes → Tasks → Result HandlerError (Option (Called (Task Disk)))
  stop_task id tasks = on_task id tasks stop
