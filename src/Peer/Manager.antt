-- ===== src/Peer/Manager.antt =====
-- peer/manager.go and peer/peer.go: the state of a torrent's manager and of one peer.
-- A handler works on a session: the manager, the peer that the message came from, and what it has
-- handed to `sendMessage` for that peer so far, in the order of the calls (the goroutines that write it
-- may overtake each other). The run loop looks the peer up, and puts it back.
pub mod Requests
pub mod Handlers
pub mod Once
pub mod OnceHandlers
pub mod Blocks
pub mod Faults
pub mod Start
pub mod Choke
pub mod Run
pub mod Arrivals
pub mod Ends
pub mod Shut
pub mod Rounds
pub mod Stored
pub mod Counted
use bget.Common.{ℕ, Bool, List}
use bget.Common.Go.{Result}
use bget.Common.Int.{ℤ}
use bget.Bitmap.{Bitmap}
use bget.Peer.Wire.{Bytes}
use bget.Peer.Message.{Request, Outgoing}

-- peer.state
pub data PeerState : Type 0 where
  init ready running stop : PeerState

-- manager.state; `unset` is the 0 of a new manager, which is none of the constants.
pub data TaskState : Type 0 where
  unset init upload_only ready running stop_err : TaskState

-- `closed` says that the channel `closing` is closed.
pub record Peer : Type 0 where
  pub id : Bytes
  pub addr : Bytes
  pub fast_extension : Bool
  pub is_interest : Bool
  pub is_choke : Bool
  pub fast_set : List ℕ
  pub state : PeerState
  pub bitmap : Bitmap
  pub closed : Bool
  pub download : ℕ
  pub upload : ℕ
  pub have_req : Bool

-- What the manager's handlers know of the error of `SavePiece`: the values that they compare with, and
-- any other.
pub data SaveError : Type 0 where
  invalid_index wrong_order piece_check other : SaveError

-- The storage that the manager is given: saving a block returns the number of bytes, or an error.
pub record Storage : Type 1 where
  pub Disk : Type 0
  pub save_piece : Disk → ℕ → ℕ → Bytes → Disk × Result SaveError ℕ

-- What a handler's caller sees in place of a new state: an error that the run loop closes the manager
-- on, or the end of the process by `logger.Fatalln`.
pub data HandlerError : Type 0 where
  unknown_message fatal : HandlerError
  storage : SaveError → HandlerError

-- `memory` is what was sent to the channel `memc`, and `reads` the blocks that a goroutine is to read
-- from the storage.
pub record Manager (Disk : Type 0) : Type 0 where
  pub unchoke : List Bytes
  pub interest : List (Bytes × Bool)
  pub disk : Disk
  pub requests : List (ℕ × Request)
  pub reject_request : List (ℕ × Request)
  pub peer_request : List (Bytes × List Bytes)
  pub piece_num : ℕ
  pub piece_length : ℕ
  pub download : ℕ
  pub upload : ℕ
  pub left : ℕ
  pub state : TaskState
  pub need : Bitmap
  pub finish : Bitmap
  pub memory : List ℤ
  pub reads : List Request

pub record Session (Disk : Type 0) : Type 0 where
  pub m : Manager Disk
  pub p : Peer
  pub out : List Outgoing
