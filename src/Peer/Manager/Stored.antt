-- ===== src/Peer/Manager/Stored.antt =====
-- peer/manager.go and filesystem/filesystem.go: the manager over its file system, whose errors it tells
-- apart.
use bget.Common.{◌/◌, Option, none, some, replicate, ℕ, List, [], length}
use bget.Common.Go.{Result, ok, err, panic, ◌>>=◌}
use bget.Filesystem.{Block}
use bget.Filesystem.Piece.{Bytes, piece_check}
use bget.Filesystem.Save.{Os, FsError}
use bget.Filesystem.Store.{Disk, save_piece}
use bget.Filesystem.Appends
use bget.Filesystem.Appends.{append}
use bget.Bitmap.{Error, new_empty_bitmap}
use bget.Filesystem.Layout.{FileInfo, new_file_system, need}
use bget.Peer.Manager.{
  Manager, TaskState, Storage, SaveError, invalid_index, wrong_order, piece_check as check_failed,
  other,
}

-- The comparisons of handlePiece with the errors of the package filesystem.
abbrev pub save_error : FsError → SaveError
save_error FsError.invalid_index = invalid_index
save_error FsError.wrong_order = wrong_order
save_error (FsError.piece piece_check) = check_failed
save_error _ = other

abbrev pub save_result : Result FsError ℕ → Result SaveError ℕ
save_result (ok l) = ok l
save_result (err e) = err (save_error e)
save_result panic = panic

module _ (os : Os) (sha1 : Bytes → Bytes) (get_buffer : Bytes) where
  open os use {World}

  abbrev pub file_storage : Storage
  file_storage = record {
    Disk = Disk os sha1 get_buffer;
    save_piece = λ d k begin b.
        let (d', r) = save_piece os sha1 get_buffer d k begin b in (d', save_result r);
  }

  -- NewManager; `none` is nil, for a file system that cannot be made.
  unfoldable pub new_manager :
      World
      → (Bytes → Option Bytes)
      → List FileInfo
      → Bytes
      → ℕ
      → Bytes
      → Result Error (Option (Manager (Disk os sha1 get_buffer)))
  new_manager world abs files pieces pl path = do
    made ← new_file_system abs files pieces pl path
    elim made [
      | none ↦ ok none
      | some fs ↦
          (need fs >>= λ wanted. ok (
            some (record {
              unchoke = replicate 4 [];
              interest = [];
              disk = record { world = world; fs = fs };
              requests = [];
              reject_request = [];
              peer_request = [];
              piece_num = length pieces / 20;
              piece_length = pl;
              download = 0;
              upload = 0;
              left = 0;
              state = TaskState.unset;
              need = wanted;
              finish = new_empty_bitmap (length pieces / 20);
              memory = [];
              reads = [];
            })))
    ]

abbrev pub as_call : Block → Appends.Block
as_call b = record { index = b.index; begin = b.begin; bytes = b.bytes }
