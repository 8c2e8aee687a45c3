-- ===== src/Peer/Manager/Counted.antt =====
-- peer/manager.go: what handlePiece makes of a block, over the file system of one file.
use bget.Common.{
  ℕ, ◌+◌, Bool, not, ltb, ◌==◌, ◌||◌, ◌&&◌, if◌then◌else◌, List, [], ◌++◌, length, get_or, set, ◌≡◌,
}
use bget.Common.Go.{Result, ok, err, panic, Returns}
use bget.Common.Map.{nat_eq}
use bget.Bitmap.{Bitmap}
use bget.Filesystem.{Block}
use bget.Filesystem.Piece.{Bytes}
use bget.Filesystem.Piece
use bget.Filesystem.Save.{Os, FsError}
use bget.Filesystem.Store.{Disk}
use bget.Filesystem.Appending.{view}
use bget.Peer.Manager.{Session, Storage, HandlerError}
use bget.Peer.Manager.Handlers.{saved, not_saved}
use bget.Peer.Manager.Stored.{file_storage, save_error}

-- The block is for no piece, or does not begin where the contents of its piece end.
abbrev pub refused : List Bytes → Block → Bool
refused v b = ltb (length v) b.index || not (length (get_or v b.index []) == b.begin)

-- The contents with the block, which is not taken either where its piece stays empty.
abbrev pub taken : List Bytes → Block → Bool
taken v b = not (refused v b) && not (length (get_or v b.index [] ++ b.bytes) == 0)

abbrev pub stored : List Bytes → Block → List Bytes
stored v b = if taken v b then set v b.index (get_or v b.index [] ++ b.bytes) else v

abbrev pub counted : List Bytes → Block → ℕ
counted v b = if taken v b then length b.bytes else 0

module _ (st : Storage) where
  open st use {Disk}

  -- The session `s` with the block counted, or its peer closed, and the storage as it is.
  abbrev Leaves : Session Disk → ℕ → Bool → Result HandlerError (Session Disk) → Type 0
  Leaves s l shut r =
      Returns r
        (λ t. (t.m.disk ≡ s.m.disk) × (t.m.download ≡ s.m.download + l) × (t.p.closed ≡ shut))

module _ (os : Os) (sha1 : Bytes → Bytes) where
  abbrev On : Type 0
  On = Session (Disk os sha1 [])

  abbrev fs : Storage
  fs = file_storage os sha1 []

  -- What handlePiece does with the answer of the store.
  abbrev answered : ℕ → Block → On → Result FsError ℕ → Result HandlerError On
  answered now b s (ok l) = saved fs now l b s
  answered now b s (err e) = not_saved fs (save_error e) b s
  answered now b s panic = panic

  abbrev Acts : On → Block → On → Type 0
  Acts s b t =
      (view os sha1 t.m.disk ≡ stored (view os sha1 s.m.disk) b)
      × (t.m.download ≡ s.m.download + counted (view os sha1 s.m.disk) b)
      × (t.p.closed ≡ refused (view os sha1 s.m.disk) b)
