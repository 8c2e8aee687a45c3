-- ===== src/Filesystem.antt =====
-- filesystem/: the pieces of the torrent, and the files that they make up.
use bget.Common.{ℕ, List}
pub mod Piece
pub mod Layout
pub mod Pieces
pub mod Search
pub mod Save
pub mod Store
pub mod Quiet
pub mod Appends
pub mod Appending
pub mod Refines

-- Index and Begin come from uint32 fields, or from a request that does: never negative.
pub record Block : Type 0 where
  pub index : ℕ
  pub begin : ℕ
  pub bytes : List ℕ
