-- ===== src/Examples/Saving.antt =====
-- Blocks that are saved in a file system of one file of three pieces, through the manager too.
use bget.Common.{ℕ, ◌+◌, true, false, List, [], ◌∷◌, none, ◌≡◌, refl, length, replicate}
use bget.Common.Bytes.{equal}
use bget.Filesystem.{Block}
use bget.Filesystem.Piece.{Bytes, new_piece}
use bget.Filesystem.Layout.{File, FileStatus}
use bget.Bitmap.{new_empty_bitmap}
use bget.Common.Int.{pos}
use bget.Filesystem.Save.{Os, done}
use bget.Filesystem.Store.{Disk}
use bget.Filesystem.Appends
use bget.Filesystem.Appends.{append, run}
use bget.Filesystem.Appending.{view, Fresh}
use bget.Filesystem.Refines.{save_one, save_piece-append}
use bget.Examples.Managers.{over_disk, remote}
use bget.Peer.Manager.{Session}

-- A system on which every call succeeds; its world counts the bytes that are written.
abbrev easy : Os
easy = record {
  World = ℕ;
  open_file = λ w p. (w, done 3);
  create_file = λ w p. (w, done 3);
  truncate = λ w h n. (w, done tt);
  seek = λ w h n k. (w, done tt);
  write = λ w h b. (w + length b, length b, done tt);
  read_at = λ w h i n. done [];
  is_not_exist = λ e. false;
  spare = λ b. [];
}

-- A stand-in for SHA-1.
abbrev hashed : Bytes → Bytes
hashed b = replicate 20 (length b)

abbrev three_pieces : File
three_pieces = record {
  begin = 0;
  begin_offset = 0;
  length = 10;
  piece_length = 0;
  path = b'a' ∷ [];
  pieces =
      new_piece (replicate 20 7) ∷ new_piece (replicate 20 7) ∷ new_piece (replicate 20 7) ∷ [];
  downloaded = 0;
  fd = none;
  status = FileStatus.ignore;
  free_memory = pos 0;
  need = false;
}

abbrev one_file : Disk easy hashed []
one_file = record {
  world = 0;
  fs = record {
    path = [];
    files = three_pieces ∷ [];
    piece_num = 3;
    piece_length = 4;
    disk_map = new_empty_bitmap 3;
  };
}

-- Two blocks of a piece, one that leaves a gap, and one of a piece that is not there.
abbrev blocks : List Appends.Block
blocks =
    record { index = 1; begin = 0; bytes = 5 ∷ 6 ∷ [] }
    ∷ record { index = 1; begin = 2; bytes = 7 ∷ 8 ∷ 9 ∷ [] }
    ∷ record { index = 2; begin = 4; bytes = 1 ∷ [] }
    ∷ record { index = 4; begin = 0; bytes = 1 ∷ [] }
    ∷ []

is_Fresh : Fresh easy hashed one_file.fs.files
unfolding equal
is_Fresh = (refl, refl, ((refl, refl, refl), ((refl, refl, refl), ((refl, refl, refl), tt))))

save_piece-append_example :
    (view easy hashed (run (save_one easy hashed) blocks one_file).0
      ≡ (run append blocks (view easy hashed one_file)).0)
    × ((run (save_one easy hashed) blocks one_file).1
        ≡ (run append blocks (view easy hashed one_file)).1)
save_piece-append_example = save_piece-append easy hashed blocks one_file is_Fresh

appended : (run append blocks ([] ∷ [] ∷ [] ∷ [])).0 ≡ [] ∷ (5 ∷ 6 ∷ 7 ∷ 8 ∷ 9 ∷ []) ∷ [] ∷ []
appended = refl

abbrev saving : Session (Disk easy hashed [])
saving = record { m = over_disk one_file; p = record remote { have_req = true }; out = [] }

abbrev first_block : Block
first_block = record { index = 1; begin = 0; bytes = 5 ∷ 6 ∷ [] }
