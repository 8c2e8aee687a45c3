-- ===== src/Examples/Storing.antt =====
-- The theorems on files and pieces at a torrent of two files.
use bget.Common.{
  ◌≢◌, true, false, List, [], ◌∷◌, Option, some, ◌≡◌, refl, arith, length, All, replicate,
}
use bget.Common.Go.{ok, Returns}
use bget.Filesystem.Piece.{Bytes, new_piece, new_pieces}
use bget.Filesystem.Layout.{FileInfo, FileSystem, new_file_system, query_file, new_file}
use bget.Filesystem.Pieces.{write_all, StartsAtZero, write_never_completes, new_file_system_begin}
use bget.Bitmap.{new_empty_bitmap}
use bget.Meta.{file_list}
use bget.Meta.Files.{Placed, file_list_lem}

abbrev first_file : FileInfo
first_file = record { path = (b'a' ∷ []) ∷ []; path_utf8 = []; length = 5; download = true }

abbrev second_file : FileInfo
second_file = record { path = (b'b' ∷ []) ∷ []; path_utf8 = []; length = 4; download = false }

abbrev two_files : List FileInfo
two_files = first_file ∷ second_file ∷ []

-- Three hashes, of pieces of four bytes.
abbrev hashes : Bytes
hashes = replicate 60 7

abbrev stored : FileSystem
stored = record {
  path = b'.' ∷ b'/' ∷ [];
  files =
      new_file 0 hashes 2 0 (b'a' ∷ []) first_file
      ∷ new_file 0 hashes 1 1 (b'b' ∷ []) second_file
      ∷ [];
  piece_num = 3;
  piece_length = 4;
  disk_map = new_empty_bitmap 3;
}

-- A stand-in for SHA-1 and for filepath.Abs.
abbrev sum : Bytes → Bytes
sum b = replicate 20 (length b)

abbrev same_path : Bytes → Option Bytes
same_path p = some p

file_list_example : Returns (file_list 4 two_files) (Placed 4 0 two_files)
file_list_example = file_list_lem 4 two_files (omega arith)

no_clash : sum [] ≢ replicate 20 7
no_clash e = cc

write_never_completes_example :
    (write_all sum [] (new_piece (replicate 20 7)) ((1 ∷ 2 ∷ []) ∷ (3 ∷ []) ∷ [])).complete ≡ false
write_never_completes_example =
    write_never_completes sum [] (replicate 20 7) ((1 ∷ 2 ∷ []) ∷ (3 ∷ []) ∷ []) no_clash

made : new_file_system same_path two_files hashes 4 (b'.' ∷ []) ≡ ok (some stored)
unfolding new_file_system
made = refl

new_file_system_begin_example :
    All StartsAtZero stored.files × (length stored.files ≡ length two_files)
new_file_system_begin_example =
    new_file_system_begin same_path two_files hashes 4 (b'.' ∷ []) stored made

found : query_file stored 1 ≡ some (new_file 0 hashes 2 0 (b'a' ∷ []) first_file)
unfolding query_file new_pieces
found = refl

abbrev alone : FileSystem
alone = record stored { files = new_file 0 hashes 2 0 (b'a' ∷ []) first_file ∷ [] }
