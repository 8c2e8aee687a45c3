-- ===== src/Meta.antt =====
-- meta/torrent.go: the list of the files of a torrent with their places, the choice of the files to
-- download, and the trackers.
use bget.Common.{
  ℕ, zero, suc, ◌+◌, ◌*◌, ◌/◌, ◌%◌, Bool, true, false, not, ◌||◌, leb, ◌==◌, if◌then◌else◌, List,
  [], ◌∷◌, ◌++◌, length, set, get_elem?, Option, none, some,
}
use bget.Common.Go.{Result, ok, err, panic, ◌>>=◌}
use bget.Common.Int.{ℤ, pos, negsuc, ltb_ℤ, leb_ℤ}
use bget.Filesystem.Layout.{FileInfo}
pub mod Files
pub mod Texts

-- meta/file.go: a file with its first piece and its offset in it.
pub record Place : Type 0 where
  pub path : List (List ℕ)
  pub length : ℕ
  pub begin : ℕ
  pub offset : ℕ

pub data FileError : Type 0 where
  file_error : FileError

-- The loop of FileList from a file on; a division by a piece length of 0 panics. The lengths are taken as
-- not negative, and their sums as below 2 ^ 63: the code's int64 is not wrapped.
unfoldable pub place_files : ℕ → List FileInfo → ℕ → ℕ → Result FileError (List Place)
place_files pl [] begin offset = ok []
place_files pl (f ∷ fs) begin offset =
    let next = f.length % pl in
    let full = begin + f.length / pl in
    let later = place_files pl fs (if next == 0 then full else full + 1) next in
    if pl == 0 then panic else do
      rest ← later
      ok (record { path = f.path; length = f.length; begin = begin; offset = offset } ∷ rest)

unfoldable pub file_list : ℕ → List FileInfo → Result FileError (List Place)
unfolding place_files
file_list pl fs = place_files pl fs 0 0

-- The files as the call leaves them.
unfoldable pub set_file : ℤ → Bool → List FileInfo → Result FileError (List FileInfo)
set_file (negsuc i) on fs = err file_error
set_file (pos i) on fs = elim (get_elem? fs i) [
  | none ↦ err file_error
  | some f ↦ ok (set fs i (record f { download = on }))
]

abbrev pub set_download : ℤ → List FileInfo → Result FileError (List FileInfo)
set_download i fs = set_file i true fs

abbrev pub set_ignore : ℤ → List FileInfo → Result FileError (List FileInfo)
set_ignore i fs = set_file i false fs

abbrev pub concat : List (List (List ℕ)) → List (List ℕ)
concat [] = []
concat (v ∷ vs) = v ++ concat vs

-- The announce address, unless it is empty, and then the lists of more.
unfoldable pub get_announce : List ℕ → List (List (List ℕ)) → List (List ℕ)
get_announce [] more = concat more
get_announce (c ∷ cs) more = (c ∷ cs) ∷ concat more
