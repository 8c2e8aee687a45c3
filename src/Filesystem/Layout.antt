-- ===== src/Filesystem/Layout.antt =====
-- filesystem/filesystem.go and file.go: the files over the pieces of the torrent (`NewFileSystem`,
-- `Need`, `queryFile`, `queryPiece`) and what is downloaded of a file; meta/torrent.go: `FileInfo`.
use bget.Common.{
  ℕ, zero, suc, ◌+◌, ◌-◌, ◌*◌, ◌/◌, ◌%◌, Bool, false, not, ◌&&◌, ltb, leb, ◌==◌, if◌then◌else◌,
  List, [], ◌∷◌, ◌++◌, Option, none, some, length, take, drop, get_elem?,
}
use mathlib.Core.Option
use bget.Common.Go.{Result, ok, err, panic, ◌>>=◌, index}
use bget.Common.Int.{ℤ, pos, negsuc, ◌+ℤ◌}
use bget.Bitmap.{Bitmap, Error, new_empty_bitmap, set_range_bit_on}
use bget.Filesystem.Piece.{Bytes, Piece, new_pieces}

pub record FileInfo : Type 0 where
  pub path : List Bytes
  pub path_utf8 : List Bytes
  pub length : ℕ
  pub download : Bool

pub data FileStatus : Type 0 where
  ignore download finish : FileStatus

-- `fd` is none for a nil handle. Nothing sets `piece_length`.
pub record File : Type 0 where
  pub begin : ℕ
  pub begin_offset : ℕ
  pub length : ℕ
  pub piece_length : ℕ
  pub path : Bytes
  pub pieces : List Piece
  pub downloaded : ℕ
  pub fd : Option ℕ
  pub status : FileStatus
  pub free_memory : ℤ
  pub need : Bool

pub record FileSystem : Type 0 where
  pub path : Bytes
  pub files : List File
  pub piece_num : ℕ
  pub piece_length : ℕ
  pub disk_map : Bitmap

unfoldable pub is_finish : File → Bool
is_finish f = leb f.length f.downloaded

unfoldable pub add_download : File → ℕ → File
add_download f n =
    let f' = record f { downloaded = f.downloaded + n } in
    if is_finish f' then record f' { status = FileStatus.finish } else f'

-- strings.Join(path, "/")
unfoldable pub join : List Bytes → Bytes
join [] = []
join (x ∷ []) = x
join (x ∷ y ∷ ys) = x ++ (b'/' ∷ join (y ∷ ys))

-- int((length-1)/pieceLength), which Go rounds towards 0.
abbrev pub last_piece : ℕ → ℕ → ℤ
last_piece zero pl = if pl == 1 then negsuc 0 else pos 0
last_piece (suc n) pl = pos (n / pl)

abbrev pub piece_count : ℕ → ℕ → ℕ
piece_count zero pl = if pl == 1 then 0 else 1
piece_count (suc n) pl = n / pl + 1

-- A file has a path, the UTF-8 one first.
abbrev pub path_of : List Bytes → List Bytes → Option Bytes
path_of [] [] = none
path_of [] (x ∷ xs) = some (join (x ∷ xs))
path_of (x ∷ xs) _ = some (join (x ∷ xs))

abbrev pub new_file : ℕ → Bytes → ℕ → ℕ → Bytes → FileInfo → File
new_file begin pieces end offset p f = record {
  begin = begin;
  begin_offset = offset;
  length = f.length;
  piece_length = 0;
  path = p;
  pieces = new_pieces (take (end * 20 - begin * 20) (drop (begin * 20) pieces));
  downloaded = 0;
  fd = none;
  status = FileStatus.ignore;
  free_memory = pos 0;
  need = f.download;
}

-- The loop over the files, `none` for a nil FileSystem; the variable `begin` is 0 in every round. A
-- division by a piece length of 0 panics.
unfoldable pub add_files : Bytes → ℕ → ℕ → ℕ → List FileInfo → Result Error (Option (List File))
unfolding join
add_files pieces pl begin offset [] = ok (some [])
add_files pieces pl begin offset (f ∷ fs) =
    let end = begin + piece_count f.length pl in
    let later = add_files pieces pl begin (f.length % pl) fs in
    elim (path_of f.path_utf8 f.path) [
      | none ↦ ok none
      | some p ↦
          if pl == 0
          then panic
          else if ltb (length pieces) (end * 20)
          then ok none
          else (later >>= λ rest.
              ok (Option.map (λ r. new_file begin pieces end offset p f ∷ r) rest))
    ]

abbrev pub dir : Bytes → Bytes
dir [] = b'.' ∷ b'/' ∷ b'/' ∷ []
dir (x ∷ xs) = x ∷ xs ++ b'/' ∷ []

-- `abs` is filepath.Abs.
unfoldable pub new_file_system :
    (Bytes → Option Bytes) → List FileInfo → Bytes → ℕ → Bytes → Result Error (Option FileSystem)
unfolding add_files
new_file_system abs files pieces pl path =
    if not (length pieces % 20 == 0) then ok none else elim (abs (dir path)) [
      | none ↦ ok none
      | some p ↦ do
        added ← add_files pieces pl 0 0 files
        ok (
            Option.map
              (λ fs. record {
                path = p;
                files = fs;
                piece_num = length pieces / 20;
                piece_length = pl;
                disk_map = new_empty_bitmap (length pieces / 20);
              })
              added)
    ]

-- The errors of SetRangeBitOn are dropped.
unfoldable pub need_of : ℕ → List File → Bitmap → Result Error Bitmap
need_of pl [] b = ok b
need_of pl (f ∷ fs) b =
    let later = need_of pl fs in
    if f.need
    then elim (set_range_bit_on b (pos f.begin) (pos f.begin +ℤ last_piece f.length pl)) [
      | ok b' ↦ later b'
      | err e ↦ later b
      | panic ↦ panic
    ]
    else later b

unfoldable pub need : FileSystem → Result Error Bitmap
unfolding need_of
need fs = need_of fs.piece_length fs.files (new_empty_bitmap fs.piece_num)

-- sort.Search: the half that is left, [i, j), shrinks in each round, so j - i rounds are enough.
unfoldable pub search : (ℕ → Bool) → ℕ → ℕ → ℕ → ℕ
search test zero i j = i
search test (suc fuel) i j =
    let h = (i + j) / 2 in
    let upper = search test fuel (h + 1) j in
    let lower = search test fuel i h in if ltb i j then (if test h then lower else upper) else i

abbrev pub covers : ℕ → Option File → Bool
covers k none = false
covers k (some f) = leb f.begin k && leb k (f.begin + length f.pieces)

-- The place of the file for a piece in the list; the length of the list where there is none.
unfoldable pub place : List File → ℕ → ℕ
unfolding search
place files k = let n = length files in search (λ i. covers k (get_elem? files i)) n 0 n

-- `none` is nil.
unfoldable pub query_file : FileSystem → ℕ → Option File
unfolding place
query_file fs k = get_elem? fs.files (place fs.files k)

-- `none` is nil; an index behind the file's pieces panics.
unfoldable pub query_piece : FileSystem → ℕ → Result Error (Option Piece)
query_piece fs k = elim (query_file fs k) [
  | none ↦ ok none
  | some f ↦ (index (get_elem? f.pieces (k - f.begin)) >>= λ p. ok (some p))
]
