-- ===== src/Filesystem/Store.antt =====
-- filesystem/filesystem.go: `SavePiece`, `RequestData` and `Dump`.
use bget.Common.{
  ℕ, ◌+◌, ◌-◌, ◌*◌, not, ltb, leb, ◌==◌, if◌then◌else◌, List, [], ◌∷◌, ◌++◌, Option, none, some,
  length, take, drop, get_elem?, set,
}
use bget.Common.Go.{Result, ok, err, panic}
use bget.Common.Int.{pos, ◌+ℤ◌}
use bget.Bitmap.{Bitmap, set_bit_on}
use bget.Filesystem.{Block}
use bget.Filesystem.Piece.{Bytes, Piece, PieceError, buffered, check, write}
use bget.Filesystem.Layout.{File, FileSystem, is_finish, place}
use bget.Filesystem.Save.{
  Os, Outcome, done, failed, FsError, Saving, invalid_index, wrong_order, fatal, piece, save,
}

module _ (os : Os) (sha1 : Bytes → Bytes) (get_buffer : Bytes) where
  open os use {World}

  -- The file system, and the world that its files are in.
  pub record Disk : Type 0 where
    pub world : World
    pub fs : FileSystem

  abbrev pub put_file : Disk → ℕ → File → Disk
  put_file d i f = record d { fs = record d.fs { files = set d.fs.files i f } }

  abbrev pub put_piece : ℕ → Piece → File → File
  put_piece j p f = record f { pieces = set f.pieces j p }

  -- A block that reaches the end of its piece counts the length of a piece as memory that can be freed.
  abbrev pub freed : ℕ → ℕ → File → File
  freed reached pl f =
      if leb pl reached then record f { free_memory = f.free_memory +ℤ pos pl } else f

  -- The error of `save` is dropped.
  abbrev pub after_save :
      Disk → ℕ → ℕ → ℕ → Saving os × Result FsError (Unit {0}) → Disk × Result FsError ℕ
  after_save d i begin l (s, panic) = (put_file (record d { world = s.world }) i s.file, panic)
  after_save d i begin l (s, _) =
      (put_file (record d { world = s.world }) i (freed (begin + l) d.fs.piece_length s.file), ok l)

  -- The log of a finished file reads the last byte of its path.
  abbrev pub count_block : Disk → ℕ → ℕ → ℕ → File → Disk × Result FsError ℕ
  count_block d i begin l f =
      if is_finish f
      then (if length f.path == 0
          then (put_file d i f, panic)
          else after_save d i begin l (save os d.world f))
      else (put_file d i (freed (begin + l) d.fs.piece_length f), ok l)

  abbrev pub wrote : Disk → ℕ → ℕ → File → ℕ → Piece × Result PieceError ℕ → Disk × Result FsError ℕ
  wrote d i begin f j (p, ok l) =
      count_block d i begin l (record (put_piece j p f) { downloaded = f.downloaded + l })
  wrote d i begin f j (p, err e) = (put_file d i (put_piece j p f), err (piece e))
  wrote d i begin f j (p, panic) = (put_file d i (put_piece j p f), panic)

  abbrev pub save_block : Disk → ℕ → ℕ → Bytes → File → ℕ → Option Piece → Disk × Result FsError ℕ
  save_block d i begin block f j none = (d, panic)
  save_block d i begin block f j (some p) =
      let b = buffered sha1 get_buffer p.buffer in
      let p' = record p { buffer = some b } in
      if not (length b == begin)
      then (put_file d i (put_piece j p' f), err wrong_order)
      else wrote d i begin f j (write sha1 get_buffer p' block)

  abbrev pub save_in : Disk → ℕ → ℕ → ℕ → Bytes → Option File → Disk × Result FsError ℕ
  save_in d i k begin block none = (d, err invalid_index)
  save_in d i k begin block (some f) =
      save_block d i begin block f (k - f.begin) (get_elem? f.pieces (k - f.begin))

  unfoldable pub save_piece : Disk → ℕ → ℕ → Bytes → Disk × Result FsError ℕ
  save_piece d k begin block =
      let i = place d.fs.files k in save_in d i k begin block (get_elem? d.fs.files i)

  -- p.Bytes()[begin:begin + length]
  abbrev pub cut_block : ℕ → ℕ → ℕ → Bytes → Result FsError (Option Block)
  cut_block k begin n b =
      let whole = b ++ os.spare b in
      if ltb (length whole) (begin + n)
      then panic
      else ok (some (record { index = k; begin = begin; bytes = take n (drop begin whole) }))

  -- What the section of the file gives is appended to the new buffer.
  abbrev pub read_back :
      Disk → ℕ → ℕ → ℕ → ℕ → File → ℕ → Piece → Outcome Bytes → Disk × Result FsError (Option Block)
  read_back d i k begin n f j p (done b) =
      let b' = get_buffer ++ b in
      let p' = record p { buffer = some b' } in
      let d' = put_file d i (put_piece j p' f) in
      if check sha1 get_buffer p' b' then (d', cut_block k begin n b') else (d', err fatal)
  read_back d i k begin n f j p (failed e) = (d, err fatal)

  abbrev pub request_piece :
      Disk → ℕ → ℕ → ℕ → ℕ → File → ℕ → Option Piece → Disk × Result FsError (Option Block)
  request_piece d i k begin n f j none = (d, panic)
  request_piece d i k begin n f j (some p) =
      if not p.complete then (d, ok none) else elim p.buffer [
        | some b ↦ (d, cut_block k begin n b)
        | none ↦
            let pl = d.fs.piece_length in
            read_back d i k begin n f j p (os.read_at d.world f.fd (j * pl) pl)
      ]

  -- `none` is a call that sends no block.
  unfoldable pub request_data : Disk → ℕ → ℕ → ℕ → Disk × Result FsError (Option Block)
  request_data d k begin n =
      let i = place d.fs.files k in
      if ltb d.fs.piece_length (begin + n) then (d, ok none) else elim (get_elem? d.fs.files i) [
        | none ↦ (d, ok none)
        | some f ↦ request_piece d i k begin n f (k - f.begin) (get_elem? f.pieces (k - f.begin))
      ]

  -- The pieces of a file that are at the disk, in the bitmap; an error of SetBitOn panics.
  unfoldable pub mark : ℕ → List Piece → Bitmap → Result FsError Bitmap
  mark i [] b = ok b
  mark i (p ∷ ps) b =
      if p.at_disk
      then elim (set_bit_on b (pos i)) [ ok b' ↦ mark (i + 1) ps b' | _ ↦ panic ]
      else mark (i + 1) ps b

  -- What the loop over the files has changed.
  pub record Dumped : Type 0 where
    pub world : World
    pub files : List File
    pub disk_map : Bitmap
    pub written : ℕ

  abbrev pub behind : File → Dumped × Result FsError (Unit {0}) → Dumped × Result FsError (Unit {0})
  behind f (t, r) = (record t { files = f ∷ t.files }, r)

  -- What follows the save of one file: the marks, and then its error.
  abbrev pub dump_next :
      (World → Bitmap → ℕ → Dumped × Result FsError (Unit {0}))
      → List File
      → Bitmap
      → ℕ
      → File
      → Saving os × Result FsError (Unit {0})
      → Dumped × Result FsError (Unit {0})
  dump_next later fs b l f (s, r) =
      let f' = record f { pieces = s.file.pieces } in
      let stop = λ (b' : Bitmap) (e : Result FsError (Unit {0})).
        let t : Dumped = record {
          world = s.world;
          files = f' ∷ fs;
          disk_map = b';
          written = l + s.written;
        } in
        let both : Dumped × Result FsError (Unit {0}) = (t, e) in both in
      elim r [
        | panic ↦ stop b panic
        | err e ↦ elim (mark f.begin s.file.pieces b) [ ok b' ↦ stop b' (err e) | _ ↦ stop b panic ]
        | ok _ ↦ elim (mark f.begin s.file.pieces b) [
          | ok b' ↦ behind f' (later s.world b' (l + s.written))
          | _ ↦ stop b panic
        ]
      ]

  -- `save` works on a copy of the file: its pieces are shared, but its handle and its count of memory
  -- are lost.
  unfoldable pub dump_files : List File → World → Bitmap → ℕ → Dumped × Result FsError (Unit {0})
  unfolding mark
  dump_files [] w b l = (record { world = w; files = []; disk_map = b; written = l }, ok tt)
  dump_files (f ∷ fs) w b l = dump_next (dump_files fs) fs b l f (save os w f)

  -- With the number of bytes that were written.
  unfoldable pub dump : Disk → Disk × ℕ × Result FsError (Unit {0})
  unfolding dump_files
  dump d =
      let (t, r) = dump_files d.fs.files d.world d.fs.disk_map 0 in
      let fs = record d.fs { files = t.files; disk_map = t.disk_map } in
      (record d { world = t.world; fs = fs }, t.written, r)
