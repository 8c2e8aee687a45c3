-- ===== src/Filesystem/Save.antt =====
-- filesystem/file.go: `create` and `save`, which write the pieces of a file to the disk. The operating
-- system is a parameter, and `free_memory` is a number that may fall below 0.
use bget.Common.{
  ℕ, zero, suc, ◌+◌, ◌-◌, ◌*◌, Bool, true, false, not, ◌&&◌, ltb, ◌==◌, if◌then◌else◌, [], ◌∷◌,
  ◌++◌, Option, none, some, length, take, drop, get_elem?, set,
}
use bget.Common.Go.{Result, ok, err, panic}
use bget.Common.State.{State, follow, return, ◌>>=◌, ◌>>◌}
use bget.Common.Int.{ℤ, pos, negsuc, ◌-ℤ◌, ltb_ℤ}
use bget.Filesystem.Piece.{Bytes, Piece, PieceError}
use bget.Filesystem.Layout.{File}

-- Calls of the packages os and io. A handle and an error are known by a number; `write` returns the
-- number of bytes that it wrote, and an error where that is not all of them. `read_at` gives what a
-- section of a file holds, and `spare` is what the storage of a buffer holds behind its contents.
pub data Outcome (A : Type 0) : Type 0 where
  done : A → Outcome A
  failed : ℕ → Outcome A

pub record Os : Type 1 where
  pub World : Type 0
  pub open_file : World → Bytes → World × Outcome ℕ
  pub create_file : World → Bytes → World × Outcome ℕ
  pub truncate : World → ℕ → ℕ → World × Outcome (Unit {0})
  pub seek : World → ℕ → ℤ → ℕ → World × Outcome (Unit {0})
  pub write : World → ℕ → Bytes → World × ℕ × Outcome (Unit {0})
  pub read_at : World → Option ℕ → ℕ → ℕ → Outcome Bytes
  pub is_not_exist : ℕ → Bool
  pub spare : Bytes → Bytes

-- `fatal` is the end of the process by `logger.Fatalln`.
pub data FsError : Type 0 where
  invalid_index wrong_order fatal : FsError
  piece : PieceError → FsError
  system : ℕ → FsError

module _ (os : Os) where
  open os use {World}

  -- `written` is the result `l` so far.
  pub record Saving : Type 0 where
    pub world : World
    pub file : File
    pub written : ℕ

  abbrev pub M : Type 0 → Type 0
  M = State Saving FsError

  abbrev pub this_file : M File
  this_file s = (s, ok s.file)

  -- The end of a call of the system that left the world `w`.
  abbrev pub came : {A : Type 0} → World × Outcome A → M A
  came (w, done a) s = (record s { world = w }, ok a)
  came (w, failed e) s = (record s { world = w }, err (system e))

  abbrev pub use_handle : ℕ → M (Unit {0})
  use_handle h s = (record s { file = record s.file { fd = some h } }, ok tt)

  unfoldable pub create : M ℕ
  create = do
    h ← λ s. came (os.create_file s.world s.file.path) s
    use_handle h
    f ← this_file
    (λ s. came (os.truncate s.world h f.length) s)
    (λ s. came (os.seek s.world h (pos 0) 0) s)
    return h

  abbrev pub opened : World × Outcome ℕ → M ℕ
  opened (w, done h) s = (record s { world = w; file = record s.file { fd = some h } }, ok h)
  opened (w, failed e) s =
      let s' = record s { world = w } in
      if os.is_not_exist e then create s' else (s', err (system e))

  abbrev pub handle_of : Option ℕ → M ℕ
  handle_of (some h) s = (s, ok h)
  handle_of none s = opened (os.open_file s.world s.file.path) s

  abbrev pub handle : M ℕ
  handle s = handle_of s.file.fd s

  abbrev pub slice : Option Bytes → M Bytes
  slice none s = (s, panic)
  slice (some b) s = (s, ok b)

  abbrev pub piece_at : Option Piece → M Piece
  piece_at none s = (s, panic)
  piece_at (some p) s = (s, ok p)

  abbrev pub pieces_at : ℕ → M Piece
  pieces_at i s = piece_at (get_elem? s.file.pieces i) s

  abbrev pub put_piece : ℕ → Piece → M (Unit {0})
  put_piece i p s = (record s { file = record s.file { pieces = set s.file.pieces i p } }, ok tt)

  -- Complete, and not on the disk.
  abbrev pub is_pending : Piece → Bool
  is_pending p = p.complete && not p.at_disk

  abbrev pub at_rest : Piece → Piece
  at_rest p = record p { at_disk = true; buffer = none }

  -- w, err := write(b); l += w
  abbrev pub counted : World × ℕ × Outcome (Unit {0}) → M (Unit {0})
  counted (w, n, r) s = came (w, r) (record s { written = s.written + n })

  abbrev pub put : ℕ → Bytes → M (Unit {0})
  put h b s = counted (os.write s.world h b) s

  -- b[from:] and b[:end], where a slice may reach behind the contents into the storage of the buffer.
  abbrev pub from : ℕ → Bytes → Option Bytes
  from n b = if ltb (length b) n then none else some (drop n b)

  abbrev pub upto : ℤ → Bytes → Option Bytes
  upto (negsuc n) b = none
  upto (pos n) b =
      let whole = b ++ os.spare b in if ltb (length whole) n then none else some (take n whole)

  -- The handle moves on, and an error of it is dropped.
  abbrev pub skip : ℕ → ℤ → M (Unit {0})
  skip h n s = let (w, r) = os.seek s.world h n 1 in (record s { world = w }, ok tt)

  unfoldable pub save_first : ℕ → M (Unit {0})
  save_first h = do
    f ← this_file
    p ← pieces_at 0
    if is_pending p
        then (do
          b ← slice p.buffer
          cut ← slice (from f.begin_offset b)
          put h cut
          put_piece 0 (at_rest p))
        else skip h (pos f.piece_length -ℤ pos f.begin_offset)

  -- `WriteTo` takes what it has written from the buffer, and calls Write on bytes only.
  abbrev pub write_to : ℕ → ℕ → Piece → Bytes → M (Unit {0})
  write_to h i p [] s = (s, ok tt)
  write_to h i p (x ∷ b) s =
      let (w, n, r) = os.write s.world h (x ∷ b) in
      let p' = record p { buffer = some (drop n (x ∷ b)) } in
      follow (put_piece i p' s) (λ _. counted (w, n, r))

  unfoldable pub save_middle : ℕ → ℕ → ℕ → M (Unit {0})
  save_middle zero i h = return tt
  save_middle (suc left) i h = do
    f ← this_file
    p ← pieces_at i
    (if is_pending p
        then (do b ← slice p.buffer; write_to h i p b; put_piece i (at_rest p))
        else (λ s. came (os.seek s.world h (pos f.piece_length) 1) s))
    save_middle left (i + 1) h

  abbrev pub is_size : ℤ → ℕ → Bool
  is_size (pos n) m = n == m
  is_size (negsuc n) m = false

  abbrev pub end_size : File → ℤ
  end_size f =
      pos f.length
      -ℤ (pos f.piece_length -ℤ pos f.begin_offset)
      -ℤ pos (f.piece_length * (length f.pieces - 1))

  unfoldable pub save_last : ℕ → M (Unit {0})
  save_last h = do
    f ← this_file
    if ltb 1 (length f.pieces)
        then (do
          p ← pieces_at (length f.pieces - 1)
          if is_pending p
              then (do
                b ← slice p.buffer
                cut ← slice (upto (end_size f) b)
                put h cut
                if is_size (end_size f) (length b)
                    then put_piece (length f.pieces - 1) (at_rest p)
                    else return tt)
              else return tt)
        else return tt

  abbrev pub settle : M (Unit {0})
  settle s = (
    record s { file = record s.file { free_memory = s.file.free_memory -ℤ pos s.written } },
    ok tt,
  )

  -- The writes with an open handle; `n` is the number of pieces between the first and the last.
  abbrev pub write_all : ℕ → ℕ → M (Unit {0})
  write_all n h = do save_first h; save_middle n 1 h; save_last h; settle

  unfoldable pub save : World → File → Saving × Result FsError (Unit {0})
  save w f =
      let s : Saving = record { world = w; file = f; written = 0 } in
      if ltb_ℤ f.free_memory (pos (1024 * 1024))
      then (s, ok tt)
      else follow (handle s) (write_all (length f.pieces - 2))
