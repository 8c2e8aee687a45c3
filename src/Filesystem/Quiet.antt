-- ===== src/Filesystem/Quiet.antt =====
-- What `save` leaves alone in a file none of whose pieces is complete.
use bget.Common.{
  ℕ, zero, suc, ◌+◌, ◌-◌, ◌*◌, ◌<◌, ◌≤◌, false, List, [], ◌∷◌, some, length, get_elem?, ◌≡◌, refl,
  arith, All, Bool-cases, inl, inr, ◌∙◌,
}
use bget.Common.Go.{Result, ok, err, panic}
use bget.Common.State.{follow}
use bget.Common.Int.{pos, ltb_ℤ}
use bget.Filesystem.Piece.{Piece}
use bget.Filesystem.Layout.{File}
use mathlib.Core.Path.{subst⁻¹}
use bget.Filesystem.Save
use bget.Filesystem.Save.{
  Os, Outcome, done, failed, FsError, Saving, M, save, create, save_first, save_middle, save_last,
}

-- The piece of each place is not complete.
abbrev pub Open : File → Type 0
Open f = All (λ (p : Piece). p.complete ≡ false) f.pieces

pub All-get {ℓ κ} :
    {A : Type ℓ} (P : A → Type κ) (xs : List A) (i : ℕ)
    → All P xs
    → i < length xs
    → (x : A) × (get_elem? xs i ≡ some x) × P x
All-get P [] i h lt = absurd (omega arith)
All-get P (x ∷ xs) zero h lt = (x, refl, h.0)
All-get P (x ∷ xs) (suc i) h lt = All-get P xs i h.1 (omega arith)

-- The files have the same pieces, and are the same but for the handle and the count of memory.
pub record Alike (f g : File) : Type 0 where
  pub pieces : g.pieces ≡ f.pieces
  pub path : g.path ≡ f.path
  pub begin : g.begin ≡ f.begin

pub Alike-refl : (f : File) → Alike f f
Alike-refl f = record { pieces = refl; path = refl; begin = refl }

Alike-trans : {f g h : File} → Alike f g → Alike g h → Alike f h
Alike-trans p q = record {
  pieces = q.pieces ∙ p.pieces;
  path = q.path ∙ p.path;
  begin = q.begin ∙ p.begin;
}

module _ (os : Os) where
  open os use {World}

  -- No panic, and a file that is alike.
  abbrev pub Stays : {A : Type 0} → File → Saving os × Result FsError A → Type 0
  Stays f (s, panic) = ⊥
  Stays f (s, _) = Alike f s.file

  Stays-trans :
      {B : Type 0} {f g : File} (r : Saving os × Result FsError B)
      → Alike f g
      → Stays g r
      → Stays f r
  Stays-trans (s, ok a) h k = Alike-trans h k
  Stays-trans (s, err e) h k = Alike-trans h k
  Stays-trans (s, panic) h k = k

  Stays-follow :
      {A B : Type 0} (f : File) (r : Saving os × Result FsError A) (k : A → M os B)
      → Stays f r
      → ((a : A) (s : Saving os) → Alike f s.file → Stays s.file (k a s))
      → Stays f (follow r k)
  Stays-follow f (s, ok a) k h g = Stays-trans (k a s) h (g a s h)
  Stays-follow f (s, err e) k h g = h
  Stays-follow f (s, panic) k h g = h

  create-Stays : (s : Saving os) → Stays s.file (create os s)
  unfolding create
  create-Stays s = ground arith

  handle-Stays : (s : Saving os) → Stays s.file (Save.handle os s)
  handle-Stays s =
      ground (arith, create-Stays (record s { world = (os.open_file s.world s.file.path).0 }))

  save_first-Stays :
      (h : ℕ) (s : Saving os) (p : Piece)
      → get_elem? s.file.pieces 0 ≡ some p
      → p.complete ≡ false
      → Stays s.file (save_first os h s)
  unfolding save_first
  save_first-Stays h s p e c = ground arith

  save_last-Stays :
      (h : ℕ) (s : Saving os) (p : Piece)
      → get_elem? s.file.pieces (length s.file.pieces - 1) ≡ some p
      → p.complete ≡ false
      → Stays s.file (save_last os h s)
  unfolding save_last
  save_last-Stays h s p e c = ground arith

  save_middle-Stays :
      (left i h : ℕ) (s : Saving os)
      → All (λ (p : Piece). p.complete ≡ false) s.file.pieces
      → i + left ≤ length s.file.pieces
      → Stays s.file (save_middle os left i h s)
  unfolding save_middle
  save_middle-Stays zero i h s u le = Alike-refl s.file
  save_middle-Stays (suc left) i h s u le =
      let (p, found, c) =
        All-get (λ (p : Piece). p.complete ≡ false) s.file.pieces i u (omega arith) in
      let t : Saving os = record s { world = (os.seek s.world h (pos s.file.piece_length) 1).0 } in
      ground (arith, found, c, save_middle-Stays left (i + 1) h t u (omega arith))

  abbrev pub Whole : List Piece → Type 0
  Whole ps = All (λ (p : Piece). p.complete ≡ false) ps × (0 < length ps)

  last-Stays : (h : ℕ) (s : Saving os) → Whole s.file.pieces → Stays s.file (save_last os h s)
  last-Stays h s (u, lt) =
      let (p, found, c) =
        All-get (λ (p : Piece). p.complete ≡ false) s.file.pieces (length s.file.pieces - 1) u
          (omega arith) in
      save_last-Stays h s p found c

  first-Stays : (h : ℕ) (s : Saving os) → Whole s.file.pieces → Stays s.file (save_first os h s)
  first-Stays h s (u, lt) =
      let (p, found, c) = All-get (λ (p : Piece). p.complete ≡ false) s.file.pieces 0 u lt in
      save_first-Stays h s p found c

  written-Stays :
      (n h : ℕ) (s : Saving os)
      → Whole s.file.pieces
      → 1 + n ≤ length s.file.pieces
      → Stays s.file (Save.write_all os n h s)
  written-Stays n h s u le = Stays-follow s.file (save_first os h s) _ (first-Stays h s u) (λ _ t a.
      let u' : Whole t.file.pieces = subst⁻¹ Whole a.pieces u in
      Stays-follow t.file (save_middle os n 1 h t) _
        (save_middle-Stays n 1 h t u'.0 (rw (a.pieces) le))
        (λ _ t' a'.
          Stays-follow t'.file (save_last os h t') _ (last-Stays h t' (subst⁻¹ Whole a'.pieces u'))
            (λ _ t'' a''. record { pieces = refl; path = refl; begin = refl })))

  -- Where no piece is complete, `save` neither panics nor changes a piece.
  pub save-Stays : (w : World) (f : File) → Whole f.pieces → Stays f (save os w f)
  unfolding save
  save-Stays w f u =
      let s : Saving os = record { world = w; file = f; written = 0 } in
      elim (Bool-cases (ltb_ℤ f.free_memory (pos (1024 * 1024)))) [
        | inl little ↦ rw little (Alike-refl f)
        | inr much ↦ rw much (
            Stays-follow f (Save.handle os s) _ (handle-Stays s) (λ h t a.
              written-Stays (length f.pieces - 2) h t (subst⁻¹ Whole a.pieces u)
                (rw (a.pieces) (omega (arith, u.1)))))
      ]
