-- ===== src/Filesystem/Search.antt =====
-- What the search for the file of a piece finds.
use bget.Common.{
  ℕ, zero, suc, ◌+◌, ◌-◌, ◌/◌, ◌≤◌, ◌<◌, ◌⊎◌, inl, inr, Bool, true, false, ltb, if◌then◌else◌, List,
  [], ◌∷◌, Option, none, some, length, get_elem?, ◌≡◌, refl, sym, arith, ap, ◌∙◌,
}
use bget.Common.Go.{Result, ok, panic, ◌>>=◌, index}
use bget.Filesystem.Piece.{Piece}
use bget.Bitmap.{Error}
use bget.Filesystem.Layout.{File, FileSystem, search, covers, query_file, query_piece}

abbrev Found : (ℕ → Bool) → ℕ → ℕ → Type 0
Found test j x = (x ≡ j) ⊎ ((x < j) × (test x ≡ true))

decided :
    (P : ℕ → Type 0) (b : Bool) (x y : ℕ)
    → (b ≡ true → P x)
    → (b ≡ false → P y)
    → P (if b then x else y)
decided P true x y p q = p refl
decided P false x y p q = q refl

lower_half : (test : ℕ → Bool) (h j x : ℕ) → h < j → test h ≡ true → Found test h x → Found test j x
lower_half test h j x l t (inl e) = inr (rw e (l, t))
lower_half test h j x l t (inr (m, u)) = inr (omega arith, u)

-- Between two bounds and with a round for each place between them, the search ends at the upper bound or
-- at a place below it that passes the test.
search_between :
    (test : ℕ → Bool) (fuel i j : ℕ) → j ≤ i + fuel → i ≤ j → Found test j (search test fuel i j)
unfolding search
search_between test zero i j h k = inl (omega arith)
search_between test (suc fuel) i j h k =
    let m = (i + j) / 2 in
    decided (Found test j) (ltb i j) _ i
      (λ l.
        decided (Found test j) (test m) (search test fuel i m) (search test fuel (m + 1) j)
          (λ t.
            lower_half test m j (search test fuel i m) (ground arith) t
              (search_between test fuel i m (ground arith) (ground arith)))
          (λ _. search_between test fuel (m + 1) j (ground arith) (ground arith)))
      (λ l. inl (ground arith))

get_elem?-length {ℓ} : {A : Type ℓ} (xs : List A) → get_elem? xs (length xs) ≡ none
get_elem?-length [] = refl
get_elem?-length (x ∷ xs) = get_elem?-length xs

covers_lem :
    (k : ℕ) (f : File) → covers k (some f) ≡ true → (f.begin ≤ k) × (k ≤ f.begin + length f.pieces)
covers_lem k f h = ground arith

-- The search for the file of a piece gives nil or a file of the list that begins no later than the
-- piece, and that ends before it by at most one piece.
pub query_file_covers :
    (fs : FileSystem) (k : ℕ) (f : File)
    → query_file fs k ≡ some f
    → (f.begin ≤ k) × (k ≤ f.begin + length f.pieces)
unfolding query_file
query_file_covers fs k f e =
    let n = length fs.files in
    let test = λ (i : ℕ). covers k (get_elem? fs.files i) in
    found (search test n 0 n) (search_between test n 0 n (omega arith) (omega arith)) e
  where
    found :
        (i : ℕ)
        → Found (λ i. covers k (get_elem? fs.files i)) (length fs.files) i
        → get_elem? fs.files i ≡ some f
        → (f.begin ≤ k) × (k ≤ f.begin + length f.pieces)
    found i (inl u) e = cc (get_elem?-length fs.files)
    found i (inr (l, t)) e = covers_lem k f (ap (covers k) (sym e) ∙ t)

behind :
    (b : ℕ) (ps : List Piece) (f : File)
    → f.begin ≡ b
    → f.pieces ≡ ps
    → Path
        (Result Error (Option Piece))
        (elim (get_elem? (f ∷ []) (if covers (b + length ps) (some f) then 0 else 1)) [
          | none ↦ ok none
          | some f' ↦ (index (get_elem? f'.pieces (b + length ps - f'.begin)) >>= λ p. ok (some p))
        ])
        panic
behind b ps f hb hp =
    rw (covered b ps f hb hp, hb, hp, back b (length ps), get_elem?-length ps) refl
  where
    covered :
        (b : ℕ) (ps : List Piece) (f : File)
        → f.begin ≡ b
        → f.pieces ≡ ps
        → covers (b + length ps) (some f) ≡ true
    covered b ps f hb hp = rw (hb, hp) (ground arith)

    back : (b l : ℕ) → b + l - b ≡ l
    back b l = omega arith

-- In a file system of one file, the index just behind its pieces is not refused: looking it up
-- panics.
pub query_piece_behind :
    (fs : FileSystem) (f : File)
    → fs.files ≡ f ∷ []
    → query_piece fs (f.begin + length f.pieces) ≡ panic
unfolding query_piece query_file search
query_piece_behind fs f e = rw (e) (behind f.begin f.pieces f refl refl)
