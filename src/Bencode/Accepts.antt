-- ===== src/Bencode/Accepts.antt =====
-- `checkValid` accepts what Marshal writes.
use mathlib.Core.Path.{subst}
use bget.Common.{
  ℕ, zero, suc, ◌+◌, ◌-◌, ◌^◌, ◌<◌, ◌≤◌, ◌⊎◌, inl, inr, false, List, [], ◌∷◌, ◌++◌, some, length,
  get_elem?, ◌≡◌, refl, arith, ap, ◌∙◌,
}
use bget.Common.Decimal.{decimal_int}
use bget.Common.Digits.{Digits}
use bget.Common.Int.{ℤ}
use bget.Bencode.Scanner.{State, Code, ParseState, Scanner, int64, step_in, end_value}
use bget.Bencode.Valid.{Verdict, before, check_from, is_error}
use bget.Bencode.Rounds.{check_from_round}
use bget.Bencode.Encode.{Bytes}
use bget.Bencode.Plain.{code}
use bget.Bencode.Reads.{Reads, lt_of_get, Reads-left, Reads-right, Reads-le}
use bget.Bencode.Tokens.{at, content, end_of_int}
use bget.Bencode.Walks.{Walk, Walk-step, Walk-trans, length_digits, int-Body}
use bget.Bencode.Places.{Start, Opens, colon}

pub get_of_lt : (input : Bytes) (i : ℕ) → i < length input → (c : ℕ) × (get_elem? input i ≡ some c)
get_of_lt [] i h = absurd (omega arith)
get_of_lt (x ∷ input) zero h = (x, refl)
get_of_lt (x ∷ input) (suc i) h = get_of_lt input i (omega arith)

zero_or_more : (n : ℕ) → (n ≡ 0) ⊎ (0 < n)
zero_or_more zero = inl refl
zero_or_more (suc n) = inr (omega arith)

-- Only a single digit may be a 0.
pub leading : (n : ℕ) (d : Digits n) → (d.others ≡ []) ⊎ (0 < d.first - b'0')
leading n d = elim (zero_or_more n) [
  | inl e ↦ inl (d.alone e)
  | inr h ↦ let q = d.first_positive h in inr (omega arith)
]

-- What an empty string needs behind it: the state function that skips its content.
abbrev pub Followed : Bytes → ℕ → ℕ → Type 0
Followed input n j = (j < length input) ⊎ (0 < n)

module _ (input : Bytes) (short : length input < 2 ^ 63) where
  abbrev pub loop : ℕ → Scanner → ℕ → Verdict
  loop fuel s i = check_from fuel s i input

  abbrev pub shape :
      (st : State) (ps : List ParseState) (len size : ℕ) (b : Scanner)
      → (b' : Scanner) × (before (at st ps len size b) ≡ at st ps len size b')
  shape st ps len size b = (record b { bytes = int64 (b.bytes + size) }, refl)

  pub round :
      (fuel : ℕ) (s t : Scanner) (i c : ℕ)
      → get_elem? input i ≡ some c
      → step_in s.step (before s) c ≡ (t, Code.continue)
      → loop (suc fuel) s i ≡ loop fuel t (int64 (i + t.step_size))
  round fuel s t i c e st =
      check_from_round fuel s t i c input Code.continue (lt_of_get input i c e) e st refl

  abbrev pub Passes : ℕ → Scanner → ℕ → State → List ParseState → ℕ → ℕ → ℕ → Type 0
  Passes = Walk input before loop shape round short

  -- One round with any code but an error.
  pub hop :
      (st st' : State) (ps ps' : List ParseState) (len len' size size' : ℕ) (g : Scanner → Scanner)
      (b : Scanner) (i j c : ℕ) (code : Code)
      → get_elem? input i ≡ some c
      → ((a : Scanner) → step_in st (at st ps len size a) c ≡ (at st' ps' len' size' (g a), code))
      → is_error code ≡ false
      → i + size' ≡ j
      → j ≤ length input
      → Passes 1 (at st ps len size b) i st' ps' len' size' j
  hop st st' ps ps' len len' size size' g b i j c code e step good sum le =
      let form = shape st ps len size b in
      (
        g form.0,
        λ fuel.
            ap (λ f. loop f (at st ps len size b) i) (omega arith)
            ∙ check_from_round fuel (at st ps len size b) (at st' ps' len' size' (g form.0)) i c
                input code (lt_of_get input i c e) e (step form.0) good
            ∙ ap (loop fuel (at st' ps' len' size' (g form.0))) (omega arith),
      )

  abbrev pub then_ :
      (k m n : ℕ) (s : Scanner) (i : ℕ) (st st' : State) (ps ps' : List ParseState)
      (len len' size size' j j' : ℕ)
      → k + m ≡ n
      → Passes k s i st ps len size j
      → ((b : Scanner) → Passes m (at st ps len size b) j st' ps' len' size' j')
      → Passes n s i st' ps' len' size' j'
  then_ = Walk-trans input before loop shape round short

  -- A string from its first digit on, in a place that starts it.
  pub string_passes :
      (w : Bytes) (st : State) (qs ps : List ParseState) (size : ℕ) (b : Scanner) (i : ℕ)
      (d : Digits (length w))
      → ((a : Scanner)
          → step_in st (at st qs 0 size a) d.first
            ≡ (at State.begin_string ps (d.first - b'0') 1 a, Code.begin_string))
      → Reads input i (d.first ∷ (d.others ++ (b':' ∷ w)))
      → Followed input (length w) (i + length d.others + 2 + length w)
      → Passes
          (length d.others + 3)
          (at st qs 0 size b)
          i
          end_value
          ps
          0
          (length w)
          (i + length d.others + 2 + length w)
  string_passes w st qs ps size b i d starts r room =
      let n = length w in
      let k = length d.others in
      let m = d.first - b'0' in
      let here = lt_of_get input i d.first r.0 in
      let digits = Reads-left input (suc i) d.others (b':' ∷ w) r.1 in
      let tail = Reads-right input (suc i) d.others (b':' ∷ w) r.1 in
      let at_colon = lt_of_get input (suc i + k) b':' tail.0 in
      let fits = Reads-le input (suc (suc i + k)) w (omega arith) tail.1 in
      let next = get_of_lt input (suc (suc i + k)) (inside room fits) in
      then_ 1 (k + 2) (k + 3) (at st qs 0 size b) i State.begin_string end_value ps ps m 0 1 n
        (suc i) (i + k + 2 + n) (omega arith)
        (hop st State.begin_string qs ps 0 m size 1 (λ a. a) b i (suc i) d.first Code.begin_string
          r.0 starts refl (omega arith) (omega arith))
        (λ a.
          then_ k 2 (k + 2) (at State.begin_string ps m 1 a) (suc i) State.begin_string end_value ps
            ps n 0 1 n (suc i + k) (i + k + 2 + n) refl
            (subst
              (λ x.
                Passes k (at State.begin_string ps m 1 a) (suc i) State.begin_string ps x 1
                  (suc i + k))
              d.value
              (length_digits input before loop shape round short ps d.others m a (suc i) digits
                d.others-IsDigit (leading (length w) d) (omega (arith, d.value))))
            (λ a₂.
              then_ 1 1 2 (at State.begin_string ps n 1 a₂) (suc i + k) State.in_string end_value ps
                ps n 0 1 n (suc (suc i + k)) (i + k + 2 + n) refl
                (hop State.begin_string State.in_string ps ps n n 1 1 (λ x. x) a₂ (suc i + k)
                  (suc (suc i + k)) b':' Code.in_string tail.0 (colon ps n) refl (omega arith)
                  (omega arith))
                (λ a₃.
                  Walk-step input before loop shape round short State.in_string end_value ps ps n 0
                    1 n a₃ (suc (suc i + k)) (i + k + 2 + n) next.0 next.1 (content ps n next.0)
                    (omega arith) (omega arith))))
    where
      inside :
          Followed input (length w) (i + length d.others + 2 + length w)
          → suc (suc i + length d.others) + length w ≤ length input
          → suc (suc i + length d.others) < length input
      inside (inl h) fits = omega arith
      inside (inr h) fits = omega arith

  -- A number from its `i` to its `e`.
  pub int_passes :
      (z : ℤ) (st : State) (qs ps : List ParseState) (size : ℕ) (b : Scanner) (i : ℕ)
      → Opens st qs size ps
      → Reads input i (b'i' ∷ (decimal_int z ++ b'e' ∷ []))
      → Passes
          (length (decimal_int z) + 2)
          (at st qs 0 size b)
          i
          end_value
          ps
          0
          1
          (i + length (decimal_int z) + 2)
  int_passes z st qs ps size b i opens r =
      let k = length (decimal_int z) in
      let here = lt_of_get input i b'i' r.0 in
      let digits = Reads-left input (suc i) (decimal_int z) (b'e' ∷ []) r.1 in
      let tail = Reads-right input (suc i) (decimal_int z) (b'e' ∷ []) r.1 in
      let at_e = lt_of_get input (suc i + k) b'e' tail.0 in
      then_ 1 (k + 1) (k + 2) (at st qs 0 size b) i State.begin_int end_value ps ps 0 0 1 1 (suc i)
        (i + k + 2) (omega arith)
        (hop st State.begin_int qs ps 0 0 size 1 (λ a. a) b i (suc i) b'i' Code.begin_int r.0
          (λ a. opens a b'i' (Start.int b'i' refl)) refl (omega arith) (omega arith))
        (λ a.
          let (last, number, walk) =
            int-Body input before loop shape round short ps z a (suc i) digits in
          then_ k 1 (k + 1) (at State.begin_int ps 0 1 a) (suc i) last end_value ps ps 0 0 1 1
            (suc i + k) (i + k + 2) refl walk
            (λ a₂.
              hop last end_value ps ps 0 0 1 1 (λ x. x) a₂ (suc i + k) (i + k + 2) b'e' Code.end_int
                tail.0 (λ x. end_of_int last ps x number) refl (omega arith) (omega arith)))
