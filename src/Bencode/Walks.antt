-- ===== src/Bencode/Walks.antt =====
-- The walk of a loop over a token: the length of a string, and a number.
use bget.Common.{
  ℕ, zero, suc, ◌+◌, ◌-◌, ◌*◌, ◌^◌, ◌<◌, ◌≤◌, ◌⊎◌, inl, inr, List, [], ◌∷◌, some, length, get_elem?,
  ◌≡◌, refl, sym, arith, ap, ◌∙◌, All,
}
use mathlib.Core.Path.{subst}
use bget.Common.Decimal.{decimal_int, decimal_small}
use bget.Common.Digits.{IsDigit, spelled, le-spelled, Digits, digits_of}
use bget.Common.Int.{ℤ, pos, negsuc}
use bget.Bencode.Scanner.{State, Code, ParseState, Scanner, int64, step_in, neg, zero_int, num}
use bget.Bencode.Reads.{Reads, lt_of_get}
use bget.Bencode.Tokens.{
  at, digit_in_string, digit_in_int, zero_first, positive_first, minus_first, behind_minus,
  IsNumber,
}

module _ {X : Type 0} (input : List ℕ) (prep : Scanner → Scanner) (loop : ℕ → Scanner → ℕ → X)
    (shape : (st : State) (ps : List ParseState) (len size : ℕ) (b : Scanner)
      → (b' : Scanner) × (prep (at st ps len size b) ≡ at st ps len size b'))
    (round : (fuel : ℕ) (s t : Scanner) (i c : ℕ)
      → get_elem? input i ≡ some c
      → step_in s.step (prep s) c ≡ (t, Code.continue)
      → loop (suc fuel) s i ≡ loop fuel t (int64 (i + t.step_size)))
    (short : length input < 2 ^ 63) where
  -- After `k` rounds the loop is at `j`, with a scanner of this form.
  abbrev pub Walk : ℕ → Scanner → ℕ → State → List ParseState → ℕ → ℕ → ℕ → Type 0
  Walk k s i st ps len size j =
      (b : Scanner) × ((fuel : ℕ) → loop (k + fuel) s i ≡ loop fuel (at st ps len size b) j)

  pub Walk-here :
      (st : State) (ps : List ParseState) (len size : ℕ) (b : Scanner) (i j : ℕ)
      → i ≡ j
      → Walk 0 (at st ps len size b) i st ps len size j
  Walk-here st ps len size b i j e = (
    b,
    λ fuel.
        ap (λ f. loop f (at st ps len size b) i) (omega arith)
        ∙ ap (loop fuel (at st ps len size b)) e,
  )

  pub Walk-step :
      (st st' : State) (ps ps' : List ParseState) (len len' size size' : ℕ) (b : Scanner)
      (i j c : ℕ)
      → get_elem? input i ≡ some c
      → ((a : Scanner)
          → step_in st (at st ps len size a) c ≡ (at st' ps' len' size' a, Code.continue))
      → i + size' ≡ j
      → j ≤ length input
      → Walk 1 (at st ps len size b) i st' ps' len' size' j
  Walk-step st st' ps ps' len len' size size' b i j c e step sum le =
      let form = shape st ps len size b in
      (
        form.0,
        λ fuel.
            ap (λ f. loop f (at st ps len size b) i) (omega arith)
            ∙ round fuel (at st ps len size b) (at st' ps' len' size' form.0) i c e
                (ap (λ s. step_in st s c) form.1 ∙ step form.0)
            ∙ ap (loop fuel (at st' ps' len' size' form.0)) (omega arith),
      )

  pub Walk-trans :
      (k m n : ℕ) (s : Scanner) (i : ℕ) (st st' : State) (ps ps' : List ParseState)
      (len len' size size' j j' : ℕ)
      → k + m ≡ n
      → Walk k s i st ps len size j
      → ((b : Scanner) → Walk m (at st ps len size b) j st' ps' len' size' j')
      → Walk n s i st' ps' len' size' j'
  Walk-trans k m n s i st st' ps ps' len len' size size' j j' e w next =
      let on = next w.0 in
      (on.0, λ fuel. ap (λ f. loop f s i) (omega arith) ∙ w.1 (m + fuel) ∙ on.1 fuel)

  -- The digits of a string's length behind the first.
  pub length_digits :
      (ps : List ParseState) (cs : List ℕ) (m : ℕ) (b : Scanner) (i : ℕ)
      → Reads input i cs
      → All IsDigit cs
      → (cs ≡ []) ⊎ (0 < m)
      → spelled m cs < 2 ^ 63
      → Walk
          (length cs)
          (at State.begin_string ps m 1 b)
          i
          State.begin_string
          ps
          (spelled m cs)
          1
          (i + length cs)
  length_digits ps [] m b i r d p h = Walk-here State.begin_string ps m 1 b i (i + 0) (omega arith)
  length_digits ps (c ∷ cs) m b i r d p h =
      let m' = m * 10 + (c - b'0') in
      let pos : 0 < m = behind p in
      let lt = lt_of_get input i c r.0 in
      let le = le-spelled m' cs in
      Walk-trans 1 (length cs) (suc (length cs)) (at State.begin_string ps m 1 b) i
        State.begin_string State.begin_string ps ps m' (spelled m' cs) 1 1 (suc i)
        (i + suc (length cs)) (omega arith)
        (Walk-step State.begin_string State.begin_string ps ps m m' 1 1 b i (suc i) c r.0
          (λ a. digit_in_string ps m c a d.0 pos (omega arith)) (omega arith) (omega arith))
        (λ a.
          subst
            (Walk (length cs) (at State.begin_string ps m' 1 a) (suc i) State.begin_string ps
              (spelled m' cs) 1)
            (omega arith) (length_digits ps cs m' a (suc i) r.1 d.1 (inr (omega arith)) h))
    where
      behind : (c ∷ cs ≡ []) ⊎ (0 < m) → 0 < m
      behind (inl e) = cc
      behind (inr h) = h

  -- The body of a number.
  pub int_digits :
      (ps : List ParseState) (cs : List ℕ) (b : Scanner) (i : ℕ)
      → Reads input i cs
      → All IsDigit cs
      → Walk (length cs) (at num ps 0 1 b) i num ps 0 1 (i + length cs)
  int_digits ps [] b i r d = Walk-here num ps 0 1 b i (i + 0) (omega arith)
  int_digits ps (c ∷ cs) b i r d =
      let lt = lt_of_get input i c r.0 in
      Walk-trans 1 (length cs) (suc (length cs)) (at num ps 0 1 b) i num num ps ps 0 0 1 1 (suc i)
        (i + suc (length cs)) (omega arith)
        (Walk-step num num ps ps 0 0 1 1 b i (suc i) c r.0 (λ a. digit_in_int ps c a d.0)
          (omega arith) (omega arith))
        (λ a.
          subst (Walk (length cs) (at num ps 0 1 a) (suc i) num ps 0 1) (omega arith)
            (int_digits ps cs a (suc i) r.1 d.1))

  from_positive :
      (st : State) (ps : List ParseState) (c : ℕ) (cs : List ℕ) (b : Scanner) (i : ℕ)
      → ((a : Scanner) → step_in st (at st ps 0 1 a) c ≡ (at num ps 0 1 a, Code.continue))
      → Reads input i (c ∷ cs)
      → All IsDigit cs
      → Walk (suc (length cs)) (at st ps 0 1 b) i num ps 0 1 (i + suc (length cs))
  from_positive st ps c cs b i step r d =
      let lt = lt_of_get input i c r.0 in
      Walk-trans 1 (length cs) (suc (length cs)) (at st ps 0 1 b) i num num ps ps 0 0 1 1 (suc i)
        (i + suc (length cs)) (omega arith)
        (Walk-step st num ps ps 0 0 1 1 b i (suc i) c r.0 step (omega arith) (omega arith))
        (λ a.
          subst (Walk (length cs) (at num ps 0 1 a) (suc i) num ps 0 1) (omega arith)
            (int_digits ps cs a (suc i) r.1 d))

  -- A number after its `i`, up to its `e`.
  abbrev pub Body : List ParseState → Scanner → ℕ → List ℕ → Type 0
  Body ps b i w =
      (st : State) × IsNumber st
      × Walk (length w) (at State.begin_int ps 0 1 b) i st ps 0 1 (i + length w)

  zero-Body :
      (ps : List ParseState) (b : Scanner) (i : ℕ)
      → Reads input i (b'0' ∷ [])
      → Body ps b i (b'0' ∷ [])
  unfolding IsNumber
  zero-Body ps b i r =
      let lt = lt_of_get input i b'0' r.0 in
      (
        zero_int,
        inr refl,
        Walk-step State.begin_int zero_int ps ps 0 0 1 1 b i (i + 1) b'0' r.0 (zero_first ps)
            (omega arith) (omega arith),
      )

  positive-Body :
      (ps : List ParseState) (n : ℕ) (b : Scanner) (i : ℕ)
      → 0 < n
      → (d : Digits n) → Reads input i (d.first ∷ d.others)
      → Body ps b i (d.first ∷ d.others)
  unfolding IsNumber
  positive-Body ps n b i h d r = (
    num,
    inl refl,
    from_positive State.begin_int ps d.first d.others b i
        (λ a. positive_first ps d.first a d.first-IsDigit (d.first_positive h)) r d.others-IsDigit,
  )

  negative-Body :
      (ps : List ParseState) (n : ℕ) (b : Scanner) (i : ℕ)
      → 0 < n
      → (d : Digits n) → Reads input i (b'-' ∷ d.first ∷ d.others)
      → Body ps b i (b'-' ∷ d.first ∷ d.others)
  unfolding IsNumber
  negative-Body ps n b i h d r =
      let lt = lt_of_get input i b'-' r.0 in
      let k = suc (length d.others) in
      (
        num,
        inl refl,
        Walk-trans 1 k (suc k) (at State.begin_int ps 0 1 b) i neg num ps ps 0 0 1 1 (suc i)
            (i + suc k) (omega arith)
            (Walk-step State.begin_int neg ps ps 0 0 1 1 b i (suc i) b'-' r.0 (minus_first ps)
              (omega arith) (omega arith))
            (λ a. subst (Walk k (at neg ps 0 1 a) (suc i) num ps 0 1) (omega arith) (
              from_positive neg ps d.first d.others a (suc i)
                (λ a'. behind_minus ps d.first a' d.first-IsDigit (d.first_positive h)) r.1
                d.others-IsDigit)),
      )

  pub int-Body :
      (ps : List ParseState) (z : ℤ) (b : Scanner) (i : ℕ)
      → Reads input i (decimal_int z)
      → Body ps b i (decimal_int z)
  unfolding decimal_int
  int-Body ps (pos zero) b i r =
      subst (λ w. Reads input i w → Body ps b i w) (sym (decimal_small 0 (omega arith)))
        (zero-Body ps b i) r
  int-Body ps (pos (suc n)) b i r =
      let d = digits_of (suc n) in
      subst (λ w. Reads input i w → Body ps b i w) (sym d.written)
        (positive-Body ps (suc n) b i (omega arith) d) r
  int-Body ps (negsuc n) b i r =
      let d = digits_of (suc n) in
      subst (λ w. Reads input i (b'-' ∷ w) → Body ps b i (b'-' ∷ w)) (sym d.written)
        (negative-Body ps (suc n) b i (omega arith) d) r
