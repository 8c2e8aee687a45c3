-- ===== src/Bencode/Scans.antt =====
-- What `scanNext` and `scanWhile` of the decoder do at an offset.
use bget.Common.{
  ℕ, suc, ◌+◌, ◌-◌, ◌^◌, ◌<◌, ◌≤◌, false, List, none, some, length, get_elem?, ◌≡◌, refl, arith, ap,
  ◌∙◌,
}
use bget.Common.Go.{ok}
use bget.Bencode.Scanner.{State, Code, ParseState, Scanner, int64, step_in, end_value}
use bget.Bencode.Valid.{rounds}
use bget.Bencode.Encode.{Bytes}
use bget.Bencode.Decode.{Decoder, is_continue, at_eof, scan_next, while_from, scan_while, slice}
use bget.Bencode.Reads.{Reads, lt_of_get, get_or_of_get, take-drop-Reads}
use bget.Bencode.Tokens.{at}
use bget.Bencode.Walks.{Walk}

-- A decoder without a saved error.
abbrev pub dec : ℕ → Scanner × Code → Decoder
dec i x = record { off = i; opcode = x.1; scan = x.0; saved = none }

pub slice-Reads :
    (input : Bytes) (i j : ℕ) (w : Bytes)
    → i + length w ≡ j
    → j ≤ length input
    → Reads input i w
    → slice input i j ≡ ok w
unfolding slice
slice-Reads input i j w sum le r =
    let same : j - i ≡ length w = omega arith in
    rw (same, take-drop-Reads input i w r) (ground arith)

abbrev pub as_is : Scanner → Scanner
as_is s = s

abbrev pub same_shape :
    (st : State) (ps : List ParseState) (len size : ℕ) (b : Scanner)
    → (b' : Scanner) × (as_is (at st ps len size b) ≡ at st ps len size b')
same_shape st ps len size b = (b, refl)

module _ (input : Bytes) (short : length input < 2 ^ 63) where
  pub goes_on :
      (fuel : ℕ) (s t : Scanner) (i c : ℕ)
      → get_elem? input i ≡ some c
      → step_in s.step s c ≡ (t, Code.continue)
      → while_from input (suc fuel) s i ≡ while_from input fuel t (int64 (i + t.step_size))
  unfolding while_from
  goes_on fuel s t i c e st = ground (arith, lt_of_get input i c e, get_or_of_get input i c e, st)

  pub stops :
      (fuel : ℕ) (s t : Scanner) (i c : ℕ) (op : Code)
      → get_elem? input i ≡ some c
      → step_in s.step s c ≡ (t, op)
      → is_continue op ≡ false
      → while_from input (suc fuel) s i ≡ ok (t, int64 (i + t.step_size), op)
  unfolding while_from
  stops fuel s t i c op e st other =
      ground (arith, lt_of_get input i c e, get_or_of_get input i c e, st, other)

  pub ends :
      (fuel : ℕ) (s : Scanner) (i : ℕ)
      → length input ≤ i
      → while_from input (suc fuel) s i ≡ ok (s, length input + 1, at_eof s)
  unfolding while_from
  ends fuel s i h = ground arith

  pub scan_next_here :
      (i c : ℕ) (s : Scanner) (o : Code) (x : Scanner × Code)
      → get_elem? input i ≡ some c
      → step_in s.step s c ≡ x
      → x.0.step_size ≡ 1
      → scan_next input (dec i (s, o)) ≡ dec (suc i) x
  unfolding scan_next
  scan_next_here i c s o x e st one =
      let lt = lt_of_get input i c e in ground (arith, lt, get_or_of_get input i c e, st, one)

  pub scan_next_end :
      (i : ℕ) (s : Scanner) (o : Code)
      → length input ≡ i
      → scan_next input (dec i (s, o)) ≡ dec (suc i) (s, at_eof s)
  unfolding scan_next
  scan_next_end i s o e = ground arith

  -- What a decoder meets behind a value that ends at `j`: the scanner and its code are `A` of the step
  -- size and of the scanner's rest.
  abbrev pub Onward : List ParseState → ℕ → (ℕ → Scanner → Scanner × Code) → Type 0
  Onward ps j A =
      ((z : ℕ) (b : Scanner) (fuel : ℕ)
        → while_from input (suc fuel) (at end_value ps 0 z b) j ≡ ok ((A z b).0, suc j, (A z b).1))
      × ((z : ℕ) (b : Scanner) (o : Code)
          → scan_next input (dec j (at end_value ps 0 z b, o)) ≡ dec (suc j) (A z b))

  pub Onward-of :
      (ps : List ParseState) (j c : ℕ) (A : ℕ → Scanner → Scanner × Code)
      → get_elem? input j ≡ some c
      → ((z : ℕ) (b : Scanner) → step_in end_value (at end_value ps 0 z b) c ≡ A z b)
      → ((z : ℕ) (b : Scanner) → is_continue (A z b).1 ≡ false)
      → ((z : ℕ) (b : Scanner) → (A z b).0.step_size ≡ 1)
      → Onward ps j A
  Onward-of ps j c A e step other one =
      let lt = lt_of_get input j c e in
      (
        λ z b fuel.
            stops fuel (at end_value ps 0 z b) (A z b).0 j c (A z b).1 e (step z b) (other z b)
            ∙ ap (λ k. ok ((A z b).0, k, (A z b).1)) (omega (arith, one z b)),
        λ z b o. scan_next_here j c (at end_value ps 0 z b) o (A z b) e (step z b) (one z b),
      )

  pub Onward-end :
      (ps : List ParseState) (j : ℕ)
      → length input ≡ j
      → Onward ps j (λ z b. (at end_value ps 0 z b, at_eof (at end_value ps 0 z b)))
  Onward-end ps j e = (
    λ z b fuel.
        ends fuel (at end_value ps 0 z b) j (omega arith)
        ∙ ap (λ k. ok (at end_value ps 0 z b, k, at_eof (at end_value ps 0 z b))) (omega arith),
    λ z b o. scan_next_end j (at end_value ps 0 z b) o e,
  )

  -- A walk of the loop and the round behind it that stops.
  pub scan_while-Walk :
      (k i j : ℕ) (s : Scanner) (o : Code) (st : State) (ps : List ParseState) (len size : ℕ)
      (t : Scanner → Scanner × Code)
      → k < rounds input
      → Walk input as_is (while_from input) same_shape goes_on short k s i st ps len size j
      → ((b : Scanner) (fuel : ℕ)
          → while_from input (suc fuel) (at st ps len size b) j ≡ ok ((t b).0, suc j, (t b).1))
      → (b : Scanner) × (scan_while input (dec i (s, o)) ≡ ok (dec (suc j) (t b)))
  unfolding scan_while
  scan_while-Walk k i j s o st ps len size t lt (b, walk) stop =
      let parted : rounds input ≡ k + suc (rounds input - suc k) = omega arith in
      (
        b,
        rw (
            ap (λ f. while_from input f s i) parted
            ∙ walk (suc (rounds input - suc k))
            ∙ stop b (rounds input - suc k)),
      )
