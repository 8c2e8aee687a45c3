-- ===== src/Bencode/Strings.antt =====
-- The decoder reads back a string and a number that stand in the input.
use bget.Common.{
  ℕ, suc, ◌+◌, ◌-◌, ◌^◌, ◌<◌, ◌≤◌, inl, inr, List, [], ◌∷◌, ◌++◌, length, ◌≡◌, refl, arith, ap, ◌∙◌,
}
use mathlib.Core.Path.{subst}
use bget.Common.Decimal.{decimal_int}
use bget.Common.Digits.{digits_of}
use bget.Common.Go.{ok}
use bget.Common.Int.{ℤ}
use bget.Bencode.Scanner.{State, Code, ParseState, Scanner, end_value}
use bget.Bencode.Encode.{Bytes, string}
use bget.Bencode.Decode.{Decoder, while_from, scan_while, slice, string_interface}
use bget.Bencode.Reads.{Reads, lt_of_get, Reads-left, Reads-right, Reads-le}
use bget.Bencode.Tokens.{at, content, end_of_int}
use bget.Bencode.Walks.{Walk-step, length_digits, int-Body}
use bget.Bencode.Places.{colon}
use bget.Bencode.Accepts.{Followed, get_of_lt, leading}
use bget.Bencode.Heads.{string-written, length-string}
use bget.Bencode.Scans.{
  dec, slice-Reads, as_is, same_shape, goes_on, stops, Onward, scan_while-Walk,
}

-- The scanner and its code after the first digit of a string, and after the `i` of a number.
abbrev pub in_length : List ParseState → Bytes → Scanner → Scanner × Code
in_length ps w b =
    (at State.begin_string ps ((digits_of (length w)).first - b'0') 1 b, Code.begin_string)

abbrev pub in_number : List ParseState → Scanner → Scanner × Code
in_number ps b = (at State.begin_int ps 0 1 b, Code.begin_int)

module _ (input : Bytes) (short : length input < 2 ^ 63) where
  -- The first call of scanWhile stops behind the colon.
  to_colon :
      (ps : List ParseState) (w : Bytes) (i k : ℕ) (b : Scanner)
      → length (digits_of (length w)).others ≡ k
      → Reads input (suc i) ((digits_of (length w)).others ++ (b':' ∷ w))
      → (b' : Scanner) × (scan_while input (dec (suc i) (in_length ps w b))
          ≡ ok (dec (i + k + 2) (at State.in_string ps (length w) 1 b', Code.in_string)))
  to_colon ps w i k b e r =
      let d = digits_of (length w) in
      let digits = Reads-left input (suc i) d.others (b':' ∷ w) r in
      let tail = Reads-right input (suc i) d.others (b':' ∷ w) r in
      let lt = lt_of_get input (suc i + length d.others) b':' tail.0 in
      let fits = Reads-le input (suc (suc i + length d.others)) w (omega arith) tail.1 in
      let (b', run) =
        scan_while-Walk input short (length d.others) (suc i) (suc i + length d.others)
          (at State.begin_string ps (d.first - b'0') 1 b) Code.begin_string State.begin_string ps
          (length w) 1 (λ a. (at State.in_string ps (length w) 1 a, Code.in_string)) (omega arith)
          (subst
            (λ x.
              (a : Scanner) × ((fuel : ℕ)
                → while_from input (length d.others + fuel)
                    (at State.begin_string ps (d.first - b'0') 1 b) (suc i)
                  ≡ while_from input fuel (at State.begin_string ps x 1 a)
                      (suc i + length d.others)))
            d.value
            (length_digits input as_is (while_from input) same_shape (goes_on input short) short ps
              d.others (d.first - b'0') b (suc i) digits d.others-IsDigit (leading (length w) d)
              (omega (arith, d.value))))
          (λ a fuel.
            stops input short fuel (at State.begin_string ps (length w) 1 a)
              (at State.in_string ps (length w) 1 a) (suc i + length d.others) b':' Code.in_string
              tail.0 (colon ps (length w) a) refl
            ∙ ap (λ n. ok (at State.in_string ps (length w) 1 a, n, Code.in_string))
                (omega arith)) in
      (
        b',
        run
            ∙ ap (λ n. ok (dec n (at State.in_string ps (length w) 1 b', Code.in_string)))
                (omega arith),
      )

  string_interface_lem :
      (d d₁ d₂ : Decoder) (w : Bytes)
      → scan_while input d ≡ ok d₁
      → scan_while input d₁ ≡ ok d₂
      → slice input d₁.off (d₂.off - 1) ≡ ok w
      → string_interface input d ≡ ok (w, d₂)
  unfolding string_interface
  string_interface_lem d d₁ d₂ w e e₁ e₂ = rw (e, e₁, e₂)

  -- From behind the first digit on, with at least one byte to skip the content on.
  pub string_read :
      (ps : List ParseState) (w : Bytes) (i j : ℕ) (A : ℕ → Scanner → Scanner × Code) (b : Scanner)
      → i + length (string w) ≡ j
      → Reads input i (string w)
      → Followed input (length w) j
      → Onward input short ps j A
      → (z : ℕ) × (b' : Scanner) × (string_interface input (dec (suc i) (in_length ps w b))
          ≡ ok (w, dec (suc j) (A z b')))
  string_read ps w i j A b e r room onward =
      let d = digits_of (length w) in
      let k = length d.others in
      let n = length w in
      let sum : i + k + 2 + n ≡ j = omega (arith, length-string w) in
      let bytes = (subst (Reads input i) (string-written w) r).1 in
      let tail = (Reads-right input (suc i) d.others (b':' ∷ w) bytes).1 in
      let text : Reads input (i + k + 2) w = subst (λ m. Reads input m w) (omega arith) tail in
      let lt =
        lt_of_get input (suc i + k) b':' (Reads-right input (suc i) d.others (b':' ∷ w) bytes).0 in
      let fits = Reads-le input (i + k + 2) w (omega arith) text in
      let (b₁, first) = to_colon ps w i k b refl bytes in
      let next = get_of_lt input (i + k + 2) (inside room fits) in
      let (b₂, second) =
        scan_while-Walk input short 1 (i + k + 2) j (at State.in_string ps n 1 b₁) Code.in_string
          end_value ps 0 n (A n) (omega arith)
          (Walk-step input as_is (while_from input) same_shape (goes_on input short) short
            State.in_string end_value ps ps n 0 1 n b₁ (i + k + 2) j next.0 next.1
            (content ps n next.0) sum (omega arith))
          (onward.0 n) in
      (
        n,
        b₂,
        string_interface_lem (dec (suc i) (in_length ps w b))
            (dec (i + k + 2) (at State.in_string ps n 1 b₁, Code.in_string)) (dec (suc j) (A n b₂))
            w first second
            (slice-Reads input (i + k + 2) (suc j - 1) w (omega arith) (omega arith) text),
      )
    where
      inside :
          Followed input (length w) j
          → i + length (digits_of (length w)).others + 2 + length w ≤ length input
          → i + length (digits_of (length w)).others + 2 < length input
      inside (inl h) fits = omega (arith, e, length-string w)
      inside (inr h) fits = omega arith

  -- From behind the `i` to behind the `e`.
  pub number_read :
      (ps : List ParseState) (z : ℤ) (i j : ℕ) (b : Scanner)
      → i + length (decimal_int z) + 2 ≡ j
      → Reads input (suc i) (decimal_int z ++ b'e' ∷ [])
      → (b' : Scanner) × (scan_while input (dec (suc i) (in_number ps b))
          ≡ ok (dec j (at end_value ps 0 1 b', Code.end_int)))
        × (slice input (suc i) (j - 1) ≡ ok (decimal_int z))
  number_read ps z i j b e r =
      let k = length (decimal_int z) in
      let digits = Reads-left input (suc i) (decimal_int z) (b'e' ∷ []) r in
      let tail = Reads-right input (suc i) (decimal_int z) (b'e' ∷ []) r in
      let lt = lt_of_get input (suc i + k) b'e' tail.0 in
      let (last, number, walk) =
        int-Body input as_is (while_from input) same_shape (goes_on input short) short ps z b
          (suc i) digits in
      let (b', run) =
        scan_while-Walk input short k (suc i) (suc i + k) (at State.begin_int ps 0 1 b)
          Code.begin_int last ps 0 1 (λ a. (at end_value ps 0 1 a, Code.end_int)) (omega arith) walk
          (λ a fuel.
            stops input short fuel (at last ps 0 1 a) (at end_value ps 0 1 a) (suc i + k) b'e'
              Code.end_int tail.0 (end_of_int last ps a number) refl
            ∙ ap (λ n. ok (at end_value ps 0 1 a, n, Code.end_int)) (omega arith)) in
      (
        b',
        run ∙ ap (λ n. ok (dec n (at end_value ps 0 1 b', Code.end_int))) (omega arith),
        slice-Reads input (suc i) (j - 1) (decimal_int z) (omega arith) (omega arith) digits,
      )
