-- ===== src/Bencode/RoundTrip.antt =====
-- Unmarshal gives back what Marshal has written.
use bget.Common.{
  ℕ, suc, ◌-◌, ◌^◌, ◌<◌, List, [], ◌∷◌, Option, none, some, length, ◌≡◌, refl, arith, ap, ◌∙◌,
  length-append,
}
use mathlib.Core.Path.{subst}
use bget.Common.Decimal.{decimal_int}
use bget.Common.Go.{Result, ok, err, panic, ◌>>=◌}
use bget.Common.Int.{ℤ}
use bget.Bencode.Scanner.{Code, ParseState, Scanner, end_value, begin_value, fresh, reset}
use bget.Bencode.Valid.{valid, check_valid, rounds}
use bget.Bencode.Encode.{Bytes, marshal}
use bget.Bencode.Decoded.{Decoded, int, str, list, dict, failed, no_fields, DecodeError}
use bget.Bencode.Decode.{
  Decoder, at_eof, scan_next, scan_while, while_from, slice, int_stored, string_interface,
  value_interface, list_interface, dict_interface, value, unmarshal_with, unmarshal, returned,
}
use bget.Bencode.Plain.{code, plain, IsPlain, Fits64, marshal-plain}
use bget.Bencode.Reads.{Reads, Reads-self}
use bget.Bencode.Tokens.{at}
use bget.Bencode.Walks.{Walk-here}
use bget.Bencode.Places.{Opens-first}
use bget.Bencode.Whole.{IsFilled, Room-filled, check_valid-code}
use bget.Bencode.Numbers.{int_stored-decimal_int}
use bget.Bencode.Scans.{dec, as_is, same_shape, goes_on, stops, Onward-end, scan_while-Walk}
use bget.Bencode.Strings.{in_number, number_read}
use bget.Bencode.Reader.{started, Leads-value}
use bget.Bencode.ReadBack.{value_read}

abbrev onto :
    {X Y : Type 0} → (X → Y) → (Decoder → Decoder) → X × Decoder → Result DecodeError (Y × Decoder)
onto f g (x, d) = ok (f x, g d)

-- What is done with the result of a call, with the value stored in an interface.
stored :
    {X : Type 0} (f : X → Decoded) (g : Decoder → Decoder) (r : Result DecodeError (X × Decoder))
    (v : Decoded) (d₁ : Decoder)
    → (r >>= onto f g) ≡ ok (v, d₁)
    → (r >>= onto (λ x. some (f x)) g) ≡ ok (some v, d₁)
stored f g (ok (x, d)) v d₁ e = ap (λ r. r >>= onto some (λ d. d)) e
stored f g (err c) v d₁ e = cc
stored f g panic v d₁ e = cc

-- Every value but a number, for which the code has a second way to store it.
abbrev IsNoNumber : Decoded → Type 0
IsNoNumber (int z) = ⊥
IsNoNumber _ = Unit

module _ (input : Bytes) where
  value_stored :
      (d : Decoded)
      → IsPlain d
      → IsNoNumber d
      → (ps : List ParseState) (i : ℕ) (b : Scanner) (d₁ : Decoder)
      → value_interface input (suc (rounds input)) (dec i (started ps d b)) ≡ ok (d, d₁)
      → value input (dec i (started ps d b)) ≡ ok (some d, d₁)
  unfolding value
  value_stored (int z) h n ps i b d₁ e = absurd n
  value_stored (str w) h n ps i b d₁ e =
      stored str (λ d. d) (string_interface input (dec i (started ps (str w) b))) (str w) d₁ e
  value_stored (list vs) h n ps i b d₁ e =
      stored list (scan_next input)
        (list_interface input (rounds input) (scan_next input (dec i (started ps (list vs) b))))
        (list vs) d₁ e
  value_stored (dict fs) h n ps i b d₁ e =
      stored dict (scan_next input)
        (dict_interface input (rounds input) no_fields
          (scan_next input (dec i (started ps (dict fs) b))))
        (dict fs) d₁ e
  value_stored (failed x) h n ps i b d₁ e = absurd h

  number_stored :
      (d d₁ : Decoder) (w : Bytes) (v : Decoded)
      → d.opcode ≡ Code.begin_int
      → scan_while input d ≡ ok d₁
      → slice input d.off (d₁.off - 1) ≡ ok w
      → int_stored input w d₁ ≡ ok (some v, d₁)
      → value input d ≡ ok (some v, scan_next input d₁)
  unfolding value
  number_stored d d₁ w v op e e₁ e₂ = rw (op, e, e₁, e₂)

  module _ (short : length input < 2 ^ 63) where
    -- The value of a whole input.
    abbrev Stored : Decoded → Scanner → Type 0
    Stored d b =
        (d₁ : Decoder) × (value input (dec 1 (started [] d b)) ≡ ok (some d, d₁))
        × (d₁.saved ≡ none)

    number_whole : (z : ℤ) → Fits64 z → code (int z) ≡ input → (b : Scanner) → Stored (int z) b
    unfolding code
    number_whole z h e b =
        let n = length input in
        let r = subst (λ w. Reads w 0 (code (int z))) e (Reads-self (code (int z))) in
        let onward = Onward-end input short [] n refl in
        let size = length-append (decimal_int z) (b'e' ∷ []) in
        let (b', scan, text) =
          number_read input short [] z 0 n b (omega (arith, size, ap length e)) r.1 in
        (
          dec (suc n) (at end_value [] 0 1 b', at_eof (at end_value [] 0 1 b')),
          number_stored (dec 1 (in_number [] b)) (dec n (at end_value [] 0 1 b', Code.end_int))
                (decimal_int z) (int z) refl scan text
                (int_stored-decimal_int input z (dec n (at end_value [] 0 1 b', Code.end_int)) h)
              ∙ ap (λ d. ok (some (int z), d)) (onward.1 1 b' Code.end_int),
          refl,
        )

    other_whole :
        (d : Decoded)
        → IsPlain d
        → IsFilled d
        → IsNoNumber d
        → code d ≡ input
        → (b : Scanner) → Stored d b
    other_whole d h filled n e b =
        let size : length (code d) ≡ length input = ap length e in
        let (z, b', run) =
          value_read input short d h (suc (rounds input)) [] 0 (length input)
            (λ z b. (at end_value [] 0 z b, at_eof (at end_value [] 0 z b))) b (omega (arith, size))
            (omega (arith, size)) (subst (λ w. Reads w 0 (code d)) e (Reads-self (code d)))
            (Room-filled input short d (length input) filled)
            (Onward-end input short [] (length input) refl) in
        (
          dec (suc (length input)) (at end_value [] 0 z b', at_eof (at end_value [] 0 z b')),
          value_stored d h n [] 1 b
              (dec (suc (length input)) (at end_value [] 0 z b', at_eof (at end_value [] 0 z b')))
              run,
          refl,
        )

    value_whole :
        (d : Decoded) → IsPlain d → IsFilled d → code d ≡ input → (b : Scanner) → Stored d b
    value_whole (int z) h filled e b = number_whole z h e b
    value_whole (str w) h filled e b = other_whole (str w) h filled tt e b
    value_whole (list vs) h filled e b = other_whole (list vs) h filled tt e b
    value_whole (dict fs) h filled e b = other_whole (dict fs) h filled tt e b
    value_whole (failed x) h filled e b = absurd h

    -- The first call of scanWhile stops behind the first byte.
    first_byte :
        (d : Decoded)
        → IsPlain d
        → code d ≡ input
        → (s : Scanner) → s.string_len ≡ 0
        → (b : Scanner) × (scan_while input (dec 0 (reset s, Code.continue))
            ≡ ok (dec 1 (started [] d b)))
    unfolding reset
    first_byte d h e s zero_len =
        let r = subst (λ w. Reads w 0 (code d)) e (Reads-self (code d)) in
        let (c, at_c, step, other, one) =
          Leads-value input begin_value [] [] 1 0 d h (Opens-first []) r in
        let same : reset s ≡ at begin_value [] 0 1 (reset s) =
          ap (λ n. record (reset s) { string_len = n }) zero_len in
        let (b, run) =
          scan_while-Walk input short 0 0 0 (at begin_value [] 0 1 (reset s)) Code.continue
            begin_value [] 0 1 (started [] d) (omega arith)
            (Walk-here input as_is (while_from input) same_shape (goes_on input short) short
              begin_value [] 0 1 (reset s) 0 0 refl)
            (λ a fuel.
              stops input short fuel (at begin_value [] 0 1 a) (started [] d a).0 0 c
                (started [] d a).1 at_c (step a) (other a)
              ∙ ap (λ n. ok ((started [] d a).0, n, (started [] d a).1)) (omega (arith, one a))) in
        (b, ap (λ s. scan_while input (dec 0 (s, Code.continue))) same ∙ run)

    returned_clean :
        (d : Decoder) (v : Decoded) → d.saved ≡ none → returned input (some v, d) ≡ ok (some v)
    returned_clean d v clean = by_saved d.saved clean
      where
        by_saved :
            (saved : Option DecodeError)
            → saved ≡ none
            → returned input (some v, record d { saved = saved }) ≡ ok (some v)
        by_saved none e = refl
        by_saved (some x) e = cc

    whole_input :
        (d : Decoded)
        → IsPlain d
        → IsFilled d
        → code d ≡ input
        → (s : Scanner) → s.string_len ≡ 0
        → unmarshal_with input s ≡ ok (some d)
    unfolding unmarshal_with
    whole_input d h filled e s zero_len =
        let (b, first) = first_byte d h e s zero_len in
        let (d₁, run, clean) = value_whole d h filled e b in
        rw (first, run) (returned_clean d₁ d clean)

accepted_input :
    (input : Bytes) (s : Scanner) (v : Option Decoded)
    → check_valid input fresh ≡ valid s
    → unmarshal_with input s ≡ ok v
    → unmarshal input ≡ ok v
unfolding unmarshal
accepted_input input s v e run = rw (unmarshal, e, run)

-- Marshal writes the bencode of a plain value, and Unmarshal into an empty interface gives the value
-- back, without an error, unless it is the empty string, where the bencode takes fewer than 2^63 bytes.
pub unmarshal-marshal :
    (d : Decoded)
    → IsPlain d
    → IsFilled d
    → length (code d) < 2 ^ 63
    → (input : Bytes) × (marshal (plain d) ≡ ok input) × (unmarshal input ≡ ok (some d))
unmarshal-marshal d h filled short =
    let (s, accepted, zero_len) = check_valid-code d h filled short in
    (
      code d,
      marshal-plain d h,
      accepted_input (code d) s (some d) accepted
          (whole_input (code d) short d h filled refl s zero_len),
    )
