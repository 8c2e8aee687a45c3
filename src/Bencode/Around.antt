-- ===== src/Bencode/Around.antt =====
-- A string, a list and a dictionary from their first byte to their last.
use mathlib.Core.Path.{subst}
use bget.Common.{
  ℕ, suc, ◌+◌, ◌-◌, ◌*◌, ◌^◌, ◌<◌, ◌≤◌, inl, false, List, some, length, get_elem?, ◌≡◌, refl, sym,
  arith,
}
use bget.Common.Digits.{digits_of}
use bget.Bencode.Scanner.{State, Code, ParseState, Scanner, end_value, step_in}
use bget.Bencode.Valid.{is_error}
use bget.Bencode.Encode.{Bytes, string}
use bget.Bencode.Decoded.{Decoded, int, str, list, dict, failed}
use bget.Bencode.Reads.{Reads, lt_of_get}
use bget.Bencode.Tokens.{at}
use bget.Bencode.Places.{closed, Closes}
use bget.Bencode.Accepts.{Followed, Passes, hop, then_, string_passes}
use bget.Bencode.Heads.{string-written, length-string}

module _ (input : Bytes) (short : length input < 2 ^ 63) where
  abbrev pub Room : Decoded → ℕ → Type 0
  Room (str w) j = Followed input (length w) j
  Room _ j = Unit

  pub Room-inside : (d : Decoded) (j : ℕ) → j < length input → Room d j
  Room-inside (str w) j h = inl h
  Room-inside (int z) j h = tt
  Room-inside (list vs) j h = tt
  Room-inside (dict fs) j h = tt
  Room-inside (failed b) j h = tt

  -- In at most two rounds for each byte from `i` to `j` the loop comes behind a value.
  abbrev pub Ended : State → List ParseState → ℕ → List ParseState → ℕ → ℕ → Type 0
  Ended st qs size ps i j =
      (k : ℕ) × (z : ℕ) × (k + 2 * i ≤ 2 * j)
      × ((b : Scanner) → Passes input short k (at st qs 0 size b) i end_value ps 0 z j)

  pub string_ends :
      (w : Bytes) (st : State) (qs ps : List ParseState) (size i j : ℕ)
      → ((a : Scanner)
          → step_in st (at st qs 0 size a) (digits_of (length w)).first ≡ (
            at State.begin_string ps ((digits_of (length w)).first - b'0') 1 a,
            Code.begin_string,
          ))
      → i + length (string w) ≡ j
      → Reads input i (string w)
      → Followed input (length w) j
      → Ended st qs size ps i j
  string_ends w st qs ps size i j starts e r room =
      let d = digits_of (length w) in
      let sum : i + length d.others + 2 + length w ≡ j = omega (arith, length-string w) in
      (
        length d.others + 3,
        length w,
        omega (arith, length-string w),
        λ b.
            subst
              (Passes input short (length d.others + 3) (at st qs 0 size b) i end_value ps 0
                (length w))
              sum
              (string_passes input short w st qs ps size b i d starts
                (subst (Reads input i) (string-written w) r)
                (subst (Followed input (length w)) (sym sum) room)),
      )

  -- A list or a dictionary, around its contents.
  pub around :
      (st st₁ st₂ : State) (qs qs₁ qs₂ ps : List ParseState) (size z i m c k : ℕ)
      (begins ends : Code)
      → ((a : Scanner) → step_in st (at st qs 0 size a) c ≡ (at st₁ qs₁ 0 1 a, begins))
      → is_error begins ≡ false
      → is_error ends ≡ false
      → get_elem? input i ≡ some c
      → get_elem? input m ≡ some b'e'
      → k + 2 * suc i ≤ 2 * m
      → Closes st₂ qs₂ z ps ends
      → ((b : Scanner) → Passes input short k (at st₁ qs₁ 0 1 b) (suc i) st₂ qs₂ 0 z m)
      → Ended st qs size ps i (suc m)
  around st st₁ st₂ qs qs₁ qs₂ ps size z i m c k begins ends step good good₂ at_i at_m le closes
        inner =
      let lt = lt_of_get input i c at_i in
      let lt₂ = lt_of_get input m b'e' at_m in
      (
        k + 2,
        1,
        omega arith,
        λ b.
            then_ input short 1 (k + 1) (k + 2) (at st qs 0 size b) i st₁ end_value qs₁ ps 0 0 1 1
              (suc i) (suc m) (omega arith)
              (hop input short st st₁ qs qs₁ 0 0 size 1 (λ a. a) b i (suc i) c begins at_i step good
                (omega arith) (omega arith))
              (λ a.
                then_ input short k 1 (k + 1) (at st₁ qs₁ 0 1 a) (suc i) st₂ end_value qs₂ ps 0 0 z
                  1 m (suc m) refl (inner a)
                  (λ a₂.
                    hop input short st₂ end_value qs₂ ps 0 0 z 1 (closed ps) a₂ m (suc m) b'e' ends
                      at_m closes good₂ (omega arith) (omega arith))),
      )
