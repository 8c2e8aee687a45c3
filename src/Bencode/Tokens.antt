-- ===== src/Bencode/Tokens.antt =====
-- What the scanner does inside of a token, for any loop that steps it and goes on while the code is
-- scanContinue: the loops of `checkValid` and of `scanWhile`.
use bget.Common.{ℕ, ◌+◌, ◌-◌, ◌*◌, ◌^◌, ◌<◌, ◌⊎◌, inl, inr, List, none, ◌≡◌, refl, arith}
use bget.Common.Digits.{IsDigit}
use bget.Bencode.Scanner.{State, Code, ParseState, Scanner, step_in, end_value, neg, zero_int, num}

-- A scanner without an error; the rest of it, `b`, is not read inside of a value.
abbrev pub at : State → List ParseState → ℕ → ℕ → Scanner → Scanner
at st ps len size b = record b {
  step = st;
  parse_state = ps;
  string_len = len;
  step_size = size;
  err = none;
}

pub digit_in_string :
    (ps : List ParseState) (m c : ℕ) (b : Scanner)
    → IsDigit c
    → 0 < m
    → m * 10 + (c - b'0') < 2 ^ 63
    → step_in State.begin_string (at State.begin_string ps m 1 b) c
      ≡ (at State.begin_string ps (m * 10 + (c - b'0')) 1 b, Code.continue)
unfolding step_in
digit_in_string ps m c b d p h = ground arith

pub content :
    (ps : List ParseState) (n c : ℕ) (b : Scanner)
    → step_in State.in_string (at State.in_string ps n 1 b) c
      ≡ (at end_value ps 0 n b, Code.continue)
unfolding step_in
content ps n c b = refl

pub digit_in_int :
    (ps : List ParseState) (c : ℕ) (b : Scanner)
    → IsDigit c
    → step_in num (at num ps 0 1 b) c ≡ (at num ps 0 1 b, Code.continue)
unfolding step_in
digit_in_int ps c b d = ground arith

pub zero_first :
    (ps : List ParseState) (b : Scanner)
    → step_in State.begin_int (at State.begin_int ps 0 1 b) b'0'
      ≡ (at zero_int ps 0 1 b, Code.continue)
unfolding step_in
zero_first ps b = refl

pub positive_first :
    (ps : List ParseState) (c : ℕ) (b : Scanner)
    → IsDigit c
    → b'0' < c
    → step_in State.begin_int (at State.begin_int ps 0 1 b) c ≡ (at num ps 0 1 b, Code.continue)
unfolding step_in
positive_first ps c b d p = ground arith

pub minus_first :
    (ps : List ParseState) (b : Scanner)
    → step_in State.begin_int (at State.begin_int ps 0 1 b) b'-' ≡ (at neg ps 0 1 b, Code.continue)
unfolding step_in
minus_first ps b = refl

pub behind_minus :
    (ps : List ParseState) (c : ℕ) (b : Scanner)
    → IsDigit c
    → b'0' < c
    → step_in neg (at neg ps 0 1 b) c ≡ (at num ps 0 1 b, Code.continue)
unfolding step_in
behind_minus ps c b d p = ground arith

-- A state in which the `e` of a number ends it.
unfoldable pub IsNumber : State → Type 0
IsNumber st = (st ≡ num) ⊎ (st ≡ zero_int)

pub end_of_int :
    (st : State) (ps : List ParseState) (b : Scanner)
    → IsNumber st
    → step_in st (at st ps 0 1 b) b'e' ≡ (at end_value ps 0 1 b, Code.end_int)
unfolding step_in IsNumber
end_of_int st ps b (inl e) = rw e
end_of_int st ps b (inr e) = rw e
