-- ===== src/Bencode/Places.antt =====
-- Where a value may begin, and what the scanner makes of its first byte and of the byte that closes a
-- list or a dictionary.
use bget.Common.{
  ℕ, ◌-◌, ◌<◌, ◌⊎◌, inl, inr, true, ◌==◌, if◌then◌else◌, List, [], ◌∷◌, ◌≡◌, refl, arith,
}
use bget.Common.Digits.{IsDigit}
use bget.Bencode.Scanner.{
  State, Code, ParseState, Scanner, step_in, begin_value, end_value, begin_dict, end_dict,
  begin_list, end_list, dict_key, dict_value, list_value,
}
use bget.Bencode.Tokens.{at}

-- The first byte of a value.
pub data Start : ℕ → Type 0 where
  dict : (c : ℕ) → c ≡ b'd' → Start c
  list : (c : ℕ) → c ≡ b'l' → Start c
  int : (c : ℕ) → c ≡ b'i' → Start c
  string : (c : ℕ) → IsDigit c → Start c

abbrev pub opened : List ParseState → ℕ → Scanner → Scanner × Code
opened ps c b =
    if c == b'd'
    then (at State.begin_string (dict_key ∷ ps) 0 1 b, begin_dict)
    else if c == b'l'
    then (at begin_value (list_value ∷ ps) 0 1 b, begin_list)
    else if c == b'i'
    then (at State.begin_int ps 0 1 b, Code.begin_int)
    else (at State.begin_string ps (c - b'0') 1 b, Code.begin_string)

-- The end of the last list or dictionary ends the top-level value.
abbrev pub closed : List ParseState → Scanner → Scanner
closed [] b = record b { end_top = true }
closed (p ∷ ps) b = b

abbrev pub popped : List ParseState → Scanner → Scanner
popped ps b = at end_value ps 0 1 (closed ps b)

-- A place where a value with the stack `ps` may begin, in a state with the stack `qs`.
abbrev pub Opens : State → List ParseState → ℕ → List ParseState → Type 0
Opens st qs size ps =
    (b : Scanner) (c : ℕ) → Start c → step_in st (at st qs 0 size b) c ≡ opened ps c b

abbrev pub Closes : State → List ParseState → ℕ → List ParseState → Code → Type 0
Closes st qs size ps code =
    (b : Scanner) → step_in st (at st qs 0 size b) b'e' ≡ (popped ps b, code)

-- A place where a key may begin; only the first one may begin with a 0.
abbrev pub OpensKey : State → List ParseState → ℕ → List ParseState → Type 0
OpensKey st qs size ps =
    (b : Scanner) (c : ℕ)
    → IsDigit c
    → (st ≡ State.begin_string) ⊎ (b'0' < c)
    → step_in st (at st qs 0 size b) c
      ≡ (at State.begin_string (dict_key ∷ ps) (c - b'0') 1 b, Code.begin_string)

pub Opens-first : (ps : List ParseState) → Opens begin_value ps 1 ps
unfolding step_in
Opens-first ps b c (dict _ e) = rw e
Opens-first ps b c (list _ e) = rw e
Opens-first ps b c (int _ e) = rw e
Opens-first ps b c (string _ d) = ground arith

pub Opens-next :
    (size : ℕ) (ps : List ParseState) → Opens end_value (list_value ∷ ps) size (list_value ∷ ps)
unfolding step_in
Opens-next size ps b c (dict _ e) = rw e
Opens-next size ps b c (list _ e) = rw e
Opens-next size ps b c (int _ e) = rw e
Opens-next size ps b c (string _ d) = ground arith

pub Opens-behind_key :
    (size : ℕ) (ps : List ParseState) → Opens end_value (dict_key ∷ ps) size (dict_value ∷ ps)
unfolding step_in
Opens-behind_key size ps b c (dict _ e) = rw e
Opens-behind_key size ps b c (list _ e) = rw e
Opens-behind_key size ps b c (int _ e) = rw e
Opens-behind_key size ps b c (string _ d) = ground arith

pub Closes-empty_list : (ps : List ParseState) → Closes begin_value (list_value ∷ ps) 1 ps end_list
unfolding step_in
Closes-empty_list [] b = refl
Closes-empty_list (p ∷ ps) b = refl

pub Closes-list :
    (size : ℕ) (ps : List ParseState) → Closes end_value (list_value ∷ ps) size ps end_list
unfolding step_in
Closes-list size [] b = refl
Closes-list size (p ∷ ps) b = refl

pub Closes-empty_dict :
    (ps : List ParseState) → Closes State.begin_string (dict_key ∷ ps) 1 ps end_dict
unfolding step_in
Closes-empty_dict [] b = refl
Closes-empty_dict (p ∷ ps) b = refl

pub Closes-dict :
    (size : ℕ) (ps : List ParseState) → Closes end_value (dict_value ∷ ps) size ps end_dict
unfolding step_in
Closes-dict size [] b = refl
Closes-dict size (p ∷ ps) b = refl

pub opens_first_key : (ps : List ParseState) → OpensKey State.begin_string (dict_key ∷ ps) 1 ps
unfolding step_in
opens_first_key ps b c d h = ground arith

pub opens_next_key :
    (size : ℕ) (ps : List ParseState) → OpensKey end_value (dict_value ∷ ps) size ps
unfolding step_in
opens_next_key size ps b c d (inl e) = cc
opens_next_key size ps b c d (inr h) = ground arith

pub colon :
    (ps : List ParseState) (n : ℕ) (b : Scanner)
    → step_in State.begin_string (at State.begin_string ps n 1 b) b':'
      ≡ (at State.in_string ps n 1 b, Code.in_string)
unfolding step_in
colon ps n b = refl
