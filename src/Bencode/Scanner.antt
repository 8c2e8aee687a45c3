-- ===== src/Bencode/Scanner.antt =====
-- bencode/scanner.go: the state machine. The field `step`, a function in the code, is the name of the
-- state function; `parseState` is a stack with its top first; `stepSize`, `stringLen` and `bytes` are
-- 64-bit patterns.
use bget.Common.{
  ℕ, zero, suc, ◌+◌, ◌-◌, ◌*◌, ◌%◌, ◌^◌, Bool, true, false, not, ◌&&◌, ◌||◌, ltb, leb, ◌==◌,
  if◌then◌else◌, List, [], ◌∷◌, Option, none, some,
}

abbrev pub int64 : ℕ → ℕ
int64 n = n % 2 ^ 64

pub data State : Type 0 where
  begin_value end_value begin_string in_string begin_int neg zero_int num end_top error : State

pub data Code : Type 0 where
  continue begin_string in_string begin_int end_int begin_dict end_dict begin_list end_list : Code
  end error : Code

pub data ParseState : Type 0 where
  dict_key dict_value list_value : ParseState

-- What a SyntaxError says: its message, of which a character's context is a part, and its offset.
pub data Context : Type 0 where
  beginning_of_value key_value_pair string_length begin_int numeric_literal leading_zero : Context
  after_top_level : Context

pub data Reason : Type 0 where
  invalid_character : ℕ → Context → Reason
  unexpected_end out_of_index : Reason

pub record SyntaxError : Type 0 where
  pub reason : Reason
  pub offset : ℕ

pub record Scanner : Type 0 where
  pub step : State
  pub end_top : Bool
  pub parse_state : List ParseState
  pub err : Option SyntaxError
  pub step_size : ℕ
  pub string_len : ℕ
  pub bytes : ℕ

-- `reset` keeps `stringLen` and `bytes`, which are 0 in the scanner that `Valid` makes.
unfoldable pub reset : Scanner → Scanner
reset s = record s {
  step = begin_value;
  parse_state = [];
  step_size = 1;
  err = none;
  end_top = false;
}

abbrev pub fresh : Scanner
fresh = record {
  step = begin_value;
  end_top = false;
  parse_state = [];
  err = none;
  step_size = 0;
  string_len = 0;
  bytes = 0;
}

abbrev pub push_parse_state : ParseState → Scanner → Scanner
push_parse_state p s = record s { parse_state = p ∷ s.parse_state }

-- Below the top that is popped.
abbrev pub pop_to : List ParseState → Scanner → Scanner
pop_to [] s = record s { parse_state = []; step = end_top; end_top = true }
pop_to (p ∷ ps) s = record s { parse_state = p ∷ ps; step = end_value }

abbrev pub is_space : ℕ → Bool
is_space c = c == b' ' || c == b'\t' || c == b'\r' || c == b'\n' || c == 0

abbrev pub fail : Context → Scanner → ℕ → Scanner × Code
fail context s c = (
  record s {
    step = error;
    err = some (record { reason = invalid_character c context; offset = s.bytes });
  },
  error,
)

-- The bounds of the digits, with and without 0.
abbrev pub is_digit : ℕ → Bool
is_digit c = leb b'0' c && leb c b'9'

abbrev pub is_positive : ℕ → Bool
is_positive c = ltb b'0' c && leb c b'9'

abbrev pub start_string : Scanner → ℕ → Scanner × Code
start_string s c = (record s { step = begin_string; string_len = c - b'0' }, begin_string)

-- `stateEndTop`: an error here is recorded, but scanEnd is returned all the same.
unfoldable pub state_end_top : Scanner → ℕ → Scanner × Code
state_end_top s c = (if not (is_space c) then (fail after_top_level s c).0 else s, end)

-- `stateBeginValue`, over the function that it calls at an `e`.
unfoldable pub state_begin_value : (Scanner → ℕ → Scanner × Code) → Scanner → ℕ → Scanner × Code
state_begin_value ends s c =
    if c == b'd'
    then (push_parse_state dict_key (record s { step = begin_string }), begin_dict)
    else if c == b'l'
    then (push_parse_state list_value (record s { step = begin_value }), begin_list)
    else if c == b'i'
    then (record s { step = begin_int }, begin_int)
    else if c == b'e'
    then ends s c
    else if is_digit c
    then start_string s c
    else fail beginning_of_value s c

-- `stateEndValue` by the parse state on top, over `stateBeginValue`.
unfoldable pub end_value_in :
    (Scanner → ℕ → Scanner × Code) → List ParseState → Scanner → ℕ → Scanner × Code
unfolding state_end_top
end_value_in begins [] s c = state_end_top (record s { step = end_top; end_top = true }) c
end_value_in begins (dict_key ∷ ps) s c =
    begins (record s { step_size = 1; parse_state = dict_value ∷ ps }) c
end_value_in begins (dict_value ∷ ps) s c =
    let s₁ = record s { step_size = 1 } in
    if is_positive c
    then start_string (record s₁ { parse_state = dict_key ∷ ps }) c
    else if c == b'e'
    then (record (pop_to ps s₁) { step = end_value }, end_dict)
    else fail key_value_pair s₁ c
end_value_in begins (list_value ∷ ps) s c =
    let s₁ = record s { step_size = 1 } in
    if not (c == b'e') then begins s₁ c else (record (pop_to ps s₁) { step = end_value }, end_list)

-- The two functions call each other; `n` bounds how deep. At 0 the result is no outcome of the code.
unfoldable pub end_value_to : ℕ → Scanner → ℕ → Scanner × Code
unfolding state_begin_value end_value_in
end_value_to zero s c = (s, error)
end_value_to (suc n) s c = end_value_in (state_begin_value (end_value_to n)) s.parse_state s c

-- Two calls are as deep as it goes.
unfoldable pub state_end_value : Scanner → ℕ → Scanner × Code
unfolding end_value_to
state_end_value = end_value_to 2

unfoldable pub state_begin_string : Scanner → ℕ → Scanner × Code
unfolding state_end_value
state_begin_string s c =
    if is_digit c
    then (if s.string_len == 0
        then (record s { string_len = c - b'0' }, begin_string)
        else (record s { string_len = int64 (s.string_len * 10 + (c - b'0')) }, continue))
    else if c == b':'
    then (record s { step = in_string }, in_string)
    else if c == b'e' && s.string_len == 0
    then state_end_value s c
    else fail string_length s c

unfoldable pub state_in_string : Scanner → ℕ → Scanner × Code
state_in_string s c =
    (record s { step_size = s.string_len; string_len = 0; step = end_value }, continue)

unfoldable pub state_begin_int : Scanner → ℕ → Scanner × Code
state_begin_int s c =
    if c == b'-'
    then (record s { step = neg }, continue)
    else if c == b'0'
    then (record s { step = zero_int }, continue)
    else if is_positive c
    then (record s { step = num }, continue)
    else fail begin_int s c

unfoldable pub state_neg : Scanner → ℕ → Scanner × Code
state_neg s c =
    if is_positive c then (record s { step = num }, continue) else fail numeric_literal s c

unfoldable pub state_0 : Scanner → ℕ → Scanner × Code
state_0 s c = if c == b'e' then (record s { step = end_value }, end_int) else fail leading_zero s c

unfoldable pub state_num : Scanner → ℕ → Scanner × Code
state_num s c =
    if is_digit c
    then (s, continue)
    else if c == b'e'
    then (record s { step = end_value }, end_int)
    else fail numeric_literal s c

-- `s.step(s, c)`
unfoldable pub step_in : State → Scanner → ℕ → Scanner × Code
unfolding state_begin_value state_end_value state_begin_string state_in_string state_begin_int
    state_neg state_0 state_num state_end_top
step_in begin_value s c = state_begin_value state_end_value s c
step_in end_value s c = state_end_value s c
step_in begin_string s c = state_begin_string s c
step_in in_string s c = state_in_string s c
step_in begin_int s c = state_begin_int s c
step_in neg s c = state_neg s c
step_in zero_int s c = state_0 s c
step_in num s c = state_num s c
step_in end_top s c = state_end_top s c
step_in error s c = (s, error)
