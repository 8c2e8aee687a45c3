-- ===== src/Bencode/Rounds.antt =====
-- How deep the state functions call each other, and an input on which the loop of `checkValid` turns
-- for ever.
use bget.Common.{
  ℕ, zero, suc, ◌+◌, ◌<◌, true, false, ◌==◌, List, [], ◌∷◌, some, length, get_elem?, ap, ◌≡◌, refl,
  arith, ◌∙◌,
}
use bget.Bencode.Scanner.{
  ParseState, dict_key, dict_value, list_value, State, end_top, Code, Scanner, is_space, int64,
  fresh, reset, state_begin_value, end_value_in, end_value_to, state_end_value, step_in,
}
use bget.Bencode.Valid.{beyond, running, before, is_error, check_from}

-- stateEndValue and stateBeginValue call each other at most twice: with a larger bound on the depth the
-- result is the same, in every state and at every byte.
pub state_end_value_depth :
    (n : ℕ) (s : Scanner) (c : ℕ) → end_value_to (suc (suc n)) s c ≡ state_end_value s c
unfolding state_end_value
state_end_value_depth n s c = by_stack n s.parse_state s c
  where
    by_stack :
        (n : ℕ) (ps : List ParseState) (s : Scanner) (c : ℕ)
        → end_value_in (state_begin_value (end_value_to (suc n))) ps s c
          ≡ end_value_in (state_begin_value (end_value_to 1)) ps s c
    by_stack n [] s c = refl
    by_stack n (dict_key ∷ ps) s c = ground arith
    by_stack n (dict_value ∷ ps) s c = ground arith
    by_stack n (list_value ∷ ps) s c = ground arith

-- One round of the loop that is not its last.
pub check_from_round :
    (fuel : ℕ) (s t : Scanner) (i c : ℕ) (input : List ℕ) (code : Code)
    → i < length input
    → get_elem? input i ≡ some c
    → step_in s.step (before s) c ≡ (t, code)
    → is_error code ≡ false
    → check_from (suc fuel) s i input ≡ check_from fuel t (int64 (i + t.step_size)) input
unfolding check_from
check_from_round fuel s t i c input code h e st ok =
    let here : (i == length input) ≡ false = ground arith in
    let inside : beyond i (length input) ≡ false = ground arith in
    ground (arith, here, inside, e, st, ok)

-- Behind the top-level value with a step size of 0 the loop does not move.
stands_still :
    (fuel : ℕ) (s : Scanner) (c : ℕ) (rest : List ℕ)
    → s.step ≡ end_top
    → s.step_size ≡ 0
    → is_space c ≡ true
    → check_from fuel s 2 (b'0' ∷ b':' ∷ c ∷ rest) ≡ running
stands_still zero s c rest h k w = unfold check_from in refl
stands_still (suc fuel) s c rest h k w =
    check_from_round fuel s (before s) 2 c _ Code.end (omega arith) refl
      (rw h (unfold step_in in rw w)) refl
    ∙ ap (λ n. check_from fuel (before s) n (b'0' ∷ b':' ∷ c ∷ rest)) (omega arith)
    ∙ stands_still fuel (before s) c rest h k w

-- A round does not end a loop that goes on for ever from the next state.
goes_on :
    (s t : Scanner) (i c : ℕ) (input : List ℕ) (code : Code)
    → i < length input
    → get_elem? input i ≡ some c
    → step_in s.step (before s) c ≡ (t, code)
    → is_error code ≡ false
    → ((fuel : ℕ) → check_from fuel t (int64 (i + t.step_size)) input ≡ running)
    → (fuel : ℕ) → check_from fuel s i input ≡ running
goes_on s t i c input code h e st ok later zero = unfold check_from in refl
goes_on s t i c input code h e st ok later (suc fuel) =
    check_from_round fuel s t i c input code h e st ok ∙ later fuel

abbrev read_zero : Scanner
read_zero = record (before (reset fresh)) { step = State.begin_string; string_len = 0 }

abbrev read_colon : Scanner
read_colon = record (before read_zero) { step = State.in_string }

abbrev read_empty : Scanner
read_empty = record (before read_colon) { step = State.end_value; step_size = 0; string_len = 0 }

abbrev at_top : Scanner
at_top = record (before read_empty) { step = end_top; end_top = true }

-- `Valid` does not return on an empty string with white space behind it: whatever the number of rounds,
-- the loop of checkValid is still running after them.
pub check_valid_runs_on :
    (fuel c : ℕ) (rest : List ℕ)
    → is_space c ≡ true
    → check_from fuel (reset fresh) 0 (b'0' ∷ b':' ∷ c ∷ rest) ≡ running
unfolding reset step_in
check_valid_runs_on fuel c rest w =
    goes_on (reset fresh) read_zero 0 b'0' _ Code.begin_string (omega arith) refl refl refl
      (goes_on read_zero read_colon 1 b':' _ Code.in_string (omega arith) refl refl refl (
        goes_on read_colon read_empty 2 c _ Code.continue (omega arith) refl refl refl (
          goes_on read_empty at_top 2 c _ Code.end (omega arith) refl (rw w) refl
            (λ f. stands_still f at_top c rest refl refl w))))
      fuel
