-- ===== src/Bencode/Reader.antt =====
-- `valueInterface`, `listInterface` and `dictInterface` read back the bencode of a plain value that
-- stands in the input.
use bget.Common.{ℕ, false, List, [], ◌∷◌, ◌++◌, some, length, get_elem?, ◌≡◌, refl}
use mathlib.Core.Path.{subst}
use bget.Common.Digits.{digits_of}
use bget.Bencode.Scanner.{
  State, Code, ParseState, Scanner, begin_value, begin_dict, end_dict, begin_list, end_list,
  dict_key, list_value, step_in,
}
use bget.Bencode.Encode.{Bytes, string}
use bget.Bencode.Decoded.{
  Decoded, int, str, list, dict, failed, Several, no_more, more, Fields, no_fields, field,
}
use bget.Bencode.Decode.{is_continue}
use bget.Bencode.Plain.{code, code_items, code_fields, IsPlain, IsPlainAll}
use bget.Bencode.Reads.{Reads, Reads-left}
use bget.Bencode.Tokens.{at}
use bget.Bencode.Places.{Start, popped, Opens, Closes, OpensKey}
use bget.Bencode.Heads.{HeadOk, string-written, starts_key, starts_value}
use bget.Bencode.Strings.{in_length, in_number}

-- The scanner and its code after the first byte of a value, and after that of the rest of a list or a
-- dictionary.
abbrev pub started : List ParseState → Decoded → Scanner → Scanner × Code
started ps (int z) b = in_number ps b
started ps (str w) b = in_length ps w b
started ps (list vs) b = (at begin_value (list_value ∷ ps) 0 1 b, begin_list)
started ps (dict fs) b = (at State.begin_string (dict_key ∷ ps) 0 1 b, begin_dict)
started ps (failed e) b = (b, Code.error)

abbrev pub in_list : List ParseState → Several → Scanner → Scanner × Code
in_list ps no_more b = (popped ps b, end_list)
in_list ps (more v vs) b = started (list_value ∷ ps) v b

abbrev pub in_dict : List ParseState → Fields → Scanner → Scanner × Code
in_dict ps no_fields b = (popped ps b, end_dict)
in_dict ps (field k v fs) b = in_length (dict_key ∷ ps) k b

-- What stands at `i` leads to this scanner and code from a state, with a step of one byte.
abbrev pub Leads : Bytes → State → List ParseState → ℕ → ℕ → (Scanner → Scanner × Code) → Type 0
Leads input st qs size i x =
    (c : ℕ) × (get_elem? input i ≡ some c)
    × ((b : Scanner) → step_in st (at st qs 0 size b) c ≡ x b)
    × ((b : Scanner) → is_continue (x b).1 ≡ false)
    × ((b : Scanner) → (x b).0.step_size ≡ 1)

pub Leads-value :
    (input : Bytes) (st : State) (qs ps : List ParseState) (size i : ℕ) (d : Decoded)
    → IsPlain d
    → Opens st qs size ps
    → Reads input i (code d)
    → Leads input st qs size i (started ps d)
unfolding code
Leads-value input st qs ps size i (int z) h opens r =
    (b'i', r.0, λ b. opens b b'i' (Start.int b'i' refl), λ b. refl, λ b. refl)
Leads-value input st qs ps size i (str w) h opens r = (
  (digits_of (length w)).first,
  (subst (Reads input i) (string-written w) r).0,
  starts_value st qs size ps w opens,
  λ b. refl,
  λ b. refl,
)
Leads-value input st qs ps size i (list vs) h opens r =
    (b'l', r.0, λ b. opens b b'l' (Start.list b'l' refl), λ b. refl, λ b. refl)
Leads-value input st qs ps size i (dict fs) h opens r =
    (b'd', r.0, λ b. opens b b'd' (Start.dict b'd' refl), λ b. refl, λ b. refl)
Leads-value input st qs ps size i (failed e) h opens r = absurd h

pub Leads-items :
    (input : Bytes) (st : State) (qs ps : List ParseState) (size i : ℕ) (vs : Several)
    → IsPlainAll vs
    → Opens st qs size (list_value ∷ ps)
    → Closes st qs size ps end_list
    → Reads input i (code_items vs ++ b'e' ∷ [])
    → Leads input st qs size i (in_list ps vs)
unfolding code
Leads-items input st qs ps size i no_more h opens closes r =
    (b'e', r.0, closes, λ b. refl, λ b. refl)
Leads-items input st qs ps size i (more v vs) h opens closes r =
    Leads-value input st qs (list_value ∷ ps) size i v h.0 opens (
      Reads-left input i (code v) (code_items vs)
        (Reads-left input i (code v ++ code_items vs) (b'e' ∷ []) r))

pub Leads-fields :
    (input : Bytes) (st : State) (qs ps : List ParseState) (size i : ℕ) (fs : Fields)
    → HeadOk st fs
    → OpensKey st qs size ps
    → Closes st qs size ps end_dict
    → Reads input i (code_fields fs ++ b'e' ∷ [])
    → Leads input st qs size i (in_dict ps fs)
unfolding code
Leads-fields input st qs ps size i no_fields h opens closes r =
    (b'e', r.0, closes, λ b. refl, λ b. refl)
Leads-fields input st qs ps size i (field k v fs) h opens closes r = (
  (digits_of (length k)).first,
  (subst (Reads input i) (string-written k) (
      Reads-left input i (string k) (code v ++ code_fields fs)
        (Reads-left input i (string k ++ (code v ++ code_fields fs)) (b'e' ∷ []) r))).0,
  starts_key st qs size ps k opens h,
  λ b. refl,
  λ b. refl,
)
