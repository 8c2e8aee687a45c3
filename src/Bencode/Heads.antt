-- ===== src/Bencode/Heads.antt =====
-- The first byte of a string, of a key and of a value.
use bget.Common.{
  ℕ, ◌+◌, ◌-◌, ◌<◌, ◌⊎◌, inl, inr, true, List, [], ◌∷◌, ◌++◌, length, length-append, ◌≡◌, refl,
  arith, ap, ◌∙◌,
}
use bget.Common.Digits.{digits_of}
use bget.Bencode.Scanner.{State, Code, ParseState, Scanner, dict_key, step_in}
use bget.Bencode.Encode.{Bytes, string, less}
use bget.Bencode.Decoded.{Fields, no_fields, field}
use bget.Bencode.Plain.{Before}
use bget.Bencode.Tokens.{at}
use bget.Bencode.Places.{Start, Opens, OpensKey}

-- The bytes of a string from the first digit on.
pub string-written :
    (w : Bytes)
    → string w ≡ (digits_of (length w)).first ∷ ((digits_of (length w)).others ++ (b':' ∷ w))
unfolding string
string-written w = ap (λ t. t ++ (b':' ∷ w)) (digits_of (length w)).written

pub length-string :
    (w : Bytes) → length (string w) ≡ length (digits_of (length w)).others + 2 + length w
length-string w =
    ap length (string-written w)
    ∙ omega (arith, length-append (digits_of (length w)).others (b':' ∷ w))

pub nonempty_of_less : (k j : Bytes) → less k j ≡ true → 0 < length j
unfolding less
nonempty_of_less [] [] h = cc
nonempty_of_less (x ∷ k) [] h = cc
nonempty_of_less k (y ∷ j) h = omega arith

-- A key other than the first must not be empty.
abbrev pub HeadOk : State → Fields → Type 0
HeadOk st no_fields = Unit
HeadOk st (field k v fs) = (st ≡ State.begin_string) ⊎ (0 < length k)

pub HeadOk-next : (st : State) (k : Bytes) (fs : Fields) → Before k fs → HeadOk st fs
HeadOk-next st k no_fields h = tt
HeadOk-next st k (field j v fs) h = inr (nonempty_of_less k j h)

pub HeadOk-first : (fs : Fields) → HeadOk State.begin_string fs
HeadOk-first no_fields = tt
HeadOk-first (field k v fs) = inl refl

pub starts_key :
    (st : State) (qs : List ParseState) (size : ℕ) (ps : List ParseState) (k : Bytes)
    → OpensKey st qs size ps
    → (st ≡ State.begin_string) ⊎ (0 < length k)
    → (a : Scanner)
    → step_in st (at st qs 0 size a) (digits_of (length k)).first ≡ (
      at State.begin_string (dict_key ∷ ps) ((digits_of (length k)).first - b'0') 1 a,
      Code.begin_string,
    )
starts_key st qs size ps k opens (inl e) a =
    opens a (digits_of (length k)).first (digits_of (length k)).first-IsDigit (inl e)
starts_key st qs size ps k opens (inr h) a =
    opens a (digits_of (length k)).first (digits_of (length k)).first-IsDigit
      (inr ((digits_of (length k)).first_positive h))

pub starts_value :
    (st : State) (qs : List ParseState) (size : ℕ) (ps : List ParseState) (w : Bytes)
    → Opens st qs size ps
    → (a : Scanner)
    → step_in st (at st qs 0 size a) (digits_of (length w)).first
      ≡ (at State.begin_string ps ((digits_of (length w)).first - b'0') 1 a, Code.begin_string)
starts_value st qs size ps w opens a =
    let d = digits_of (length w) in
    opens a d.first (Start.string d.first d.first-IsDigit) ∙ ground (arith, d.first-IsDigit)
