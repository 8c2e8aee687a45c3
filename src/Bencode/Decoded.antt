-- ===== src/Bencode/Decoded.antt =====
-- bencode/decode.go: the values that Unmarshal stores in an empty interface, and `strconv.Atoi`.
use bget.Common.{
  ℕ, zero, suc, ◌+◌, ◌-◌, ◌*◌, ◌^◌, Bool, true, false, ltb, leb, ◌==◌, if◌then◌else◌, [], ◌∷◌,
  Option, none, some,
}
use bget.Common.Bytes.{equal}
use bget.Common.Int.{ℤ, pos, negsuc}
use bget.Bencode.Scanner.{SyntaxError, is_digit}
use bget.Bencode.Encode.{Bytes}

-- An interface{} with an int, a string, a []interface{}, a map[string]interface{} in the order in which
-- its keys came first, or an error that is returned as a value.
mutual
  pub data Decoded : Type 0 where
    int : ℤ → Decoded
    str : Bytes → Decoded
    list : Several → Decoded
    dict : Fields → Decoded
    failed : Bytes → Decoded

  pub data Several : Type 0 where
    no_more : Several
    more : Decoded → Several → Several

  pub data Fields : Type 0 where
    no_fields : Fields
    field : Bytes → Decoded → Fields → Fields

-- `mismatch` is an UnmarshalTypeError. `out_of_rounds` is no outcome of the code, but of a bound that was
-- too small.
pub data DecodeError : Type 0 where
  syntax : SyntaxError → DecodeError
  number literal mismatch out_of_rounds : DecodeError

-- `m[key] = value`
unfoldable pub put : Bytes → Decoded → Fields → Fields
put k v no_fields = field k v no_fields
put k v (field j w fs) = if equal j k then field j v fs else field j w (put k v fs)

abbrev pub digit_value : ℕ → ℕ → ℕ
digit_value n c = n * 10 + (c - b'0')

-- The number that digits spell, `none` where one is no digit.
unfoldable pub digits_value : ℕ → Bytes → Option ℕ
digits_value n [] = some n
digits_value n (c ∷ cs) =
    let rest = digits_value (digit_value n c) cs in if is_digit c then rest else none

abbrev pub in_range : Option ℕ → ℤ × Bool
in_range none = (pos 0, false)
in_range (some n) = if ltb n (2 ^ 63) then (pos n, true) else (pos (2 ^ 63 - 1), false)

abbrev pub negated : ℕ → ℤ
negated zero = pos 0
negated (suc n) = negsuc n

abbrev pub in_negative_range : Option ℕ → ℤ × Bool
in_negative_range none = (pos 0, false)
in_negative_range (some n) =
    if leb n (2 ^ 63) then (negated n, true) else (negsuc (2 ^ 63 - 1), false)

-- `strconv.Atoi`, with whether there was no error.
unfoldable pub atoi : Bytes → ℤ × Bool
unfolding digits_value
atoi [] = (pos 0, false)
atoi (c ∷ []) = in_range (digits_value 0 (c ∷ []))
atoi (c ∷ d ∷ ds) =
    if c == b'-'
    then in_negative_range (digits_value 0 (d ∷ ds))
    else if c == b'+'
    then in_range (digits_value 0 (d ∷ ds))
    else in_range (digits_value 0 (c ∷ d ∷ ds))
