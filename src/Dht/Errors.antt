-- ===== src/Dht/Errors.antt =====
-- dht/krpc.go: the decoding of a kError, and what becomes of one that is written.
use bget.Common.{◌<◌, ◌^◌, [], ◌∷◌, Option, none, some, length, ◌≡◌, arith}
use bget.Common.Go.{Result, ok, err, ◌>>=◌}
use bget.Common.Int.{ℤ}
use bget.Bencode.Encode.{marshal}
use bget.Bencode.Decoded.{
  Decoded, Several, Fields, DecodeError, mismatch, int, str, list, dict, no_more, more, no_fields,
  field,
}
use bget.Bencode.Decode.{unmarshal}
use bget.Bencode.Plain.{code, Fits64}
use bget.Bencode.RoundTrip.{unmarshal-marshal}
use bget.Dht.{Bytes}
use bget.Dht.Rpc.{error_value}

-- What the decoder stores in a `[]interface{}`, given what it would store in an empty interface: a list's
-- elements go into empty interfaces, and a value of another kind saves an UnmarshalTypeError.
unfoldable pub into_slice : Option Decoded → Result DecodeError Several
into_slice none = ok no_more
into_slice (some (list vs)) = ok vs
into_slice (some _) = err mismatch

-- `Unmarshal(data, &l)`
unfoldable pub unmarshal_slice : Bytes → Result DecodeError Several
unfolding into_slice
unmarshal_slice given = unmarshal given >>= into_slice

-- The test of the length, and the assertions on the types of both values. `none` is an error.
unfoldable pub error_of : Several → Option (ℤ × Bytes)
error_of (more (int c) (more (str s) no_more)) = some (c, s)
error_of _ = none

unfoldable pub unmarshal_error : Bytes → Option (ℤ × Bytes)
unfolding unmarshal_slice error_of
unmarshal_error given = elim (unmarshal_slice given) [ ok l ↦ error_of l | _ ↦ none ]

-- The dictionary that MarshalBencode makes.
abbrev pub as_written : ℤ → Bytes → Decoded
as_written c s = dict (field (b'e' ∷ []) (list (more (int c) (more (str s) no_more))) no_fields)

unmarshal_error_dict :
    (input : Bytes) (fs : Fields)
    → unmarshal input ≡ ok (some (dict fs))
    → unmarshal_error input ≡ none
unfolding unmarshal_error unmarshal_slice into_slice
unmarshal_error_dict input fs e = ground arith

-- The bencode of a kError whose code fits 64 bits is valid, and its own UnmarshalBencode refuses it, for
-- every code and description that take fewer than 2^63 bytes.
pub unmarshal_error-error_value :
    (c : ℤ) (s : Bytes)
    → Fits64 c
    → length (code (as_written c s)) < 2 ^ 63
    → (input : Bytes) × (marshal (error_value c s) ≡ ok input)
      × (unmarshal input ≡ ok (some (as_written c s)))
      × (unmarshal_error input ≡ none)
unfolding error_value
unmarshal_error-error_value c s fits short =
    let (input, written, read) =
      unmarshal-marshal (as_written c s) (tt, (fits, (tt, tt)), tt) tt short in
    (input, written, read, unmarshal_error_dict input _ read)
