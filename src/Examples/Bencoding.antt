-- ===== src/Examples/Bencoding.antt =====
-- A value with every kind of a plain one, its bencode, and its way through Marshal and Unmarshal.
use bget.Common.{◌<◌, ◌^◌, [], ◌∷◌, some, length, ◌≡◌, refl, arith}
use bget.Common.Decimal.{decimal, decimal_int}
use bget.Common.Go.{ok}
use bget.Common.Int.{pos, negsuc}
use bget.Bencode.Scanner.{Scanner, fresh}
use bget.Bencode.Valid.{valid, check_valid}
use bget.Bencode.Encode.{Bytes, marshal, less}
use bget.Bencode.Decoded.{Decoded, int, str, list, dict, no_more, more, no_fields, field}
use bget.Bencode.Decode.{unmarshal}
use bget.Bencode.Plain.{code, plain, IsPlain}
use bget.Bencode.Whole.{check_valid-code}
use bget.Bencode.RoundTrip.{unmarshal-marshal}

-- d1:ali-7e0:e1:bi42ee
abbrev sample : Decoded
sample = dict (
    field (b'a' ∷ []) (list (more (int (negsuc 6)) (more (str []) no_more)))
      (field (b'b' ∷ []) (int (pos 42)) no_fields))

abbrev sample_code : Bytes
sample_code =
    b'd' ∷ b'1' ∷ b':' ∷ b'a' ∷ b'l' ∷ b'i' ∷ b'-' ∷ b'7' ∷ b'e' ∷ b'0' ∷ b':' ∷ b'e' ∷ b'1' ∷ b':'
    ∷ b'b' ∷ b'i' ∷ b'4' ∷ b'2' ∷ b'e' ∷ b'e' ∷ []

code-sample : code sample ≡ sample_code
unfolding code decimal decimal_int
code-sample = refl

sample-IsPlain : IsPlain sample
unfolding less
sample-IsPlain = (refl, (omega arith, (tt, tt)), (tt, omega arith, tt))

sample_short : length (code sample) < 2 ^ 63
sample_short = rw code-sample (omega arith)

check_valid-code_example :
    (s : Scanner) × (check_valid (code sample) fresh ≡ valid s) × (s.string_len ≡ 0)
check_valid-code_example = check_valid-code sample sample-IsPlain tt sample_short

unmarshal-marshal_example :
    (input : Bytes) × (marshal (plain sample) ≡ ok input) × (unmarshal input ≡ ok (some sample))
unmarshal-marshal_example = unmarshal-marshal sample sample-IsPlain tt sample_short
