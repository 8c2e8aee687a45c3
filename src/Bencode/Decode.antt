-- ===== src/Bencode/Decode.antt =====
-- bencode/decode.go: `Unmarshal` into an empty interface. The offsets never are negative in an input
-- that checkValid has accepted.
use bget.Common.{
  ℕ, zero, suc, ◌+◌, ◌-◌, Bool, true, false, not, ◌&&◌, ◌||◌, ltb, leb, ◌==◌, if◌then◌else◌, [],
  ◌∷◌, Option, none, some, length, get_or, take, drop,
}
use bget.Common.Go.{Result, ok, err, panic, ◌>>=◌}
use bget.Bencode.Scanner.{
  Scanner, Code, end_list, end_dict, begin_list, begin_dict, int64, reset, fresh, step_in,
}
use bget.Bencode.Valid.{valid, invalid, fault, running, eof, check_valid, rounds}
use bget.Bencode.Encode.{Bytes}
use bget.Bencode.Decoded.{
  DecodeError, Decoded, Fields, Several, atoi, dict, failed, int, list, literal, more, no_fields,
  no_more, number, out_of_rounds, put, str, syntax,
}

pub record Decoder : Type 0 where
  pub off : ℕ
  pub opcode : Code
  pub scan : Scanner
  pub saved : Option DecodeError

abbrev pub is_continue : Code → Bool
is_continue Code.continue = true
is_continue _ = false

abbrev pub is_end_list : Code → Bool
is_end_list end_list = true
is_end_list _ = false

abbrev pub is_end_dict : Code → Bool
is_end_dict end_dict = true
is_end_dict _ = false

abbrev pub is_begin_string : Code → Bool
is_begin_string Code.begin_string = true
is_begin_string _ = false

-- The code that `eof` returns; the scanner is not read behind the end.
unfoldable pub at_eof : Scanner → Code
at_eof s = elim (eof s) [ valid t ↦ Code.end | _ ↦ Code.error ]

unfoldable pub save_error : DecodeError → Decoder → Decoder
save_error e d = elim d.saved [ none ↦ record d { saved = some e } | some f ↦ d ]

-- `data[start:end]`
unfoldable pub slice : Bytes → ℕ → ℕ → Result DecodeError Bytes
slice input start end =
    if leb start end && leb end (length input)
    then ok (take (end - start) (drop start input))
    else panic

module _ (input : Bytes) where
  unfoldable pub scan_next : Decoder → Decoder
  unfolding at_eof
  scan_next d =
      if ltb d.off (length input)
      then (let t = step_in d.scan.step d.scan (get_or input d.off 0) in
          record d { opcode = t.1; scan = t.0; off = int64 (d.off + t.0.step_size) })
      else record d { opcode = at_eof d.scan; off = length input + 1 }

  -- The loop of `scanWhile`, which is always called for scanContinue.
  unfoldable pub while_from : ℕ → Scanner → ℕ → Result DecodeError (Scanner × ℕ × Code)
  unfolding at_eof
  while_from zero s i = err out_of_rounds
  while_from (suc fuel) s i =
      let t = step_in s.step s (get_or input i 0) in
      let i' = int64 (i + t.0.step_size) in
      let later = while_from fuel t.0 i' in
      if not (ltb i (length input))
      then ok (s, length input + 1, at_eof s)
      else if is_continue t.1
      then later
      else ok (t.0, i', t.1)

  unfoldable pub scan_while : Decoder → Result DecodeError Decoder
  unfolding while_from
  scan_while d = do
    (s, i, op) ← while_from (rounds input) d.scan d.off
    ok (record d { scan = s; off = i; opcode = op })

  -- `readIndex() + 1` is the offset.
  unfoldable pub string_interface : Decoder → Result DecodeError (Bytes × Decoder)
  unfolding scan_while slice
  string_interface d = do
    d₁ ← scan_while d
    d₂ ← scan_while d₁
    text ← slice input d₁.off (d₂.off - 1)
    ok (text, d₂)

  abbrev pub int_value : Bytes → Decoder → Result DecodeError (Decoded × Decoder)
  int_value [] d = panic
  int_value (c ∷ cs) d =
      if not (c == b'-') && (ltb c b'0' || ltb b'9' c)
      then ok (failed (c ∷ cs), d)
      else ok (int (atoi (c ∷ cs)).0, (if (atoi (c ∷ cs)).1 then d else save_error number d))

  unfoldable pub int_interface : Decoder → Result DecodeError (Decoded × Decoder)
  unfolding scan_while slice
  int_interface d = do d₁ ← scan_while d; text ← slice input d.off (d₁.off - 1); int_value text d₁

  -- `fuel` bounds the calls.
  unfoldable mutual
    unfolding scan_next string_interface int_interface

    pub value_interface : ℕ → Decoder → Result DecodeError (Decoded × Decoder)
    value_interface zero d = err out_of_rounds
    value_interface (suc fuel) d =
        let items = list_interface fuel (scan_next d) in
        let fields = dict_interface fuel no_fields (scan_next d) in
        elim d.opcode [
          | begin_list ↦ do (vs, d') ← items; ok (list vs, scan_next d')
          | begin_dict ↦ do (fs, d') ← fields; ok (dict fs, scan_next d')
          | Code.begin_string ↦ do (s, d') ← string_interface d; ok (str s, d')
          | Code.begin_int ↦ do (z, d') ← int_interface d; ok (z, scan_next d')
          | _ ↦ panic
        ]

    -- The loop of `listInterface`, behind its call of `scanNext`.
    pub list_interface : ℕ → Decoder → Result DecodeError (Several × Decoder)
    list_interface zero d = err out_of_rounds
    list_interface (suc fuel) d =
        let first = value_interface fuel d in
        let later = list_interface fuel in
        if is_end_list d.opcode
        then ok (no_more, d)
        else do (v, d₁) ← first; (vs, d₂) ← later d₁; ok (more v vs, d₂)

    -- The loop of `dictInterface`, with the map so far.
    pub dict_interface : ℕ → Fields → Decoder → Result DecodeError (Fields × Decoder)
    dict_interface zero m d = err out_of_rounds
    dict_interface (suc fuel) m d =
        let value = value_interface fuel in
        let later = dict_interface fuel in
        if is_end_dict d.opcode
        then ok (m, d)
        else if not (is_begin_string d.opcode)
        then panic
        else do (k, d₁) ← string_interface d; (v, d₂) ← value d₁; later (put k v m) d₂

  -- `intStore` for an interface, left nil (`none`) where the number is refused.
  abbrev pub int_stored : Bytes → Decoder → Result DecodeError (Option Decoded × Decoder)
  int_stored [] d = ok (none, save_error literal d)
  int_stored (c ∷ cs) d =
      if not (c == b'-') && (ltb c b'0' || ltb b'9' c)
      then err literal
      else if (atoi (c ∷ cs)).1
      then ok (some (int (atoi (c ∷ cs)).0), d)
      else ok (none, save_error number d)

  -- `value` for an interface, with what it stores.
  unfoldable pub value : Decoder → Result DecodeError (Option Decoded × Decoder)
  unfolding value_interface
  value d = elim d.opcode [
    | begin_list ↦ do
      (vs, d') ← list_interface (rounds input) (scan_next d)
      ok (some (list vs), scan_next d')
    | begin_dict ↦ do
      (fs, d') ← dict_interface (rounds input) no_fields (scan_next d)
      ok (some (dict fs), scan_next d')
    | Code.begin_string ↦ do (s, d') ← string_interface d; ok (some (str s), d')
    | Code.begin_int ↦ do
      d₁ ← scan_while d
      text ← slice input d.off (d₁.off - 1)
      (z, d₂) ← int_stored text d₁
      ok (z, scan_next d₂)
    | _ ↦ panic
  ]

  abbrev pub returned : Option Decoded × Decoder → Result DecodeError (Option Decoded)
  returned (v, d) = elim d.saved [ none ↦ ok v | some e ↦ err e ]

  -- `init` and `unmarshal`, with the scanner that checkValid leaves.
  unfoldable pub unmarshal_with : Scanner → Result DecodeError (Option Decoded)
  unfolding value
  unmarshal_with s = do
    d ← scan_while (record { off = 0; opcode = Code.continue; scan = reset s; saved = none })
    r ← value d
    returned r

  unfoldable pub unmarshal : Result DecodeError (Option Decoded)
  unfolding unmarshal_with check_valid
  unmarshal = elim (check_valid input fresh) [
    | valid s ↦ unmarshal_with s
    | invalid e ↦ err (syntax e)
    | fault ↦ panic
    | running ↦ err out_of_rounds
  ]

-- `RawMessage`: it is written as it is, and a nil one as `null`.
unfoldable pub marshal_raw : Option Bytes → Bytes
marshal_raw none = b'n' ∷ b'u' ∷ b'l' ∷ b'l' ∷ []
marshal_raw (some m) = m
