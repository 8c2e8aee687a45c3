-- ===== src/Bencode/Calls.antt =====
-- What a call of the decoder returns, from the calls that it makes one after the other.
use bget.Common.{ℕ, suc, ◌-◌, ◌^◌, ◌<◌, true, false, length, ◌≡◌}
use bget.Common.Go.{ok}
use bget.Bencode.Scanner.{Code, begin_dict, end_dict, begin_list}
use bget.Bencode.Encode.{Bytes}
use bget.Bencode.Decoded.{Decoded, str, list, dict, Several, no_more, more, Fields, no_fields, put}
use bget.Bencode.Decode.{
  Decoder, is_end_list, scan_next, scan_while, slice, int_value, string_interface, int_interface,
  value_interface, list_interface, dict_interface,
}

module _ (input : Bytes) (short : length input < 2 ^ 63) where
  pub value_list :
      (fuel : ℕ) (d d₁ d₂ : Decoder) (vs : Several)
      → d.opcode ≡ begin_list
      → scan_next input d ≡ d₁
      → list_interface input fuel d₁ ≡ ok (vs, d₂)
      → value_interface input (suc fuel) d ≡ ok (list vs, scan_next input d₂)
  unfolding value_interface
  value_list fuel d d₁ d₂ vs op e e₁ = rw (op, e, e₁)

  pub value_dict :
      (fuel : ℕ) (d d₁ d₂ : Decoder) (fs : Fields)
      → d.opcode ≡ begin_dict
      → scan_next input d ≡ d₁
      → dict_interface input fuel no_fields d₁ ≡ ok (fs, d₂)
      → value_interface input (suc fuel) d ≡ ok (dict fs, scan_next input d₂)
  unfolding value_interface
  value_dict fuel d d₁ d₂ fs op e e₁ = rw (op, e, e₁)

  pub value_string :
      (fuel : ℕ) (d d₁ : Decoder) (w : Bytes)
      → d.opcode ≡ Code.begin_string
      → string_interface input d ≡ ok (w, d₁)
      → value_interface input (suc fuel) d ≡ ok (str w, d₁)
  unfolding value_interface
  value_string fuel d d₁ w op e = rw (op, e)

  pub value_int :
      (fuel : ℕ) (d d₁ : Decoder) (w : Bytes) (v : Decoded)
      → d.opcode ≡ Code.begin_int
      → scan_while input d ≡ ok d₁
      → slice input d.off (d₁.off - 1) ≡ ok w
      → int_value input w d₁ ≡ ok (v, d₁)
      → value_interface input (suc fuel) d ≡ ok (v, scan_next input d₁)
  unfolding value_interface int_interface
  value_int fuel d d₁ w v op e e₁ e₂ = rw (op, e, e₁, e₂)

  pub list_more :
      (fuel : ℕ) (d d₁ d₂ : Decoder) (v : Decoded) (vs : Several)
      → is_end_list d.opcode ≡ false
      → value_interface input fuel d ≡ ok (v, d₁)
      → list_interface input fuel d₁ ≡ ok (vs, d₂)
      → list_interface input (suc fuel) d ≡ ok (more v vs, d₂)
  unfolding value_interface
  list_more fuel d d₁ d₂ v vs op e e₁ = rw (op, e, e₁)

  pub list_done :
      (fuel : ℕ) (d : Decoder)
      → is_end_list d.opcode ≡ true
      → list_interface input (suc fuel) d ≡ ok (no_more, d)
  unfolding value_interface
  list_done fuel d op = rw op

  pub dict_more :
      (fuel : ℕ) (m fs : Fields) (d d₁ d₂ d₃ : Decoder) (k : Bytes) (v : Decoded)
      → d.opcode ≡ Code.begin_string
      → string_interface input d ≡ ok (k, d₁)
      → value_interface input fuel d₁ ≡ ok (v, d₂)
      → dict_interface input fuel (put k v m) d₂ ≡ ok (fs, d₃)
      → dict_interface input (suc fuel) m d ≡ ok (fs, d₃)
  unfolding value_interface
  dict_more fuel m fs d d₁ d₂ d₃ k v op e e₁ e₂ = rw (op, e, e₁, e₂)

  pub dict_done :
      (fuel : ℕ) (m : Fields) (d : Decoder)
      → d.opcode ≡ end_dict
      → dict_interface input (suc fuel) m d ≡ ok (m, d)
  unfolding value_interface
  dict_done fuel m d op = rw op
