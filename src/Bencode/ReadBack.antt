-- ===== src/Bencode/ReadBack.antt =====
-- `valueInterface`, `listInterface` and `dictInterface` read back the bencode of a plain value that
-- stands in the input.
use bget.Common.{
  ℕ, zero, suc, ◌+◌, ◌^◌, ◌<◌, ◌≤◌, inl, false, List, [], ◌∷◌, ◌++◌, length, length-append,
  append_assoc, ◌≡◌, refl, arith, ap, ◌∙◌,
}
use mathlib.Core.Path.{subst}
use bget.Common.Decimal.{decimal_int}
use bget.Common.Go.{ok}
use bget.Bencode.Scanner.{
  State, Code, ParseState, Scanner, end_value, begin_value, begin_dict, end_dict, begin_list,
  end_list, dict_key, dict_value, list_value, step_in,
}
use bget.Bencode.Encode.{Bytes, string}
use bget.Bencode.Decoded.{
  Decoded, int, str, list, dict, failed, Several, no_more, more, Fields, no_fields, field, put,
}
use bget.Bencode.Decode.{is_end_list, scan_next, value_interface, list_interface, dict_interface}
use bget.Bencode.Plain.{code, code_items, code_fields, IsPlain, IsPlainAll, IsPlainFields}
use bget.Bencode.Reads.{Reads, lt_of_get, Reads-left, Reads-right}
use bget.Bencode.Tokens.{at}
use bget.Bencode.Places.{
  closed, popped, Opens-first, Opens-next, Opens-behind_key, Closes-empty_list, Closes-list,
  Closes-empty_dict, Closes-dict, opens_first_key, opens_next_key,
}
use bget.Bencode.Heads.{HeadOk-next, HeadOk-first, length-string}
use bget.Bencode.Around.{Room, Room-inside}
use bget.Bencode.Numbers.{int_value-decimal_int, put_all, put_all_lem}
use bget.Bencode.Scans.{dec, scan_next_here, Onward, Onward-of}
use bget.Bencode.Strings.{in_length, in_number, string_read, number_read}
use bget.Bencode.Reader.{started, in_list, in_dict, Leads, Leads-value, Leads-items, Leads-fields}
use bget.Bencode.Calls.{
  value_list, value_dict, value_string, value_int, list_more, list_done, dict_more, dict_done,
}

pub code_positive : (d : Decoded) → IsPlain d → 0 < length (code d)
unfolding code
code_positive (int z) h = omega arith
code_positive (str w) h = omega (arith, length-string w)
code_positive (list vs) h = omega arith
code_positive (dict fs) h = omega arith
code_positive (failed e) h = absurd h

is_end_list-started :
    (ps : List ParseState) (d : Decoded) (b : Scanner) → is_end_list (started ps d b).1 ≡ false
is_end_list-started ps (int z) b = refl
is_end_list-started ps (str w) b = refl
is_end_list-started ps (list vs) b = refl
is_end_list-started ps (dict fs) b = refl
is_end_list-started ps (failed e) b = refl

module _ (input : Bytes) (short : length input < 2 ^ 63) where
  Onward-lead :
      (ps : List ParseState) (j : ℕ) (x : Scanner → Scanner × Code)
      → ((z : ℕ) → Leads input end_value ps z j x)
      → Onward input short ps j (λ z b. x b)
  Onward-lead ps j x lead =
      Onward-of input short ps j (lead 0).0 (λ z b. x b) (lead 0).1
        (λ z b.
          let same : (lead 0).0 ≡ (lead z).0 = cc ((lead 0).1, (lead z).1) in
          ap (step_in end_value (at end_value ps 0 z b)) same ∙ (lead z).2 b)
        (λ z b. (lead 0).3 b) (λ z b. (lead 0).4 b)

  mutual
    unfolding code

    -- A value that ends at `j`, with at least as many calls as it takes bytes.
    pub value_read :
        (d : Decoded)
        → IsPlain d
        → (fuel : ℕ) (ps : List ParseState) (i j : ℕ) (A : ℕ → Scanner → Scanner × Code)
          (b : Scanner)
        → length (code d) ≤ fuel
        → i + length (code d) ≡ j
        → Reads input i (code d)
        → Room input short d j
        → Onward input short ps j A
        → (z : ℕ) × (b' : Scanner) × (value_interface input fuel (dec (suc i) (started ps d b))
            ≡ ok (d, dec (suc j) (A z b')))
    value_read d h zero ps i j A b le e r room onward = absurd (omega (arith, code_positive d h))
    value_read (int z) h (suc fuel) ps i j A b le e r room onward =
        let (b', scan, text) =
          number_read input short ps z i j b
            (omega (arith, length-append (decimal_int z) (b'e' ∷ []))) r.1 in
        (
          1,
          b',
          value_int input short fuel (dec (suc i) (in_number ps b))
                (dec j (at end_value ps 0 1 b', Code.end_int)) (decimal_int z) (int z) refl scan
                text
                (int_value-decimal_int input z (dec j (at end_value ps 0 1 b', Code.end_int)) h)
              ∙ ap (λ d. ok (int z, d)) (onward.1 1 b' Code.end_int),
        )
    value_read (str w) h (suc fuel) ps i j A b le e r room onward =
        let (z, b', run) = string_read input short ps w i j A b e r room onward in
        (
          z,
          b',
          value_string input short fuel (dec (suc i) (in_length ps w b)) (dec (suc j) (A z b')) w
              refl run,
        )
    value_read (list vs) h (suc fuel) ps i j A b le e r room onward =
        let sum = length-append (code_items vs) (b'e' ∷ []) in
        let m = i + 1 + length (code_items vs) in
        let (c, at_c, step, other, one) =
          Leads-items input begin_value (list_value ∷ ps) ps 1 (suc i) vs h
            (Opens-first (list_value ∷ ps)) (Closes-empty_list ps) r.1 in
        let (b', run) = list_read vs h fuel ps (suc i) m b (omega (arith, sum)) (omega arith) r.1 in
        (
          1,
          closed ps b',
          value_list input short fuel (dec (suc i) (started ps (list vs) b))
                (dec (suc (suc i)) (in_list ps vs b)) (dec (suc m) (popped ps b', end_list)) vs refl
                (scan_next_here input short (suc i) c (at begin_value (list_value ∷ ps) 0 1 b)
                  begin_list (in_list ps vs b) at_c (step b) (one b))
                run
              ∙ ap (λ k. ok (list vs, scan_next input (dec k (popped ps b', end_list))))
                  (omega (arith, e, sum))
              ∙ ap (λ d. ok (list vs, d)) (onward.1 1 (closed ps b') end_list),
        )
    value_read (dict fs) h (suc fuel) ps i j A b le e r room onward =
        let sum = length-append (code_fields fs) (b'e' ∷ []) in
        let m = i + 1 + length (code_fields fs) in
        let (c, at_c, step, other, one) =
          Leads-fields input State.begin_string (dict_key ∷ ps) ps 1 (suc i) fs (HeadOk-first fs)
            (opens_first_key ps) (Closes-empty_dict ps) r.1 in
        let (b', run) =
          dict_read fs h fuel no_fields ps (suc i) m b (omega (arith, sum)) (omega arith) r.1 in
        (
          1,
          closed ps b',
          value_dict input short fuel (dec (suc i) (started ps (dict fs) b))
                (dec (suc (suc i)) (in_dict ps fs b)) (dec (suc m) (popped ps b', end_dict)) fs refl
                (scan_next_here input short (suc i) c (at State.begin_string (dict_key ∷ ps) 0 1 b)
                  begin_dict (in_dict ps fs b) at_c (step b) (one b))
                (run ∙ ap (λ g. ok (g, dec (suc m) (popped ps b', end_dict))) (put_all_lem fs h))
              ∙ ap (λ k. ok (dict fs, scan_next input (dec k (popped ps b', end_dict))))
                  (omega (arith, e, sum))
              ∙ ap (λ d. ok (dict fs, d)) (onward.1 1 (closed ps b') end_dict),
        )
    value_read (failed x) h (suc fuel) ps i j A b le e r room onward = absurd h

    -- The rest of a list, up to its `e` at `j`.
    list_read :
        (vs : Several)
        → IsPlainAll vs
        → (fuel : ℕ) (ps : List ParseState) (i j : ℕ) (b : Scanner)
        → suc (length (code_items vs)) ≤ fuel
        → i + length (code_items vs) ≡ j
        → Reads input i (code_items vs ++ b'e' ∷ [])
        → (b' : Scanner) × (list_interface input fuel (dec (suc i) (in_list ps vs b))
            ≡ ok (vs, dec (suc j) (popped ps b', end_list)))
    list_read vs h zero ps i j b le e r = absurd (omega arith)
    list_read no_more h (suc fuel) ps i j b le e r = (
      b,
      list_done input short fuel (dec (suc i) (in_list ps no_more b)) refl
          ∙ ap (λ k. ok (no_more, dec (suc k) (in_list ps no_more b))) (omega arith),
    )
    list_read (more v vs) h (suc fuel) ps i j b le e r =
        let sum = length-append (code v) (code_items vs) in
        let long = code_positive v h.0 in
        let m = i + length (code v) in
        let s = subst (Reads input i) (append_assoc (code v) (code_items vs) (b'e' ∷ [])) r in
        let rest = Reads-right input i (code v) (code_items vs ++ b'e' ∷ []) s in
        let lead : (z : ℕ) → Leads input end_value (list_value ∷ ps) z m (in_list ps vs) = λ z.
          Leads-items input end_value (list_value ∷ ps) ps z m vs h.1 (Opens-next z ps)
            (Closes-list z ps) rest in
        let lt = lt_of_get input m (lead 0).0 (lead 0).1 in
        let (z, b₁, first) =
          value_read v h.0 fuel (list_value ∷ ps) i m (λ z b. in_list ps vs b) b
            (omega (arith, sum)) refl (Reads-left input i (code v) (code_items vs ++ b'e' ∷ []) s)
            (Room-inside input short v m lt)
            (Onward-lead (list_value ∷ ps) m (in_list ps vs) lead) in
        let (b₂, later) =
          list_read vs h.1 fuel ps m j b₁ (omega (arith, sum, long)) (omega (arith, e, sum)) rest in
        (
          b₂,
          list_more input short fuel (dec (suc i) (started (list_value ∷ ps) v b))
              (dec (suc m) (in_list ps vs b₁)) (dec (suc j) (popped ps b₂, end_list)) v vs
              (is_end_list-started (list_value ∷ ps) v b) first later,
        )

    -- The rest of a dictionary, with the map so far.
    dict_read :
        (fs : Fields)
        → IsPlainFields fs
        → (fuel : ℕ) (m : Fields) (ps : List ParseState) (i j : ℕ) (b : Scanner)
        → suc (length (code_fields fs)) ≤ fuel
        → i + length (code_fields fs) ≡ j
        → Reads input i (code_fields fs ++ b'e' ∷ [])
        → (b' : Scanner) × (dict_interface input fuel m (dec (suc i) (in_dict ps fs b))
            ≡ ok (put_all m fs, dec (suc j) (popped ps b', end_dict)))
    dict_read fs h zero m ps i j b le e r = absurd (omega arith)
    dict_read no_fields h (suc fuel) m ps i j b le e r = (
      b,
      dict_done input short fuel m (dec (suc i) (in_dict ps no_fields b)) refl
          ∙ ap (λ k. ok (m, dec (suc k) (in_dict ps no_fields b))) (omega arith),
    )
    dict_read (field k v fs) h (suc fuel) m ps i j b le e r =
        let sum = length-append (string k) (code v ++ code_fields fs) in
        let sum₁ = length-append (code v) (code_fields fs) in
        let long = code_positive v h.1 in
        let i₁ = i + length (string k) in
        let i₂ = i₁ + length (code v) in
        let s =
          subst (Reads input i) (append_assoc (string k) (code v ++ code_fields fs) (b'e' ∷ []))
            r in
        let s₁ =
          subst (Reads input i₁) (append_assoc (code v) (code_fields fs) (b'e' ∷ []))
            (Reads-right input i (string k) ((code v ++ code_fields fs) ++ b'e' ∷ []) s) in
        let rest = Reads-right input i₁ (code v) (code_fields fs ++ b'e' ∷ []) s₁ in
        let text = Reads-left input i₁ (code v) (code_fields fs ++ b'e' ∷ []) s₁ in
        let lead : (z : ℕ)
            → Leads input end_value (dict_key ∷ ps) z i₁ (started (dict_value ∷ ps) v) =
          λ z.
            Leads-value input end_value (dict_key ∷ ps) (dict_value ∷ ps) z i₁ v h.1
              (Opens-behind_key z ps) text in
        let lead₁ : (z : ℕ) → Leads input end_value (dict_value ∷ ps) z i₂ (in_dict ps fs) = λ z.
          Leads-fields input end_value (dict_value ∷ ps) ps z i₂ fs (HeadOk-next end_value k fs h.0)
            (opens_next_key z ps) (Closes-dict z ps) rest in
        let (z, b₁, key) =
          string_read input short (dict_key ∷ ps) k i i₁ (λ z b. started (dict_value ∷ ps) v b) b
            refl (Reads-left input i (string k) ((code v ++ code_fields fs) ++ b'e' ∷ []) s)
            (inl (lt_of_get input i₁ (lead 0).0 (lead 0).1))
            (Onward-lead (dict_key ∷ ps) i₁ (started (dict_value ∷ ps) v) lead) in
        let (z₂, b₂, val) =
          value_read v h.1 fuel (dict_value ∷ ps) i₁ i₂ (λ z b. in_dict ps fs b) b₁
            (omega (arith, sum, sum₁)) refl text
            (Room-inside input short v i₂ (lt_of_get input i₂ (lead₁ 0).0 (lead₁ 0).1))
            (Onward-lead (dict_value ∷ ps) i₂ (in_dict ps fs) lead₁) in
        let (b₃, later) =
          dict_read fs h.2 fuel (put k v m) ps i₂ j b₂ (omega (arith, sum, sum₁, long))
            (omega (arith, e, sum, sum₁)) rest in
        (
          b₃,
          dict_more input short fuel m (put_all (put k v m) fs)
              (dec (suc i) (in_length (dict_key ∷ ps) k b))
              (dec (suc i₁) (started (dict_value ∷ ps) v b₁)) (dec (suc i₂) (in_dict ps fs b₂))
              (dec (suc j) (popped ps b₃, end_dict)) k v refl key val later,
        )
