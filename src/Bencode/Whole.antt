-- ===== src/Bencode/Whole.antt =====
-- `checkValid` accepts the bencode of every plain value but the empty string.
use mathlib.Core.Path.{subst}
use bget.Common.{
  ℕ, suc, ◌+◌, ◌-◌, ◌*◌, ◌^◌, ◌<◌, ◌≤◌, inl, inr, true, List, [], ◌∷◌, ◌++◌, length, length-append,
  ◌≡◌, refl, arith, ap, ◌∙◌, Bool-cases,
}
use bget.Common.Decimal.{decimal_int}
use bget.Bencode.Scanner.{
  State, ParseState, Scanner, begin_value, end_value, begin_dict, end_dict, begin_list, end_list,
  dict_key, dict_value, list_value, fresh, reset,
}
use bget.Bencode.Valid.{valid, before, check_from, eof, check_valid}
use bget.Bencode.Encode.{Bytes, string}
use bget.Bencode.Decoded.{
  Decoded, int, str, list, dict, failed, Several, no_more, more, Fields, no_fields, field,
}
use bget.Bencode.Plain.{code, code_items, code_fields, IsPlain, IsPlainAll, IsPlainFields}
use bget.Bencode.Reads.{Reads, lt_of_get, Reads-left, Reads-right, Reads-self}
use bget.Bencode.Tokens.{at}
use bget.Bencode.Walks.{Walk-here}
use bget.Bencode.Places.{
  Start, Opens, Closes, OpensKey, Opens-first, Opens-next, Opens-behind_key, Closes-empty_list,
  Closes-list, Closes-empty_dict, Closes-dict, opens_first_key, opens_next_key,
}
use bget.Bencode.Accepts.{Passes, loop, shape, round, then_, int_passes}
use bget.Bencode.Heads.{HeadOk, HeadOk-next, HeadOk-first, starts_key, starts_value}
use bget.Bencode.Around.{Room, Room-inside, Ended, string_ends, around}

module _ (input : Bytes) (short : length input < 2 ^ 63) where
  mutual
    unfolding code

    value_ends :
        (d : Decoded)
        → IsPlain d
        → (st : State) (qs ps : List ParseState) (size i j : ℕ) → Opens st qs size ps
        → i + length (code d) ≡ j
        → Reads input i (code d)
        → Room input short d j
        → Ended input short st qs size ps i j
    value_ends (failed b) h st qs ps size i j opens e r room = absurd h
    value_ends (str w) h st qs ps size i j opens e r room =
        string_ends input short w st qs ps size i j (starts_value st qs size ps w opens) e r room
    value_ends (int z) h st qs ps size i j opens e r room =
        let k = length (decimal_int z) in
        let sum : i + k + 2 ≡ j = omega (arith, length-append (decimal_int z) (b'e' ∷ [])) in
        (
          k + 2,
          1,
          omega arith,
          λ b.
              subst (Passes input short (k + 2) (at st qs 0 size b) i end_value ps 0 1) sum
                (int_passes input short z st qs ps size b i opens r),
        )
    value_ends (list vs) h st qs ps size i j opens e r room =
        let inside = code_items vs in
        let m = suc i + length inside in
        let tail = Reads-right input (suc i) inside (b'e' ∷ []) r.1 in
        let lt = lt_of_get input m b'e' tail.0 in
        let (k, st₂, z, le, closes, walk) =
          items_end vs h begin_value ps 1 (suc i) m (Opens-first (list_value ∷ ps))
            (Closes-empty_list ps) refl (Reads-left input (suc i) inside (b'e' ∷ []) r.1) lt in
        subst (Ended input short st qs size ps i) (omega (arith, length-append inside (b'e' ∷ [])))
          (around input short st begin_value st₂ qs (list_value ∷ ps) (list_value ∷ ps) ps size z i
            m b'l' k begin_list end_list (λ a. opens a b'l' (Start.list b'l' refl)) refl refl r.0
            tail.0 le closes walk)
    value_ends (dict fs) h st qs ps size i j opens e r room =
        let inside = code_fields fs in
        let m = suc i + length inside in
        let tail = Reads-right input (suc i) inside (b'e' ∷ []) r.1 in
        let lt = lt_of_get input m b'e' tail.0 in
        let (k, st₂, qs₂, z, le, closes, walk) =
          fields_end fs h State.begin_string (dict_key ∷ ps) ps 1 (suc i) m (opens_first_key ps)
            (Closes-empty_dict ps) (HeadOk-first fs) refl
            (Reads-left input (suc i) inside (b'e' ∷ []) r.1) lt in
        subst (Ended input short st qs size ps i) (omega (arith, length-append inside (b'e' ∷ [])))
          (around input short st State.begin_string st₂ qs (dict_key ∷ ps) qs₂ ps size z i m b'd' k
            begin_dict end_dict (λ a. opens a b'd' (Start.dict b'd' refl)) refl refl r.0 tail.0 le
            closes walk)

    items_end :
        (vs : Several)
        → IsPlainAll vs
        → (st : State) (ps : List ParseState) (size i j : ℕ)
        → Opens st (list_value ∷ ps) size (list_value ∷ ps)
        → Closes st (list_value ∷ ps) size ps end_list
        → i + length (code_items vs) ≡ j
        → Reads input i (code_items vs)
        → j < length input
        → (k : ℕ) × (st' : State) × (z : ℕ) × (k + 2 * i ≤ 2 * j)
          × Closes st' (list_value ∷ ps) z ps end_list
          × ((b : Scanner)
              → Passes input short k
                  (at st (list_value ∷ ps) 0 size b)
                  i
                  st'
                  (list_value ∷ ps)
                  0
                  z
                  j)
    items_end no_more h st ps size i j opens closes e r next = (
      0,
      st,
      size,
      omega arith,
      closes,
      λ b.
          Walk-here input before (loop input short) (shape input short) (round input short) short st
            (list_value ∷ ps) 0 size b i j (omega arith),
    )
    items_end (more v vs) h st ps size i j opens closes e r next =
        let sum = length-append (code v) (code_items vs) in
        let m = i + length (code v) in
        let (k, z, le, walk) =
          value_ends v h.0 st (list_value ∷ ps) (list_value ∷ ps) size i m opens refl
            (Reads-left input i (code v) (code_items vs) r)
            (Room-inside input short v m (omega arith)) in
        let (k₂, st₂, z₂, le₂, closes₂, walk₂) =
          items_end vs h.1 end_value ps z m j (Opens-next z ps) (Closes-list z ps) (omega arith)
            (Reads-right input i (code v) (code_items vs) r) next in
        (
          k + k₂,
          st₂,
          z₂,
          omega arith,
          closes₂,
          λ b.
              then_ input short k k₂ (k + k₂) (at st (list_value ∷ ps) 0 size b) i end_value st₂
                (list_value ∷ ps) (list_value ∷ ps) 0 0 z z₂ m j refl (walk b) walk₂,
        )

    fields_end :
        (fs : Fields)
        → IsPlainFields fs
        → (st : State) (qs ps : List ParseState) (size i j : ℕ) → OpensKey st qs size ps
        → Closes st qs size ps end_dict
        → HeadOk st fs
        → i + length (code_fields fs) ≡ j
        → Reads input i (code_fields fs)
        → j < length input
        → (k : ℕ) × (st' : State) × (qs' : List ParseState) × (z : ℕ) × (k + 2 * i ≤ 2 * j)
          × Closes st' qs' z ps end_dict
          × ((b : Scanner) → Passes input short k (at st qs 0 size b) i st' qs' 0 z j)
    fields_end no_fields h st qs ps size i j opens closes first e r next = (
      0,
      st,
      qs,
      size,
      omega arith,
      closes,
      λ b.
          Walk-here input before (loop input short) (shape input short) (round input short) short st
            qs 0 size b i j (omega arith),
    )
    fields_end (field k v fs) h st qs ps size i j opens closes first e r next =
        let sum = length-append (string k) (code v ++ code_fields fs) in
        let sum₂ = length-append (code v) (code_fields fs) in
        let m = i + length (string k) in
        let m₂ = m + length (code v) in
        let behind = Reads-right input i (string k) (code v ++ code_fields fs) r in
        let (x, z, le, walk) =
          string_ends input short k st qs (dict_key ∷ ps) size i m
            (starts_key st qs size ps k opens first) refl
            (Reads-left input i (string k) (code v ++ code_fields fs) r) (inl (omega arith)) in
        let (x₂, z₂, le₂, walk₂) =
          value_ends v h.1 end_value (dict_key ∷ ps) (dict_value ∷ ps) z m m₂
            (Opens-behind_key z ps) refl (Reads-left input m (code v) (code_fields fs) behind)
            (Room-inside input short v m₂ (omega arith)) in
        let (x₃, st₃, qs₃, z₃, le₃, closes₃, walk₃) =
          fields_end fs h.2 end_value (dict_value ∷ ps) ps z₂ m₂ j (opens_next_key z₂ ps)
            (Closes-dict z₂ ps) (HeadOk-next end_value k fs h.0) (omega arith)
            (Reads-right input m (code v) (code_fields fs) behind) next in
        (
          x + (x₂ + x₃),
          st₃,
          qs₃,
          z₃,
          omega arith,
          closes₃,
          λ b.
              then_ input short x (x₂ + x₃) (x + (x₂ + x₃)) (at st qs 0 size b) i end_value st₃
                (dict_key ∷ ps) qs₃ 0 0 z z₃ m j refl (walk b)
                (λ a.
                  then_ input short x₂ x₃ (x₂ + x₃) (at end_value (dict_key ∷ ps) 0 z a) m end_value
                    st₃ (dict_value ∷ ps) qs₃ 0 0 z₂ z₃ m₂ j refl (walk₂ a) walk₃),
        )

at_the_end :
    (fuel z i : ℕ) (b : Scanner) (input : Bytes)
    → i ≡ length input
    → (s : Scanner) × (check_from (suc fuel) (at end_value [] 0 z b) i input ≡ valid s)
      × (s.string_len ≡ 0)
unfolding check_from eof
at_the_end fuel z i b input e = elim (Bool-cases b.end_top) [
  | inl h ↦ (at end_value [] 0 z b, ground (arith, e, h), refl)
  | inr h ↦ (record (at State.end_top [] 0 z b) { end_top = true }, ground (arith, e, h), refl)
]

-- Every value but the empty string.
abbrev pub IsFilled : Decoded → Type 0
IsFilled (str w) = 0 < length w
IsFilled _ = Unit

pub Room-filled :
    (input : Bytes) (short : length input < 2 ^ 63) (d : Decoded) (j : ℕ)
    → IsFilled d
    → Room input short d j
Room-filled input short (str w) j h = inr h
Room-filled input short (int z) j h = tt
Room-filled input short (list vs) j h = tt
Room-filled input short (dict fs) j h = tt
Room-filled input short (failed b) j h = tt

-- `checkValid` returns no error for the bencode of a plain value that is no empty string and takes fewer
-- than 2^63 bytes, within its bound on the rounds.
pub check_valid-code :
    (d : Decoded)
    → IsPlain d
    → IsFilled d
    → length (code d) < 2 ^ 63
    → (s : Scanner) × (check_valid (code d) fresh ≡ valid s) × (s.string_len ≡ 0)
unfolding check_valid reset
check_valid-code d h filled short =
    let input = code d in
    let n = length input in
    let (k, z, le, walk) =
      value_ends input short d h begin_value [] [] 1 0 n (Opens-first []) (omega arith)
        (Reads-self input) (Room-filled input short d n filled) in
    let left = 2 * n + 1 - k in
    let (b, run) = walk fresh in
    let (s, e, l) = at_the_end left z n b input refl in
    (
      s,
      ap (λ f. check_from f (at begin_value [] 0 1 fresh) 0 input) (omega arith)
          ∙ run (suc left)
          ∙ e,
      l,
    )
