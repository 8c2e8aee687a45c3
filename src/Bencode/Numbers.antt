-- ===== src/Bencode/Numbers.antt =====
-- `Atoi` reads back the numbers that are written in decimal, and the keys of a map are put in order.
use bget.Common.{
  ℕ, suc, ◌+◌, ◌-◌, ◌*◌, ◌⊎◌, inl, inr, true, false, [], ◌∷◌, some, ◌≡◌, refl, sym, arith, ap, ◌∙◌,
  All,
}
use mathlib.Core.Path.{subst}
use bget.Common.Bytes.{equal, equal_ne}
use bget.Common.Decimal.{decimal_int}
use bget.Common.Digits.{IsDigit, spelled, Digits, digits_of}
use bget.Common.Go.{ok}
use bget.Common.Int.{ℤ, pos, negsuc}
use bget.Bencode.Encode.{Bytes, less}
use bget.Bencode.Decoded.{
  int, atoi, digits_value, in_range, in_negative_range, Decoded, Fields, no_fields, field, put,
}
use bget.Bencode.Decode.{Decoder, int_value, int_stored}
use bget.Bencode.Plain.{Fits64, Before, IsPlainFields}

digits_value_lem : (cs : Bytes) (m : ℕ) → All IsDigit cs → digits_value m cs ≡ some (spelled m cs)
unfolding digits_value
digits_value_lem [] m h = refl
digits_value_lem (c ∷ cs) m h = ground (arith, digits_value_lem cs (m * 10 + (c - b'0')) h.1)

whole_value : (n : ℕ) (d : Digits n) → digits_value 0 (d.first ∷ d.others) ≡ some n
whole_value n d =
    digits_value_lem (d.first ∷ d.others) 0 (d.first-IsDigit, d.others-IsDigit)
    ∙ ap some (ap (λ m. spelled m d.others) (omega arith) ∙ d.value)

atoi_digit : (c : ℕ) (cs : Bytes) → IsDigit c → atoi (c ∷ cs) ≡ in_range (digits_value 0 (c ∷ cs))
unfolding atoi
atoi_digit c [] h = refl
atoi_digit c (x ∷ cs) h = ground arith

atoi_minus :
    (c : ℕ) (cs : Bytes) → atoi (b'-' ∷ c ∷ cs) ≡ in_negative_range (digits_value 0 (c ∷ cs))
unfolding atoi
atoi_minus c cs = refl

-- Atoi reads back a number that fits 64 bits.
pub atoi-decimal_int : (z : ℤ) → Fits64 z → atoi (decimal_int z) ≡ (z, true)
unfolding decimal_int
atoi-decimal_int (pos n) h =
    let d = digits_of n in
    ap atoi d.written
    ∙ atoi_digit d.first d.others d.first-IsDigit
    ∙ ap in_range (whole_value n d)
    ∙ ground arith
atoi-decimal_int (negsuc n) h =
    let d = digits_of (suc n) in
    ap (λ t. atoi (b'-' ∷ t)) d.written
    ∙ atoi_minus d.first d.others
    ∙ ap in_negative_range (whole_value (suc n) d)
    ∙ ground arith

-- A text that begins with a digit or a minus sign.
abbrev IsNumberText : Bytes → Type 0
IsNumberText [] = ⊥
IsNumberText (c ∷ cs) = IsDigit c ⊎ (c ≡ b'-')

number-first : (z : ℤ) → IsNumberText (decimal_int z)
unfolding decimal_int
number-first (pos n) =
    let d = digits_of n in subst IsNumberText (sym d.written) (inl d.first-IsDigit)
number-first (negsuc n) = inr refl

-- What `intInterface` and `intStore` make of the text of such a number.
pub int_value-decimal_int :
    (input : Bytes) (z : ℤ) (d : Decoder)
    → Fits64 z
    → int_value input (decimal_int z) d ≡ ok (int z, d)
int_value-decimal_int input z d h = by_text (decimal_int z) (number-first z) (atoi-decimal_int z h)
  where
    by_text :
        (w : Bytes) → IsNumberText w → atoi w ≡ (z, true) → int_value input w d ≡ ok (int z, d)
    by_text [] f e = absurd f
    by_text (c ∷ cs) f e = ground (arith, e)

pub int_stored-decimal_int :
    (input : Bytes) (z : ℤ) (d : Decoder)
    → Fits64 z
    → int_stored input (decimal_int z) d ≡ ok (some (int z), d)
int_stored-decimal_int input z d h = by_text (decimal_int z) (number-first z) (atoi-decimal_int z h)
  where
    by_text :
        (w : Bytes)
        → IsNumberText w
        → atoi w ≡ (z, true)
        → int_stored input w d ≡ ok (some (int z), d)
    by_text [] f e = absurd f
    by_text (c ∷ cs) f e = ground (arith, e)

less_trans : (a b c : Bytes) → less a b ≡ true → less b c ≡ true → less a c ≡ true
unfolding less
less_trans [] [] c h k = cc
less_trans [] (y ∷ b) [] h k = cc
less_trans [] (y ∷ b) (z ∷ c) h k = refl
less_trans (x ∷ a) [] c h k = cc
less_trans (x ∷ a) (y ∷ b) [] h k = cc
less_trans (x ∷ a) (y ∷ b) (z ∷ c) h k = ground (arith, less_trans a b c)

less_irrefl : (a : Bytes) → less a a ≡ false
unfolding less
less_irrefl [] = refl
less_irrefl (x ∷ a) = ground (arith, less_irrefl a)

equal-less : (a b : Bytes) → less a b ≡ true → equal a b ≡ false
equal-less a b h = equal_ne a b (λ e. clash a b e h)
  where
    clash : (a b : Bytes) → a ≡ b → less a b ≡ true → ⊥
    clash a b e h = cc (less_irrefl a)

abbrev pub put_all : Fields → Fields → Fields
put_all m no_fields = m
put_all m (field k v fs) = put_all (put k v m) fs

abbrev join : Fields → Fields → Fields
join no_fields fs = fs
join (field k v m) fs = field k v (join m fs)

abbrev snoc : Fields → Bytes → Decoded → Fields
snoc no_fields k v = field k v no_fields
snoc (field j w m) k v = field j w (snoc m k v)

abbrev AllBelow : Fields → Bytes → Type 0
AllBelow no_fields k = Unit
AllBelow (field j w m) k = (less j k ≡ true) × AllBelow m k

put_last : (k : Bytes) (v : Decoded) (m : Fields) → AllBelow m k → put k v m ≡ snoc m k v
unfolding put
put_last k v no_fields h = refl
put_last k v (field j w m) h = rw (equal-less j k h.0, put_last k v m h.1)

AllBelow-trans : (m : Fields) (k l : Bytes) → AllBelow m k → less k l ≡ true → AllBelow m l
AllBelow-trans no_fields k l h e = tt
AllBelow-trans (field j w m) k l h e = (less_trans j k l h.0 e, AllBelow-trans m k l h.1 e)

AllBelow-snoc :
    (m : Fields) (k l : Bytes) (v : Decoded)
    → AllBelow m l
    → less k l ≡ true
    → AllBelow (snoc m k v) l
AllBelow-snoc no_fields k l v h e = (e, tt)
AllBelow-snoc (field j w m) k l v h e = (h.0, AllBelow-snoc m k l v h.1 e)

join-snoc : (m fs : Fields) (k : Bytes) (v : Decoded) → join (snoc m k v) fs ≡ join m (field k v fs)
join-snoc no_fields fs k v = refl
join-snoc (field j w m) fs k v = rw (join-snoc m fs k v)

abbrev HeadAbove : Fields → Fields → Type 0
HeadAbove m no_fields = Unit
HeadAbove m (field k v fs) = AllBelow m k

put_all-join : (m fs : Fields) → IsPlainFields fs → HeadAbove m fs → put_all m fs ≡ join m fs
put_all-join m no_fields h k = append_nothing m
  where
    append_nothing : (m : Fields) → m ≡ join m no_fields
    append_nothing no_fields = refl
    append_nothing (field j w m) = ap (field j w) (append_nothing m)
put_all-join m (field k v fs) h below =
    ap (λ t. put_all t fs) (put_last k v m below)
    ∙ put_all-join (snoc m k v) fs h.2 (above fs h.0)
    ∙ join-snoc m fs k v
  where
    above : (fs : Fields) → Before k fs → HeadAbove (snoc m k v) fs
    above no_fields b = tt
    above (field l w fs) b = AllBelow-snoc m k l v (AllBelow-trans m k l below b) b

-- Fields with increasing keys, put into an empty map one after the other.
pub put_all_lem : (fs : Fields) → IsPlainFields fs → put_all no_fields fs ≡ fs
put_all_lem fs h = put_all-join no_fields fs h (none_below fs)
  where
    none_below : (fs : Fields) → HeadAbove no_fields fs
    none_below no_fields = tt
    none_below (field k v fs) = tt
