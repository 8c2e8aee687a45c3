-- ===== src/Bencode/Plain.antt =====
-- The values that Marshal and Unmarshal share, and what Marshal writes for them.
use bget.Common.{◌<◌, ◌^◌, true, List, [], ◌∷◌, ◌++◌, ◌≡◌, refl}
use bget.Common.Decimal.{decimal_int}
use bget.Common.Go.{ok}
use bget.Common.Int.{ℤ, pos, negsuc}
use bget.Bencode.Encode.{
  Bytes, Value, Items, no_items, item, Entries, no_entries, entry, string, less, insert_key,
  sort_keys, write_chunks, reflect_value, array_encoder, map_chunks, marshal, Chunk,
}
use bget.Bencode.Decoded.{
  Decoded, int, str, list, dict, failed, Several, no_more, more, Fields, no_fields, field,
}

-- A decoded value as one to be encoded; an error is one of no supported type.
abbrev mutual
  pub plain : Decoded → Value
  plain (int z) = Value.int z
  plain (str s) = Value.str s
  plain (list vs) = Value.list (plain_items vs)
  plain (dict fs) = Value.dict (plain_entries fs)
  plain (failed b) = Value.unsupported

  pub plain_items : Several → Items
  plain_items no_more = no_items
  plain_items (more v vs) = item (plain v) (plain_items vs)

  pub plain_entries : Fields → Entries
  plain_entries no_fields = no_entries
  plain_entries (field k v fs) = entry k (plain v) (plain_entries fs)

-- The key comes before the first of these.
abbrev pub Before : Bytes → Fields → Type 0
Before k no_fields = Unit
Before k (field j v fs) = less k j ≡ true

abbrev pub Fits64 : ℤ → Type 0
Fits64 (pos n) = n < 2 ^ 63
Fits64 (negsuc n) = n < 2 ^ 63

-- No error in it, every number fits 64 bits, and every map lists its keys in increasing order, which is
-- one way to write down a map.
abbrev mutual
  pub IsPlain : Decoded → Type 0
  IsPlain (int z) = Fits64 z
  IsPlain (str s) = Unit
  IsPlain (list vs) = IsPlainAll vs
  IsPlain (dict fs) = IsPlainFields fs
  IsPlain (failed b) = ⊥

  pub IsPlainAll : Several → Type 0
  IsPlainAll no_more = Unit
  IsPlainAll (more v vs) = IsPlain v × IsPlainAll vs

  pub IsPlainFields : Fields → Type 0
  IsPlainFields no_fields = Unit
  IsPlainFields (field k v fs) = Before k fs × IsPlain v × IsPlainFields fs

-- Bencode: the bytes of a value.
unfoldable mutual
  unfolding string

  pub code : Decoded → Bytes
  code (int z) = b'i' ∷ (decimal_int z ++ b'e' ∷ [])
  code (str s) = string s
  code (list vs) = b'l' ∷ (code_items vs ++ b'e' ∷ [])
  code (dict fs) = b'd' ∷ (code_fields fs ++ b'e' ∷ [])
  code (failed b) = []

  pub code_items : Several → Bytes
  code_items no_more = []
  code_items (more v vs) = code v ++ code_items vs

  pub code_fields : Fields → Bytes
  code_fields no_fields = []
  code_fields (field k v fs) = string k ++ (code v ++ code_fields fs)

-- Chunks for fields in order are in order already.
abbrev chunks : Fields → List Chunk
chunks no_fields = []
chunks (field k v fs) = (k, ok (code v)) ∷ chunks fs

sorted : (fs : Fields) → IsPlainFields fs → sort_keys (chunks fs) ≡ chunks fs
unfolding sort_keys insert_key code
sorted no_fields h = refl
sorted (field k v no_fields) h = refl
sorted (field k v (field j w fs)) h = rw (sorted (field j w fs) h.2, h.0)

written : (fs : Fields) → write_chunks (chunks fs) ≡ ok (code_fields fs)
unfolding write_chunks code
written no_fields = refl
written (field k v fs) = rw (written fs)

mutual
  unfolding reflect_value code

  encodes : (d : Decoded) → IsPlain d → reflect_value (plain d) ≡ ok (code d)
  encodes (int z) h = refl
  encodes (str s) h = refl
  encodes (list vs) h = rw (encodes_all vs h)
  encodes (dict fs) h = rw (encodes_fields fs h, sorted fs h, written fs)
  encodes (failed b) h = absurd h

  encodes_all : (vs : Several) → IsPlainAll vs → array_encoder (plain_items vs) ≡ ok (code_items vs)
  encodes_all no_more h = refl
  encodes_all (more v vs) h = rw (encodes v h.0, encodes_all vs h.1)

  encodes_fields : (fs : Fields) → IsPlainFields fs → map_chunks (plain_entries fs) ≡ chunks fs
  encodes_fields no_fields h = refl
  encodes_fields (field k v fs) h = rw (encodes v h.1, encodes_fields fs h.2)

-- Marshal writes a plain value as its bencode, the keys of each map in order.
pub marshal-plain : (d : Decoded) → IsPlain d → marshal (plain d) ≡ ok (code d)
unfolding marshal
marshal-plain d h = encodes d h
