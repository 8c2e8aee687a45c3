-- ===== src/Bencode/Encode.antt =====
-- bencode/encode.go: what `Marshal` writes for a value, as reflection shows it. Each encoder appends to
-- one buffer; here it gives what it appends. The fields of a struct are those that `typeFields` finds,
-- in its order.
use bget.Common.{
  ℕ, Bool, true, false, not, ◌&&◌, ltb, ◌==◌, if◌then◌else◌, List, [], ◌∷◌, ◌++◌, Option, none,
  some, length,
}
use bget.Common.Decimal.{decimal, decimal_int}
use bget.Common.Go.{Result, ok, err, ◌>>=◌}
use bget.Common.Int.{ℤ, pos, negsuc}

abbrev pub Bytes : Type 0
Bytes = List ℕ

-- `nil` is an invalid value, a nil interface, pointer, map or slice. A pointer or an interface that is
-- not nil is what it points to. The result of a value's own method is `none` where it is an error, and
-- `marshaler` tells beside it whether the value is empty.
mutual
  pub data Value : Type 0 where
    nil : Value
    bool : Bool → Value
    int : ℤ → Value
    uint : ℕ → Value
    str : Bytes → Value
    bytes : Bytes → Value
    list : Items → Value
    dict : Entries → Value
    struct : Members → Value
    marshaler : Bool → Option Bytes → Value
    text : Bool → Option Bytes → Value
    unsupported : Value

  pub data Items : Type 0 where
    no_items : Items
    item : Value → Items → Items

  -- A map with keys that are strings, in the order of `MapKeys`.
  pub data Entries : Type 0 where
    no_entries : Entries
    entry : Bytes → Value → Entries → Entries

  -- A field with its name and `omitempty`; `unreached` is one behind a nil pointer.
  pub data Members : Type 0 where
    no_members : Members
    member : Bytes → Bool → Value → Members → Members
    unreached : Members → Members

pub data EncodeError : Type 0 where
  unsupported_type marshaler_error : EncodeError

abbrev is_nil_ℤ : ℤ → Bool
is_nil_ℤ (pos n) = n == 0
is_nil_ℤ (negsuc n) = false

unfoldable pub is_empty_value : Value → Bool
is_empty_value nil = true
is_empty_value (bool b) = not b
is_empty_value (int z) = is_nil_ℤ z
is_empty_value (uint n) = n == 0
is_empty_value (str s) = length s == 0
is_empty_value (bytes s) = length s == 0
is_empty_value (list no_items) = true
is_empty_value (dict no_entries) = true
is_empty_value (marshaler b r) = b
is_empty_value (text b r) = b
is_empty_value _ = false

unfoldable pub string : Bytes → Bytes
string s = decimal (length s) ++ (b':' ∷ s)

-- The order of Go's strings.
unfoldable pub less : Bytes → Bytes → Bool
less [] [] = false
less [] (y ∷ ys) = true
less (x ∷ xs) [] = false
less (x ∷ xs) (y ∷ ys) = if x == y then less xs ys else ltb x y

abbrev pub Chunk : Type 0
Chunk = Bytes × Result EncodeError Bytes

-- `sort.Slice` on the keys, which are all different, with what is written for their values.
unfoldable pub insert_key : Chunk → List Chunk → List Chunk
unfolding less
insert_key c [] = c ∷ []
insert_key c (x ∷ xs) = if less c.0 x.0 then c ∷ x ∷ xs else x ∷ insert_key c xs

unfoldable pub sort_keys : List Chunk → List Chunk
unfolding insert_key
sort_keys [] = []
sort_keys (x ∷ xs) = insert_key x (sort_keys xs)

-- The loop of mapEncoder; an encoder's error ends it.
unfoldable pub write_chunks : List Chunk → Result EncodeError Bytes
unfolding string
write_chunks [] = ok []
write_chunks ((k, v) ∷ cs) = do
  written ← v
  rest ← write_chunks cs
  ok (string k ++ (written ++ rest))

abbrev pub own_result : Option Bytes → (Bytes → Bytes) → Result EncodeError Bytes
own_result none f = err marshaler_error
own_result (some b) f = ok (f b)

abbrev pub enclosed : ℕ → Bytes → Bytes
enclosed c b = c ∷ (b ++ b'e' ∷ [])

unfoldable mutual
  unfolding string sort_keys write_chunks is_empty_value

  pub reflect_value : Value → Result EncodeError Bytes
  reflect_value nil = ok []
  reflect_value (bool b) = err unsupported_type
  reflect_value (int z) = ok (enclosed b'i' (decimal_int z))
  reflect_value (uint n) = ok (enclosed b'i' (decimal n))
  reflect_value (str s) = ok (string s)
  reflect_value (bytes s) = ok (string s)
  reflect_value (list xs) = do written ← array_encoder xs; ok (enclosed b'l' written)
  reflect_value (dict es) = do
    written ← write_chunks (sort_keys (map_chunks es))
    ok (enclosed b'd' written)
  reflect_value (struct ms) = do written ← struct_encoder ms; ok (enclosed b'd' written)
  reflect_value (marshaler b r) = own_result r (λ x. x)
  reflect_value (text b r) = own_result r string
  reflect_value unsupported = err unsupported_type

  pub array_encoder : Items → Result EncodeError Bytes
  array_encoder no_items = ok []
  array_encoder (item v vs) = do
    first ← reflect_value v
    rest ← array_encoder vs
    ok (first ++ rest)

  pub map_chunks : Entries → List Chunk
  map_chunks no_entries = []
  map_chunks (entry k v es) = (k, reflect_value v) ∷ map_chunks es

  pub struct_encoder : Members → Result EncodeError Bytes
  struct_encoder no_members = ok []
  struct_encoder (unreached ms) = struct_encoder ms
  struct_encoder (member name omit v ms) =
      let rest = struct_encoder ms in
      if omit && is_empty_value v
      then rest
      else do written ← reflect_value v; others ← rest; ok (string name ++ (written ++ others))

-- The error of a panic that an encoder raises is returned.
unfoldable pub marshal : Value → Result EncodeError Bytes
unfolding reflect_value
marshal v = reflect_value v
