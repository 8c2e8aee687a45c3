-- ===== src/Peer/Wire.antt =====
-- peer/protocol.go: big-endian integers in byte slices (`packUint32`, `unpackUint32`, `unpackUint16`,
-- which common/utils/net.go repeats).
use bget.Common.{
  ℕ, suc, ◌+◌, ◌*◌, ◌/◌, ◌%◌, ◌^◌, ◌<◌, bit_or, ltb, if◌then◌else◌, List, [], ◌∷◌, ◌++◌, Option,
  none, some, length, get_or, ◌≡◌, ap, ◌∙◌, arith, length-append, append_assoc, ge→ltb,
}
use bget.Common.Bits.{bit_or_sum}

abbrev pub Bytes : Type 0
Bytes = List ℕ

abbrev pub u32 : ℕ → ℕ
u32 n = n % 2 ^ 32

abbrev pub uint32_len : ℕ
uint32_len = 4

abbrev pub uint16_len : ℕ
uint16_len = 2

-- The four bytes that packUint32 appends.
abbrev pub bytes_of : ℕ → Bytes
bytes_of field =
    field / 2 ^ 24 % 256 ∷ field / 2 ^ 16 % 256 ∷ field / 2 ^ 8 % 256 ∷ field % 256 ∷ []

unfoldable pub pack_uint32 : Bytes → ℕ → Bytes
pack_uint32 msg field = msg ++ bytes_of field

pub data BaseError : Type 0 where
  base_len : BaseError

-- Go's `(value, offset, error)`: callers that drop the error go on with the other two.
pub record Unpacked : Type 0 where
  pub value : ℕ
  pub offset : ℕ
  pub error : Option BaseError

-- `msg[off]`; the callers' tests keep it in range.
abbrev pub byte_at : Bytes → ℕ → ℕ
byte_at msg off = get_or msg off 0

unfoldable pub unpack_uint32 : Bytes → ℕ → Unpacked
unpack_uint32 msg off =
    if ltb (length msg) (off + uint32_len)
    then record { value = 0; offset = off; error = some base_len }
    else record {
      value =
          bit_or
            (bit_or (bit_or (u32 (byte_at msg off * 2 ^ 24)) (u32 (byte_at msg (off + 1) * 2 ^ 16)))
              (u32 (byte_at msg (off + 2) * 2 ^ 8)))
            (byte_at msg (off + 3));
      offset = off + uint32_len;
      error = none;
    }

unfoldable pub unpack_uint16 : Bytes → ℕ → Unpacked
unpack_uint16 msg off =
    if ltb (length msg) (off + uint16_len)
    then record { value = 0; offset = off; error = some base_len }
    else record {
      value = bit_or (u32 (byte_at msg off * 2 ^ 8)) (byte_at msg (off + 1)) % 2 ^ 16;
      offset = off + uint16_len;
      error = none;
    }

get_or-append : (xs ys : Bytes) (k : ℕ) → get_or (xs ++ ys) (length xs + k) 0 ≡ get_or ys k 0
get_or-append [] ys k = ap (λ i. get_or ys i 0) (omega arith)
get_or-append (x ∷ xs) ys k =
    let e : length (x ∷ xs) + k ≡ suc (length xs + k) = omega arith in
    ap (λ i. get_or (x ∷ xs ++ ys) i 0) e ∙ get_or-append xs ys k

-- Four bytes joined by `|` are the number that they spell.
pub join_bytes :
    (a b c d : ℕ)
    → a < 256
    → b < 256
    → c < 256
    → d < 256
    → bit_or (bit_or (bit_or (u32 (a * 2 ^ 24)) (u32 (b * 2 ^ 16))) (u32 (c * 2 ^ 8))) d
      ≡ a * 2 ^ 24 + b * 2 ^ 16 + c * 2 ^ 8 + d
join_bytes a b c d ha hb hc hd = ground (
  arith,
  bit_or_sum 24 a (b * 2 ^ 16) (omega arith),
  bit_or_sum 16 (a * 2 ^ 8 + b) (c * 2 ^ 8) (omega arith),
  bit_or_sum 8 (a * 2 ^ 16 + b * 2 ^ 8 + c) d (omega arith),
)

-- Reading a slice at the place of four bytes that are there.
unpack_uint32-bytes :
    (msg rest : Bytes) (a b c d : ℕ)
    → a < 256
    → b < 256
    → c < 256
    → d < 256
    → unpack_uint32 (msg ++ (a ∷ b ∷ c ∷ d ∷ rest)) (length msg) ≡ record {
      value = a * 2 ^ 24 + b * 2 ^ 16 + c * 2 ^ 8 + d;
      offset = length msg + 4;
      error = none;
    }
unfolding unpack_uint32
unpack_uint32-bytes msg rest a b c d ha hb hc hd = rw (
  ge→ltb (length (msg ++ tail)) (length msg + 4) (omega (arith, length-append msg tail)),
  first,
  get_or-append msg tail 1,
  get_or-append msg tail 2,
  get_or-append msg tail 3,
  join_bytes a b c d ha hb hc hd,
)
  where
    tail : Bytes
    tail = a ∷ b ∷ c ∷ d ∷ rest

    first : get_or (msg ++ tail) (length msg) 0 ≡ a
    first = ap (λ i. get_or (msg ++ tail) i 0) (omega arith) ∙ get_or-append msg tail 0

-- unpackUint32 reads back, wherever it stands in a slice, the number that packUint32 appended, and
-- moves the offset behind it.
pub unpack-pack_uint32 :
    (msg rest : Bytes) (v : ℕ)
    → v < 2 ^ 32
    → unpack_uint32 (pack_uint32 msg v ++ rest) (length msg)
      ≡ record { value = v; offset = length msg + 4; error = none }
unfolding pack_uint32
unpack-pack_uint32 msg rest v h = rw append_assoc (
    unpack_uint32-bytes msg rest (v / 2 ^ 24 % 256) (v / 2 ^ 16 % 256) (v / 2 ^ 8 % 256) (v % 256)
      (omega arith) (omega arith) (omega arith) (omega arith)
    ∙ ap (λ n. record { value = n; offset = length msg + 4; error = none }) (omega arith))
