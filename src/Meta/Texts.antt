-- ===== src/Meta/Texts.antt =====
-- meta/torrent.go: the texts of a file and of a hash, the last part of NewTorrent, and what becomes of
-- the values with a decoding of their own.
use bget.Common.{
  ℕ, ◌+◌, ◌-◌, ◌*◌, ◌/◌, ◌%◌, true, false, not, ltb, ◌==◌, if◌then◌else◌, List, [], ◌∷◌, ◌++◌,
  Option, none, some, length, map, ◌≡◌, refl, arith, ap, ap₂, sym, ◌∙◌,
}
use bget.Common.Go.{Result, ok, err}
use bget.Common.Int.{ℤ, pos}
use bget.Bencode.Decoded.{int, str, Several, no_more, more}
use bget.Filesystem.Piece.{Bytes}
use bget.Filesystem.Layout.{FileInfo, join}

-- `FileInfo.String`
unfoldable pub file_string : FileInfo → Bytes
unfolding join
file_string f =
    let p = if length f.path_utf8 == 0 then join f.path else join f.path_utf8 in
    let load = if f.download then b'Y' ∷ b'e' ∷ b's' ∷ [] else b'N' ∷ b'o' ∷ [] in p ++ b'\t' ∷ load

-- One digit of `%x`.
abbrev pub hex_digit : ℕ → ℕ
hex_digit d = if ltb d 10 then b'0' + d else b'a' + (d - 10)

-- `Hash.String`
unfoldable pub hash_string : Bytes → Bytes
hash_string [] = []
hash_string (x ∷ xs) = hex_digit (x / 16) ∷ hex_digit (x % 16) ∷ hash_string xs

-- What NewTorrent makes of the files that it has read: a torrent with no list has one file, and all of
-- them are to be downloaded.
abbrev pub downloaded : FileInfo → FileInfo
downloaded f = record f { download = true }

unfoldable pub torrent_files : Bytes → ℕ → List FileInfo → List FileInfo
torrent_files name size [] =
    downloaded (record { path = name ∷ []; path_utf8 = []; length = size; download = false }) ∷ []
torrent_files name size (f ∷ fs) = map downloaded (f ∷ fs)

pub data MetaError : Type 0 where
  bencode unmarshal ip_format : MetaError

-- `UnmarshalBencode` of an array of `n` bytes, for ed2k and fileHash.
unfoldable pub unmarshal_array : ℕ → Bytes → Result MetaError Bytes
unmarshal_array n given = if not (length given == n) then err unmarshal else ok given

pub record Node : Type 0 where
  pub ip : Bytes
  pub port : ℤ

-- `UnmarshalBencode` of a node from the list that was decoded, `none` where that failed. The value is
-- left as it is where the list has not two values, and nil is returned. `parse_ip` is net.ParseIP.
unfoldable pub unmarshal_node :
    (Bytes → Option Bytes) → Option Several → Node → Node × Result MetaError (Unit {0})
unmarshal_node parse_ip none n = (n, err bencode)
unmarshal_node parse_ip (some (more (str ip) (more port no_more))) n = elim (parse_ip ip) [
  | none ↦ (record n { ip = [] }, err ip_format)
  | some p ↦ elim port [
    | int z ↦ (record { ip = p; port = z }, ok tt)
    | _ ↦ (record { ip = p; port = pos 0 }, err unmarshal)
  ]
]
unmarshal_node parse_ip (some (more v (more port no_more))) n = (n, err unmarshal)
unmarshal_node parse_ip (some vs) n = (n, ok tt)

-- A digit is read back, and two of them make a byte.
abbrev value_of : ℕ → ℕ
value_of c = if ltb c b'a' then c - b'0' else c - b'a' + 10

value_of-hex_digit : (d : ℕ) → value_of (hex_digit d) ≡ d
value_of-hex_digit d = ground arith

read_hex : Bytes → Bytes
read_hex [] = []
read_hex (c ∷ []) = []
read_hex (c ∷ d ∷ rest) = (value_of c * 16 + value_of d) ∷ read_hex rest

read_hex-hash_string : (xs : Bytes) → read_hex (hash_string xs) ≡ xs
unfolding read_hex hash_string
read_hex-hash_string [] = refl
read_hex-hash_string (x ∷ xs) =
    ap₂ ◌∷◌ (omega (arith, value_of-hex_digit (x / 16), value_of-hex_digit (x % 16)))
      (read_hex-hash_string xs)

-- The text of a hash, by which Download knows a task, tells hashes apart: those with the same text are the
-- same.
pub hash_string_inj : (xs ys : Bytes) → hash_string xs ≡ hash_string ys → xs ≡ ys
hash_string_inj xs ys e = sym (read_hex-hash_string xs) ∙ ap read_hex e ∙ read_hex-hash_string ys
