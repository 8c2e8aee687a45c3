-- ===== src/Utils.antt =====
-- common/utils/net.go: addresses of peers and nodes in their compact form.
pub mod Random
use bget.Common.{
  ℕ, zero, suc, ◌/◌, ◌%◌, not, ◌||◌, ◌==◌, if◌then◌else◌, List, [], ◌∷◌, ◌++◌, length, take, drop,
  get_or,
}
use bget.Common.Decimal.{decimal}
use bget.Common.Go.{Result, ok, err, ◌>>=◌}
use bget.Peer.Wire.{Bytes, unpack_uint16}

pub data AddrError : Type 0 where
  format : AddrError

-- net.IP.String of four bytes.
unfoldable pub dotted : Bytes → Bytes
dotted ip =
    decimal (get_or ip 0 0)
    ++ (b'.' ∷ decimal (get_or ip 1 0)
        ++ (b'.' ∷ decimal (get_or ip 2 0) ++ (b'.' ∷ decimal (get_or ip 3 0))))

-- unpackUint16 is the one of peer/protocol.go, line by line.
unfoldable pub parse_ipv4_addr : Bytes → Result AddrError Bytes
unfolding dotted
parse_ipv4_addr bytes =
    if length bytes == 0 || not (length bytes == 6)
    then err format
    else ok (dotted (take 4 bytes) ++ (b':' ∷ decimal (unpack_uint16 bytes 4).value))

-- The loop, with the number of addresses that are left.
unfoldable pub parse_each : ℕ → Bytes → Result AddrError (List Bytes)
parse_each zero bytes = ok []
parse_each (suc n) bytes =
    let later = parse_each n (drop 6 bytes) in
    do addr ← parse_ipv4_addr (take 6 bytes); rest ← later; ok (addr ∷ rest)

unfoldable pub parse_ipv4_addrs : Bytes → Result AddrError (List Bytes)
unfolding parse_each
parse_ipv4_addrs bytes =
    if length bytes == 0 || not (length bytes % 6 == 0)
    then err format
    else parse_each (length bytes / 6) bytes
