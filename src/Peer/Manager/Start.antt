-- ===== src/Peer/Manager/Start.antt =====
-- peer/manager.go: `initPeer` and `generateFastSet`, what a new peer is told; peer/peer.go: `newPeer`.
use bget.Common.{
  ℕ, zero, suc, ◌%◌, ◌^◌, ◌≤◌, Bool, false, not, ◌&&◌, ◌||◌, ltb, ◌==◌, if◌then◌else◌, List, [],
  ◌∷◌, ◌++◌, Option, none, some, length, take, drop, replicate, map, bit_and, ◌≡◌, arith,
  length-append,
}
use bget.Common.Go.{Result, ok, panic, ◌>>=◌}
use bget.Bitmap.{new_empty_bitmap}
use bget.Peer.Wire.{Bytes, pack_uint32, unpack_uint32}
use bget.Peer.Message.{Outgoing, allowed_fast, have_none, have_all, bitfield}
use bget.Peer.Manager.{Peer, PeerState, Session, HandlerError}

abbrev pub fast_set_size : ℕ
fast_set_size = 10

abbrev pub fresh_peer : Bytes → Bytes → Peer
fresh_peer id addr = record {
  id = id;
  addr = addr;
  fast_extension = false;
  is_interest = false;
  is_choke = false;
  fast_set = [];
  state = PeerState.init;
  bitmap = new_empty_bitmap 0;
  closed = false;
  download = 0;
  upload = 0;
  have_req = false;
}

-- An id that is not nil has twenty bytes; `none` is a nil peer. The bitmap of a new peer is nil, which
-- is an empty one here: nothing reads it before `initPeer` sets it.
unfoldable pub new_peer : Option Bytes → Bytes → Option Peer
new_peer none addr = some (fresh_peer (replicate 20 0) addr)
new_peer (some id) addr = if length id == 20 then some (fresh_peer id addr) else none

unfoldable pub holds_index : ℕ → List ℕ → Bool
holds_index k [] = false
holds_index k (v ∷ vs) = v == k || holds_index k vs

-- One index from the four bytes at `i` of the hash, unless the set is full or has it.
unfoldable pub pick : ℕ → Bytes → ℕ → List ℕ → List ℕ
unfolding holds_index
pick pl h i chosen =
    let k = (unpack_uint32 (take 4 (drop i h)) 0).value % pl in
    if ltb (length chosen) fast_set_size && not (holds_index k chosen)
    then chosen ++ k ∷ []
    else chosen

module _ (sha1 : Bytes → Bytes) where
  -- The loop with a bound on its rounds: `none` while it is still running. The indices at 0 and 4
  -- are taken in one round.
  unfoldable pub fast_rounds : ℕ → ℕ → Bytes → List ℕ → Option (List ℕ)
  fast_rounds zero pl x chosen = if ltb (length chosen) fast_set_size then none else some chosen
  fast_rounds (suc fuel) pl x chosen =
      let later = fast_rounds fuel pl (sha1 x) (pick pl (sha1 x) 4 (pick pl (sha1 x) 0 chosen)) in
      if ltb (length chosen) fast_set_size then later else some chosen

  -- `ip` is what net.ParseIP gives for the host of the address, `none` where it has no port. The index
  -- is taken modulo the length of a piece, as the code does.
  unfoldable pub generate_fast_set :
      ℕ → Option Bytes → Bytes → ℕ → List ℕ → Option (Result HandlerError (List ℕ))
  unfolding fast_rounds
  generate_fast_set fuel none info piece_length chosen = some panic
  generate_fast_set fuel (some ip) info piece_length chosen =
      let i = bit_and (unpack_uint32 ip 0).value 0xffffff00 in
      let pl = piece_length % 2 ^ 32 in
      let run = fast_rounds fuel pl (pack_uint32 [] i ++ info) chosen in
      if pl == 0 && ltb (length chosen) fast_set_size
      then some panic
      else elim run [ none ↦ none | some ks ↦ some (ok ks) ]

module _ {Disk : Type 0} where
  abbrev pub tell : List Outgoing → Session Disk → Session Disk
  tell os s = record s { out = s.out ++ os }

  -- What is sent behind the fast set.
  abbrev pub own_pieces : Session Disk → Outgoing
  own_pieces s =
      if ltb s.m.download s.m.piece_length
      then have_none
      else if s.m.left == 0
      then have_all
      else bitfield s.m.finish

  abbrev pub with_empty : Session Disk → Session Disk
  with_empty s = record s { p = record s.p { bitmap = new_empty_bitmap s.m.piece_num } }

  unfoldable pub init_peer :
      (Bytes → Bytes)
      → ℕ
      → Option Bytes
      → Bytes
      → Session Disk
      → Option (Result HandlerError (Session Disk))
  unfolding generate_fast_set
  init_peer sha1 fuel ip info s =
      if s.p.fast_extension
      then elim (generate_fast_set sha1 fuel ip info s.m.piece_length s.p.fast_set) [
        | none ↦ none
        | some r ↦ some (
            r >>= λ ks. ok (
              tell (map allowed_fast ks ++ own_pieces s ∷ [])
                (record (with_empty s) { p = record (with_empty s).p { fast_set = ks } })))
      ]
      else some (ok (tell (bitfield s.m.finish ∷ []) (with_empty s)))

pick-length :
    (pl : ℕ) (h : Bytes) (i : ℕ) (chosen : List ℕ)
    → length chosen ≤ 10
    → length (pick pl h i chosen) ≤ 10
unfolding pick
pick-length pl h i chosen le =
    ground (arith, length-append chosen ((unpack_uint32 (take 4 (drop i h)) 0).value % pl ∷ []))

some_inj : (xs ys : List ℕ) → some xs ≡ some ys → xs ≡ ys
some_inj xs ys e = cc

-- Whatever the hash function gives, where the loop of generateFastSet ends after starting with at most
-- ten indices, it leaves ten of them.
pub fast_rounds_lem :
    (sha1 : Bytes → Bytes) (fuel pl : ℕ) (x : Bytes) (chosen out : List ℕ)
    → length chosen ≤ 10
    → fast_rounds sha1 fuel pl x chosen ≡ some out
    → length out ≡ 10
unfolding fast_rounds
fast_rounds_lem sha1 zero pl x chosen out h e = ground (arith, some_inj chosen out)
fast_rounds_lem sha1 (suc fuel) pl x chosen out h e =
    let one = pick pl (sha1 x) 0 chosen in
    let two = pick pl (sha1 x) 4 one in
    ground (
      arith,
      some_inj chosen out,
      pick-length pl (sha1 x) 0 chosen h,
      fast_rounds_lem sha1 fuel pl (sha1 x) two out
          (pick-length pl (sha1 x) 4 one (pick-length pl (sha1 x) 0 chosen h)),
    )
