-- ===== src/Examples/Rounds.antt =====
-- The run loop of a manager over one peer, and rounds over four peers that are unchoked.
use bget.Common.{
  ℕ, Bool, true, ◌≢◌, List, [], ◌∷◌, ◌++◌, none, some, ◌≡◌, refl, arith, take, drop, map, length,
}
use bget.Common.Bytes.{equal}
use bget.Common.Go.{ok, Returns}
use bget.Common.Int.{pos}
use bget.Bitmap.{must_get_bit, get_bit}
use bget.Filesystem.{Block}
use bget.Peer.Wire.{Bytes}
use bget.Peer.Message
use bget.Peer.Message.{Request, msg_request, msg_cancel}
use bget.Peer.Manager.{Peer, TaskState}
use bget.Peer.Manager.Handlers.{holds}
use bget.Peer.Manager.Blocks.{at_block}
use bget.Peer.Manager.Choke.{Loop, rechoke, addr_of}
use bget.Peer.Manager.Run.{Event, returned, run}
use bget.Peer.Manager.Rounds.{unchokes, chokes, rechoke_new, rechoke_kept}
use bget.Peer.Manager.Ends.{about, cancelled_read_ends_run}
use bget.Examples.Managers.{counting, over_disk, remote}

-- A stand-in for sort.Slice, and for SHA-1.
abbrev as_is : (Peer → Peer → Bool) → List Peer → List Peer
as_is before ps = ps

abbrev same : Bytes → Bytes
same b = b

-- All pieces are there, and the peer is unchoked.
abbrev seeding : Loop ℕ
seeding = record {
  m = record (over_disk 0) {
    unchoke = (b'h' ∷ []) ∷ [] ∷ [] ∷ [] ∷ [];
    finish = record { val = 255 ∷ 255 ∷ []; size = 16 };
  };
  peers = (b'h' ∷ [], remote) ∷ [];
  sent = [];
  answers = [];
  closing = Bool.false;
}

abbrev four_bytes : Block
four_bytes = record { index = 3; begin = 8; bytes = 1 ∷ 2 ∷ 3 ∷ 4 ∷ [] }

abbrev for_them : Request
for_them = at_block 3 (pos 8) (pos 4) 0

known : holds (b'h' ∷ []) seeding.m.unchoke ≡ true
unfolding equal
known = refl

finished : must_get_bit seeding.m.finish (pos 3) ≡ ok true
unfolding must_get_bit get_bit
finished = refl

cancelled_read_ends_run_example :
    Returns
      (run counting as_is same 100 some []
        (Event.message 1 0 (about msg_request remote.addr for_them)
          ∷ Event.message 2 0 (about msg_cancel remote.addr for_them)
          ∷ Event.read four_bytes
          ∷ [])
        seeding)
      (λ e.
        (e.1 ≡ some (returned none))
        × (e.0.m.state ≡ TaskState.running)
        × (e.0.closing ≡ seeding.closing))
unfolding equal
cancelled_read_ends_run_example =
    cancelled_read_ends_run counting as_is same 100 some [] 1 2 0 0 seeding remote for_them
      four_bytes refl refl known (omega arith) finished refl

abbrev at : ℕ → Peer
at a = record remote { addr = a ∷ [] }

abbrev four_peers : List (Bytes × Peer)
four_peers = (1 ∷ [], at 1) ∷ (2 ∷ [], at 2) ∷ (3 ∷ [], at 3) ∷ (4 ∷ [], at 4) ∷ []

abbrev slots : List Bytes
slots = (1 ∷ []) ∷ (2 ∷ []) ∷ (3 ∷ []) ∷ (4 ∷ []) ∷ []

rechoke_new_example : rechoke four_peers (at 5 ∷ at 6 ∷ []) slots ≡ (
  map addr_of (at 5 ∷ at 6 ∷ []) ++ drop (length (at 5 ∷ at 6 ∷ [])) slots,
  unchokes (at 5 ∷ at 6 ∷ []) ++ chokes four_peers (take (length (at 5 ∷ at 6 ∷ [])) slots),
)
unfolding equal
rechoke_new_example = rechoke_new four_peers (at 5 ∷ at 6 ∷ []) slots (refl, (refl, tt))

two_is_not_three : ◌≢◌ {A = Bytes} (2 ∷ []) (3 ∷ [])
two_is_not_three e = cc

two_is_not_four : ◌≢◌ {A = Bytes} (2 ∷ []) (4 ∷ [])
two_is_not_four e = cc

rechoke_kept_example : rechoke four_peers (at 2 ∷ at 5 ∷ at 6 ∷ at 7 ∷ []) slots ≡ (
  (2 ∷ []) ∷ (5 ∷ []) ∷ (6 ∷ []) ∷ (7 ∷ []) ∷ [],
  unchokes (at 5 ∷ at 6 ∷ at 7 ∷ [])
      ++ (3 ∷ [], Message.choke) ∷ (2 ∷ [], Message.choke) ∷ (3 ∷ [], Message.choke) ∷ [],
)
unfolding equal
rechoke_kept_example =
    rechoke_kept four_peers (1 ∷ []) (2 ∷ []) (3 ∷ []) (4 ∷ []) (at 2) (at 3) (at 5) (at 6) (at 7)
      two_is_not_three two_is_not_four refl refl refl refl (refl, (refl, (refl, tt)))
