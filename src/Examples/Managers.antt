-- ===== src/Examples/Managers.antt =====
-- The theorems on the manager at one torrent of sixteen pieces and one peer.
use bget.Common.{ℕ, ◌+◌, ◌*◌, ◌≤◌, true, false, List, [], ◌∷◌, ◌≡◌, refl, arith, length}
use bget.Common.Bytes.{equal}
use bget.Common.Go.{Result, ok, err, panic}
use bget.Common.Int.{pos}
use bget.Bitmap.{Bitmap, and_bitmap, must_count_bit_on, count_bit_on, must_get_bit, get_bit}
use bget.Peer.Message.{Request, msg_have, msg_choke, msg_unchoke}
use bget.Peer.Receive.{MessageWithId, index, empty}
use bget.Peer.Manager.{Manager, Peer, PeerState, TaskState, Session, Storage, HandlerError}
use bget.Peer.Manager.Requests.{is_interest, select_piece, request_piece}
use bget.Peer.Manager.Handlers.{
  hash, serve, handle_message, handle_unchoke, handle_choke, ask_any, handle_req, handle_have,
  handle_suggest_piece,
}
use bget.Peer.Manager.Once.{count_requests}
use bget.Peer.Manager.OnceHandlers.{serve-Once}
use bget.Common.Decimal.{decimal}
use bget.Peer.Manager.Blocks.{at_block, hash_collision}
use bget.Peer.Manager.Faults.{piece_num_panics}

-- A storage that counts the bytes and takes every block.
abbrev pub counting : Storage
counting = record { Disk = ℕ; save_piece = λ d i b bytes. (d + length bytes, ok (length bytes)) }

abbrev nothing : Bitmap
nothing = record { val = 0 ∷ 0 ∷ []; size = 16 }

abbrev pub remote : Peer
remote = record {
  id = b'i' ∷ [];
  addr = b'h' ∷ [];
  fast_extension = true;
  is_interest = false;
  is_choke = false;
  fast_set = [];
  state = PeerState.running;
  bitmap = nothing;
  closed = false;
  download = 0;
  upload = 0;
  have_req = false;
}

abbrev pub over_disk : {Disk : Type 0} → Disk → Manager Disk
over_disk d = record {
  unchoke = [];
  interest = [];
  disk = d;
  requests = [];
  reject_request = [];
  peer_request = [];
  piece_num = 16;
  piece_length = 65536;
  download = 0;
  upload = 0;
  left = 1048576;
  state = TaskState.running;
  need = record { val = 255 ∷ 255 ∷ []; size = 16 };
  finish = nothing;
  memory = [];
  reads = [];
}

abbrev local : Manager ℕ
local = over_disk 0

abbrev session : Session ℕ
session = record { m = local; p = remote; out = [] }

abbrev have_message : ℕ → MessageWithId
have_message i = record { peer_id = b'h' ∷ []; id = msg_have; payload = index i }

two_digits : decimal 16384 ≡ (b'0' + 1) ∷ decimal 6384
unfolding decimal
two_digits = refl

hash_collision_example :
    hash (at_block (3 * 10 + 1) (pos 6384) (pos 7) 9) ≡ hash (at_block 3 (pos 16384) (pos 7) 9)
hash_collision_example = hash_collision 3 1 6384 16384 7 9 (omega arith) (omega arith) two_digits

abbrev beyond : Request
beyond = at_block 16 (pos 0) (pos 16384) 9

piece_num_panics_example :
    (handle_req counting session beyond ≡ panic)
    × (handle_have counting 5 16 session ≡ panic)
    × (handle_suggest_piece counting 5 16 session ≡ panic)
piece_num_panics_example = piece_num_panics counting 5 session beyond refl refl refl refl refl refl

abbrev seeder : Session ℕ
seeder = record session {
  p = record remote { bitmap = record { val = 255 ∷ 255 ∷ []; size = 16 } };
}

abbrev plain : ℕ → MessageWithId
plain i = record { peer_id = b'h' ∷ []; id = i; payload = empty }

abbrev outcome : Result HandlerError (Session ℕ) → Session ℕ
outcome (ok s) = s
outcome (err e) = session
outcome panic = session

abbrev talk : List (ℕ × ℕ × MessageWithId)
talk = (5, 3, plain msg_unchoke) ∷ (6, 1, plain msg_choke) ∷ (7, 2, plain msg_unchoke) ∷ []

abbrev served : Session ℕ
served = outcome (serve counting talk seeder)

served_lem : serve counting talk seeder ≡ ok served
unfolding serve handle_message handle_unchoke is_interest and_bitmap must_count_bit_on handle_choke
    select_piece request_piece ask_any count_bit_on must_get_bit get_bit equal
served_lem = refl

serve-Once_example : count_requests served.out ≤ 1
serve-Once_example = serve-Once counting talk seeder served (omega arith) served_lem
