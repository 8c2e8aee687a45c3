-- ===== src/Examples/Tasks.antt =====
-- A task whose only peer says that it is interested, and a torrent that no manager can be made for.
use bget.Common.{ℕ, ◌+◌, length, inl, inr, Bool, true, false, List, [], ◌∷◌, none, some, ◌≡◌, refl}
use bget.Common.Go.{ok, panic, Returns}
use bget.Common.Bytes.{equal}
use bget.Common.Int.{pos}
use bget.Bencode.Decoded.{atoi}
use bget.Peer.Wire.{Bytes}
use bget.Peer.Message.{msg_interest}
use bget.Common.Map.{lookup, string_eq}
use bget.Peer.Receive.{empty, recv_message}
use bget.Peer.Delivery.{Call, stream, received}
use bget.Peer.Manager.Shut.{shut, interest_ends_manager}
use bget.Peer.Manager.{Peer, TaskState, unknown_message}
use bget.Peer.Manager.Handlers.{handle_message}
use bget.Peer.Manager.Choke.{Loop}
use bget.Peer.Manager.Run.{Event, returned, run, step, close}
use bget.Task.Life.{Task, Stage, new_task, start, stop, add, get_file_list, start_task, stop_task}
use bget.Meta.Texts.{hash_string_inj}
use bget.Task.Faults.{add_nil_task, stop_after_error}
use bget.Examples.Managers.{counting, over_disk, remote}

abbrev in_order : (Peer → Peer → Bool) → List Peer → List Peer
in_order before ps = ps

abbrev no_hash : Bytes → Bytes
no_hash b = b

port_number : atoi (b'8' ∷ b'0' ∷ []) ≡ (pos 80, true)
unfolding atoi
port_number = refl

add_nil_task_example :
    let (tasks, r) =
      add counting in_order no_hash 100 some []
        (some ([], b'8' ∷ b'0' ∷ []))
        (some (b'x' ∷ [], λ ip p. new_task (b'x' ∷ []) [] none))
        [] in
    (r ≡ ok (b'x' ∷ []))
    × (get_file_list counting in_order no_hash 100 some [] (b'x' ∷ []) tasks ≡ panic)
    × (start_task counting in_order no_hash 100 some [] (b'x' ∷ []) [] tasks ≡ panic)
    × (stop_task counting in_order no_hash 100 some [] (b'x' ∷ []) tasks ≡ panic)
add_nil_task_example =
    add_nil_task counting in_order no_hash 100 some [] [] (b'8' ∷ b'0' ∷ []) (pos 80) (b'x' ∷ []) []
      [] [] port_number refl

abbrev one_peer : Loop ℕ
one_peer = record {
  m = over_disk 0;
  peers = (b'h' ∷ [], remote) ∷ [];
  sent = [];
  answers = [];
  closing = false;
}

abbrev new_one : Task ℕ
new_one = record {
  hash = b'x' ∷ [];
  files = [];
  loop = one_peer;
  looping = false;
  stage = Stage.state_init;
}

abbrev closed_loop : Loop ℕ
closed_loop = record one_peer {
  m = record (over_disk 0) { state = TaskState.init };
  peers = (b'h' ∷ [], record remote { closed = true }) ∷ [];
  closing = true;
}

abbrev says_interest : List (Event ℕ)
says_interest =
    Event.message 1 0 (record { peer_id = b'h' ∷ []; id = msg_interest; payload = empty }) ∷ []

ended :
    run counting in_order no_hash 100 some [] says_interest one_peer
    ≡ ok (closed_loop, some (returned (some unknown_message)))
unfolding run step close handle_message equal
ended = refl

stop_after_error_example :
    Returns
      (start counting in_order no_hash 100 some [] says_interest new_one)
      (λ t. stop counting in_order no_hash 100 some [] t ≡ panic)
stop_after_error_example =
    stop_after_error counting in_order no_hash 100 some [] says_interest new_one closed_loop
      unknown_message refl (tt, tt) ended

hash_string_inj_example : ◌≡◌ {A = Bytes} (10 ∷ 255 ∷ []) (10 ∷ 255 ∷ [])
hash_string_inj_example = hash_string_inj (10 ∷ 255 ∷ []) (10 ∷ 255 ∷ []) refl

remote_known : lookup (b'h' ∷ []) one_peer.peers ≡ some remote
unfolding equal
remote_known = refl

interest_ends_manager_example :
    (recv_message true
        (b'h' ∷ [])
        (λ k. k)
        (length (stream (Call.interest ∷ [])) + 1)
        0
        (stream (Call.interest ∷ []))
      ≡ received (b'h' ∷ []) 0 Call.interest ∷ [])
    × (run counting in_order no_hash 100 some []
          (Event.message 5 0 (received (b'h' ∷ []) 0 Call.interest) ∷ Event.choke_tick ∷ [])
          one_peer
        ≡ ok (
          shut counting in_order no_hash 100 some [] one_peer,
          some (returned (some unknown_message)),
        ))
interest_ends_manager_example =
    interest_ends_manager counting in_order no_hash 100 some [] true (λ k. k) 5 0 one_peer
      (b'h' ∷ []) remote Call.interest (Event.choke_tick ∷ []) (inl refl) remote_known refl
      (inr refl, tt) refl
