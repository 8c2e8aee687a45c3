-- ===== src/Examples/Queries.antt =====
-- Queries of the DHT over a connection that brings an answer.
use bget.Common.{
  length, ◌<◌, ◌^◌, arith, ℕ, true, List, [], ◌∷◌, none, some, replicate, All, ◌≡◌, refl,
}
use bget.Common.Go.{ok, panic}
use bget.Common.Int.{pos}
use bget.Dht.{Bytes, Node, NodeState}
use bget.Dht.Calls.{Net, Decoding, Wire, ping, find_node, get_peers, announce_peer}
use bget.Dht.Deaf.{Zeroed, Unanswered, calls-Unanswered}
use bget.Dht.Checks.{checks, lowered, check_status_repeated}
use bget.Common.Decimal.{decimal, decimal_int}
use bget.Bencode.Encode.{marshal}
use bget.Bencode.Decode.{unmarshal}
use bget.Bencode.Plain.{code}
use bget.Dht.Rpc.{error_value}
use bget.Dht.Errors.{as_written, unmarshal_error, unmarshal_error-error_value}
use bget.Dht.Start.{new_node_id, boot_nodes, new_dht, add_nodes, new_node_id_panics}

-- Every write succeeds, and a read brings a whole message and the end of the stream.
abbrev prompt : Net
prompt = record {
  World = ℕ;
  write = λ w b. (w, true);
  read_all = λ w. (w, b'd' ∷ b'e' ∷ [], true);
  stop_timer = λ w. (w, true);
  redial = λ w. w;
}

abbrev kind : Decoding
kind = record {
  response = λ b. some (record { trans_id = 1 ∷ 2 ∷ []; describe = b'r' ∷ []; body = b });
  id_body = λ b. some (some (replicate 20 7));
  nodes_body = λ b. some (record { id = none; nodes = [] });
  peers_body = λ b. some (record { id = none; token = []; values = []; nodes = [] });
}

abbrev idle_wire : Wire prompt kind
idle_wire = record { world = 0; pool = [] }

abbrev own_id : Bytes
own_id = replicate 20 3

calls-Unanswered_example :
    Unanswered prompt kind (ping prompt kind (1 ∷ 2 ∷ []) own_id idle_wire)
    × Unanswered prompt kind (find_node prompt kind (1 ∷ 2 ∷ []) own_id own_id idle_wire)
    × Unanswered prompt kind (get_peers prompt kind (1 ∷ 2 ∷ []) own_id own_id idle_wire)
    × Unanswered prompt kind
        (announce_peer prompt kind (1 ∷ 2 ∷ []) own_id (some (pos 6881)) own_id [] idle_wire)
calls-Unanswered_example =
    calls-Unanswered prompt kind (1 ∷ 2 ∷ []) own_id own_id own_id [] (pos 6881) idle_wire tt

abbrev good_node : Node
good_node = record { id = replicate 20 7; addr = []; client = true; state = NodeState.good }

abbrev two_ids : List Bytes
two_ids = (1 ∷ 2 ∷ []) ∷ (3 ∷ 4 ∷ []) ∷ []

check_status_repeated_example :
    All Zeroed (checks prompt kind own_id two_ids good_node idle_wire).0.pool
    × ((checks prompt kind own_id two_ids good_node idle_wire).1
        ≡ ok (record good_node { state = lowered 2 NodeState.good }))
check_status_repeated_example =
    check_status_repeated prompt kind own_id two_ids good_node idle_wire refl tt

new_node_id_panics_example :
    (new_node_id (λ n. 4) ≡ panic)
    × (boot_nodes (λ n. 4) (λ a. true) ((b'r' ∷ []) ∷ []) ≡ panic)
    × (new_dht (λ n. 4) (λ a. true) [] (b'm' ∷ []) [] ≡ panic)
    × (add_nodes (λ n. 4) (λ a. true) ((b'r' ∷ []) ∷ []) ≡ panic)
new_node_id_panics_example =
    new_node_id_panics (λ n. 4) (λ a. true) [] (b'm' ∷ []) (b'r' ∷ []) [] []

abbrev no_peers : Bytes
no_peers = b'n' ∷ b'o' ∷ []

short_error : length (code (as_written (pos 201) no_peers)) < 2 ^ 63
unfolding code decimal decimal_int
short_error = omega arith

unmarshal_error-error_value_example :
    (input : Bytes) × (marshal (error_value (pos 201) no_peers) ≡ ok input)
    × (unmarshal input ≡ ok (some (as_written (pos 201) no_peers)))
    × (unmarshal_error input ≡ none)
unmarshal_error-error_value_example =
    unmarshal_error-error_value (pos 201) no_peers (omega arith) short_error
