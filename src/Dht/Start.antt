-- ===== src/Dht/Start.antt =====
-- dht/node.go: `newNodeID` and `newNode`; dht/dht.go: `init`, `NewDHT`, `bootstrap` and `AddNode`.
use bget.Common.{
  ℕ, zero, suc, ◌+◌, ◌*◌, ◌^◌, ◌%◌, Bool, true, leb, ◌==◌, if◌then◌else◌, List, [], ◌∷◌, ◌++◌,
  Option, ◌≡◌, refl,
}
use bget.Common.Go.{Result, ok, err, panic, ◌>>=◌}
use bget.Common.State.{State, follow}
use bget.Dht.{Bytes, Node, NodeState, Table, new_table, node_id_len}
use bget.Dht.Rpc.{RpcError, network}
use bget.Dht.Calls.{Net, Decoding, Wire, find_node_from}

-- `rand.Intn(n)`, which panics unless n is positive; `draw` gives its number for a bound.
abbrev pub intn : (ℕ → ℕ) → ℕ → Result RpcError ℕ
intn draw n = if n == 0 then panic else ok (draw n % n)

-- The bytes from place `i` on.
unfoldable pub id_bytes : (ℕ → ℕ) → ℕ → ℕ → Result RpcError Bytes
id_bytes draw zero i = ok []
id_bytes draw (suc left) i = do
  b ← intn draw (i * 2 ^ 7)
  rest ← id_bytes draw left (i + 1)
  ok (b % 256 ∷ rest)

unfoldable pub new_node_id : (ℕ → ℕ) → Result RpcError Bytes
unfolding id_bytes
new_node_id draw = id_bytes draw node_id_len 0

-- `reach` says whether an address can be resolved and dialled.
unfoldable pub new_node : (Bytes → Bool) → Bytes → Bytes → Result RpcError Node
new_node reach id addr =
    if reach addr
    then ok (record { id = id; addr = addr; client = true; state = NodeState.idle })
    else err network

-- The loop of `init`, which leaves out the nodes that cannot be made.
unfoldable pub boot_nodes : (ℕ → ℕ) → (Bytes → Bool) → List Bytes → Result RpcError (List Node)
unfolding new_node_id new_node
boot_nodes draw reach [] = ok []
boot_nodes draw reach (a ∷ rest) = do
  id ← new_node_id draw
  later ← boot_nodes draw reach rest
  elim (new_node reach id a) [ ok n ↦ ok (n ∷ later) | err e ↦ ok later | panic ↦ panic ]

pub record Dht : Type 0 where
  pub own : Node
  pub table : Table
  pub boot_node : List Node

-- The loop over the given boot nodes; that over the default ones inside of it has no effect.
unfoldable pub more_boots : (ℕ → ℕ) → (Bytes → Bool) → List Bytes → Result RpcError (List Node)
unfolding new_node_id new_node
more_boots draw reach [] = ok []
more_boots draw reach (a ∷ rest) = do
  id ← new_node_id draw
  n ← new_node reach id a
  later ← more_boots draw reach rest
  ok (n ∷ later)

-- NewDHT up to the goroutines that ping the given nodes, and to `bootstrap`.
unfoldable pub new_dht :
    (ℕ → ℕ) → (Bytes → Bool) → List Node → Bytes → List Bytes → Result RpcError Dht
unfolding more_boots
new_dht draw reach default m boots = do
  id ← new_node_id draw
  own ← new_node reach id m
  more ← more_boots draw reach boots
  ok (record { own = own; table = new_table own; boot_node = default ++ more })

-- The nodes that AddNode sends to the channel `nodeCh`: none where one of them cannot be made.
unfoldable pub add_nodes : (ℕ → ℕ) → (Bytes → Bool) → List Bytes → Result RpcError (List Node)
unfolding more_boots
add_nodes draw reach addrs = elim (more_boots draw reach addrs) [
  | ok ns ↦ ok ns
  | err e ↦ ok []
  | panic ↦ panic
]

abbrev pub min_node_num : ℕ
min_node_num = 10

module _ (net : Net) (dec : Decoding) where
  -- The nodes that are found, which goroutines will ping. A boot node that fails is passed over.
  -- `tran_id` draws a transaction id for each call.
  unfoldable pub ask_boots :
      (ℕ → Bytes) → ℕ → Bytes → List Node → State (Wire net dec) RpcError (List (Option Node))
  ask_boots tran_id i own [] s = (s, ok [])
  ask_boots tran_id i own (n ∷ ns) s =
      let (s', r) = find_node_from net dec (tran_id i) own own n s in
      elim r [
        | panic ↦ (s', panic)
        | err e ↦ ask_boots tran_id (i + 1) own ns s'
        | ok found ↦
            follow (ask_boots tran_id (i + 1) own ns s') (λ rest t. (t, ok (found.1 ++ rest)))
      ]

  unfoldable pub bootstrap : (ℕ → Bytes) → Dht → State (Wire net dec) RpcError (List (Option Node))
  unfolding ask_boots
  bootstrap tran_id d s =
      if leb min_node_num d.table.count
      then (s, ok [])
      else ask_boots tran_id 0 d.own.id d.boot_node s

-- The bound of the first random byte of an id is 0, on which rand.Intn panics: whatever the random source
-- and the network, newNodeID panics, and with it the init of the package over any boot nodes, NewDHT, and
-- AddNode of any address.
pub new_node_id_panics :
    (draw : ℕ → ℕ) (reach : Bytes → Bool) (default : List Node) (m a : Bytes)
    (boots rest : List Bytes)
    → (new_node_id draw ≡ panic)
      × (boot_nodes draw reach (a ∷ rest) ≡ panic)
      × (new_dht draw reach default m boots ≡ panic)
      × (add_nodes draw reach (a ∷ rest) ≡ panic)
unfolding new_node_id boot_nodes new_dht add_nodes
new_node_id_panics draw reach default m a boots rest = (refl, refl, refl, refl)
