-- ===== src/Dht.antt =====
-- dht/table.go and dht/node.go: the table of the known nodes, by their distance from this one.
-- The goroutine that runs the tasks of a bucket is left out; the calls of a node are in a child.
use bget.Common.{
  ℕ, zero, suc, ◌+◌, ◌-◌, ◌*◌, ◌/◌, ◌%◌, ◌^◌, Bool, false, not, ◌&&◌, ◌||◌, ltb, leb, ◌==◌,
  if◌then◌else◌, bit_xor, bit_and, List, [], ◌∷◌, ◌++◌, Option, none, some, length, set, take, drop,
  get_elem?, replicate,
}
use bget.Common.Bytes.{equal}
use bget.Common.Go.{Result, ok, err, panic, ◌>>=◌}
use bget.Common.Int.{ℤ, pos, negsuc, ◌+ℤ◌, ltb_ℤ}
use bget.Common.Map.{lookup, insert, nat_eq}
use bget.Utils.{AddrError, parse_ipv4_addr}
pub mod Crowd
pub mod Endless
pub mod Rpc
pub mod Calls
pub mod Deaf
pub mod Checks
pub mod Start
pub mod Errors

abbrev pub Bytes : Type 0
Bytes = List ℕ

abbrev pub node_id_len : ℕ
node_id_len = 20

abbrev pub bucket_num : ℕ
bucket_num = node_id_len * 8

-- `unset` is the 0 of a node that is not made by newNode: stateIdle is 7.
pub data NodeState : Type 0 where
  unset idle good questionable bad unknown : NodeState

-- `client` says that `cli` is not nil.
pub record Node : Type 0 where
  pub id : Bytes
  pub addr : Bytes
  pub client : Bool
  pub state : NodeState

pub data NodeError : Type 0 where
  bucket_full not_in_range no_split no_match : NodeError

unfoldable pub is_zero : Bytes → Bool
is_zero id = equal id (replicate node_id_len 0)

-- The bits of one byte of the exclusive or, from bit `j` on.
unfoldable pub ones : ℕ → ℕ → ℕ → ℕ
ones zero j v = 0
ones (suc left) j v = (if bit_and v (2 ^ j) == 0 then 0 else 1) + ones left (j + 1) v

-- Both ids are arrays of twenty bytes.
unfoldable pub distance : Bytes → Bytes → ℕ
unfolding ones
distance (x ∷ xs) (y ∷ ys) = ones 8 0 (bit_xor x y) + distance xs ys
distance _ _ = 0

-- The node after the check, which takes over the id where it had none.
unfoldable pub check_id : Node → Option Bytes → Result NodeError Node
check_id n none = err no_match
check_id n (some id) =
    if is_zero id
    then err no_match
    else if is_zero n.id
    then ok (record n { id = id })
    else if not (equal n.id id)
    then err no_match
    else ok n

-- `none` is a nil node.
unfoldable pub uncompress_node : Bytes → Result AddrError (Option Node)
uncompress_node bytes = if length bytes == 0 || not (length bytes == 26) then ok none else do
  addr ← parse_ipv4_addr (drop node_id_len bytes)
  ok (some record { id = take node_id_len bytes; addr = addr; client = false; state = unset })

-- The loop; the slice starts with a nil for every node, and the nodes are appended behind them.
unfoldable pub uncompress_each :
    ℕ → Bytes → List (Option Node) → Result AddrError (List (Option Node))
uncompress_each zero bytes nodes = ok nodes
uncompress_each (suc n) bytes nodes =
    let later = uncompress_each n (drop 26 bytes) in
    (uncompress_node (take 26 bytes) >>= λ node. later (nodes ++ node ∷ []))

unfoldable pub uncompress_nodes : Bytes → Result AddrError (List (Option Node))
unfolding uncompress_each
uncompress_nodes bytes =
    if length bytes == 0 || not (length bytes % 26 == 0)
    then ok []
    else uncompress_each (length bytes / 26) bytes (replicate (length bytes / 26) none)

-- A map from the distances to the nodes.
pub record Bucket : Type 0 where
  pub nodes : List (ℕ × List Node)
  pub count : ℕ
  pub begin : ℕ
  pub end : ℕ

unfoldable pub new_bucket : ℕ → ℕ → Bucket
new_bucket begin end = record { nodes = []; count = 0; begin = begin; end = end }

unfoldable pub full : Bucket → Bool
full b = b.count == bucket_num

abbrev pub at_distance : Option (List Node) → List Node
at_distance none = []
at_distance (some ns) = ns

unfoldable pub add_node : Bucket → ℕ → Node → Result NodeError Bucket
unfolding full
add_node b d n =
    if full b
    then err bucket_full
    else if ltb d b.begin || ltb b.end d
    then err not_in_range
    else ok (record b {
      nodes = insert d (at_distance (lookup d b.nodes) ++ n ∷ []) b.nodes;
      count = b.count + 1;
    })

-- `2 << uint(i)` in an int of 64 bits.
abbrev pub shifted : ℕ → ℤ
shifted i = if ltb i 62 then pos (2 ^ (i + 1)) else if i == 62 then negsuc (2 ^ 63 - 1) else pos 0

-- The room for nodes at the distances from `i` on, with `left` of them to go; the loop stops early.
unfoldable pub room : ℕ → ℕ → ℤ → ℤ
room zero i max = max
room (suc left) i max =
    let later = room left (i + 1) in
    if ltb_ℤ max (pos bucket_num) then later (max +ℤ shifted i) else max

abbrev pub or_same : Result NodeError Bucket → Bucket → Bucket
or_same (ok b) old = b
or_same _ old = old

-- nb.addNode(d, n) for the nodes at one distance, without its errors.
unfoldable pub add_each : Bucket → ℕ → List Node → Bucket
add_each b d [] = b
add_each b d (n ∷ ns) = add_each (or_same (add_node b d n) b) d ns

-- The range over the map; its order does not show in a map that has room for every node.
unfoldable pub move_above : ℕ → List (ℕ × List Node) → Bucket → Bucket
move_above limit [] nb = nb
move_above limit ((d, ns) ∷ rest) nb =
    let later = move_above limit rest in if ltb limit d then later (add_each nb d ns) else later nb

-- The bucket as the call leaves it, with the new one: the nodes that are copied stay in the old one,
-- and its count as it was.
unfoldable pub split : Bucket → Result NodeError (Bucket × Bucket)
unfolding room move_above add_each new_bucket
split b =
    if ltb_ℤ (room (b.end + 1 - b.begin) b.begin (pos 0)) (pos bucket_num)
    then err no_split
    else ok (
      record b { end = b.end / 2 },
      move_above (b.end / 2) b.nodes (new_bucket (b.end / 2) b.end),
    )

pub record Table : Type 0 where
  pub own : Node
  pub count : ℕ
  pub buckets : List Bucket

unfoldable pub new_table : Node → Table
new_table own = record {
  own = own;
  count = 0;
  buckets = or_same (add_node (new_bucket 0 160) 0 own) (new_bucket 0 160) ∷ [];
}

-- The place of the first bucket for a distance; `none` is nil.
unfoldable pub find_bucket : List Bucket → ℕ → Option ℕ
find_bucket [] d = none
find_bucket (b ∷ bs) d =
    let later = find_bucket bs d in
    if leb b.begin d && leb d b.end
    then some 0
    else elim later [ none ↦ none | some i ↦ some (i + 1) ]

-- The loop of addNode with a bound on its rounds: `none` while it is still running. A nil bucket
-- panics.
unfoldable pub add_rounds : ℕ → Table → ℕ → Node → Option (Result NodeError Table)
unfolding full
add_rounds zero t d n = none
add_rounds (suc fuel) t d n =
    let again = add_rounds fuel in
    elim (find_bucket t.buckets d) [
      | none ↦ some panic
      | some i ↦ elim (get_elem? t.buckets i) [
        | none ↦ some panic
        | some b ↦
            if full b
            then elim (split b) [
              | ok two ↦ again (record t { buckets = set t.buckets i two.0 ++ two.1 ∷ [] }) d n
              | err e ↦ some (ok t)
              | panic ↦ some panic
            ]
            else some (
                ok (record t {
                  buckets = set t.buckets i (or_same (add_node b d n) b);
                  count = t.count + 1;
                }))
      ]
    ]

unfoldable pub table_add_node : ℕ → Table → Node → Option (Result NodeError Table)
unfolding add_rounds distance
table_add_node fuel t n = add_rounds fuel t (distance t.own.id n.id) n
