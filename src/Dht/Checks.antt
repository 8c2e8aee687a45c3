-- ===== src/Dht/Checks.antt =====
-- dht/node.go: checkStatus of one node, again and again.
use bget.Common.{ℕ, zero, suc, true, List, [], ◌∷◌, length, ◌≡◌, refl, arith, All}
use bget.Common.Go.{Result, ok, err, panic}
use bget.Common.State.{follow}
use bget.Dht.{Bytes, Node, NodeState}
use bget.Dht.Rpc.{RpcError}
use bget.Dht.Calls.{Net, Decoding, Wire, check_status, demoted}
use bget.Dht.Deaf.{Zeroed, check_status-demoted}

-- The state of a node after a number of checks that failed.
abbrev pub lowered : ℕ → NodeState → NodeState
lowered zero s = s
lowered (suc k) NodeState.unset = NodeState.unset
lowered (suc k) NodeState.idle = NodeState.idle
lowered (suc zero) NodeState.good = NodeState.questionable
lowered (suc (suc k)) NodeState.good = NodeState.bad
lowered (suc k) _ = NodeState.bad

lowered-demoted : (k : ℕ) (s : NodeState) → lowered (suc k) s ≡ lowered k (demoted s)
unfolding demoted
lowered-demoted zero s = ground arith
lowered-demoted (suc zero) s = ground arith
lowered-demoted (suc (suc k)) s = ground arith

module _ (net : Net) (dec : Decoding) where
  -- checkStatus of one node again and again, with an id for each query.
  abbrev pub checks : Bytes → List Bytes → Node → Wire net dec → Wire net dec × Result RpcError Node
  checks own [] n s = (s, ok n)
  checks own (t ∷ ts) n s = follow (check_status net dec t own n s) (checks own ts)

  -- On any connection, and with any decoding of valid messages, where the buffers in the pool start with a
  -- zero byte, any number of runs of checkStatus of one node with a client, one after the other, returns
  -- no error, and changes nothing of the node but its state. With one run a good node is questionable,
  -- with more it is bad; a questionable node and one in stateUnkown are bad with the first run. The other
  -- states stay. So after one run or more the node never is good.
  pub check_status_repeated :
      (own : Bytes) (ts : List Bytes) (n : Node) (s : Wire net dec)
      → n.client ≡ true
      → All Zeroed s.pool
      → All Zeroed (checks own ts n s).0.pool
        × ((checks own ts n s).1 ≡ ok (record n { state = lowered (length ts) n.state }))
  check_status_repeated own [] n s c h = (h, refl)
  check_status_repeated own (t ∷ ts) n s c h =
      rest (check_status net dec t own n s) (check_status-demoted net dec t own n s c h)
        (check_status_repeated own ts (record n { state = demoted n.state }))
    where
      rest :
          (r : Wire net dec × Result RpcError Node)
          → All Zeroed r.0.pool × (r.1 ≡ ok (record n { state = demoted n.state }))
          → ((w : Wire net dec)
              → n.client ≡ true
              → All Zeroed w.pool
              → All Zeroed (checks own ts (record n { state = demoted n.state }) w).0.pool
                × ((checks own ts (record n { state = demoted n.state }) w).1
                    ≡ ok (record n { state = lowered (length ts) (demoted n.state) })))
          → All Zeroed (follow r (checks own ts)).0.pool
            × ((follow r (checks own ts)).1
                ≡ ok (record n { state = lowered (suc (length ts)) n.state }))
      rest (w, ok m) (z, e) ih =
          let same : m ≡ record n { state = demoted n.state } = cc in
          rw (same, lowered-demoted (length ts) n.state) (ih w c z)
      rest (w, err x) (z, e) ih = absurd (cc)
      rest (w, panic) (z, e) ih = absurd (cc)
