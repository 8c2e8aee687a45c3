-- ===== src/Peer/Manager/Choke.antt =====
-- peer/manager.go: the rounds that choose whom to unchoke, `updateUnchoke` and `optimUnchoke`, and `have`.
-- The order of an iteration over a map, which Go leaves open, is the list's.
use bget.Common.{
  ℕ, ◌+◌, ◌-◌, Bool, true, false, not, ◌&&◌, ltb, ◌==◌, if◌then◌else◌, List, [], ◌∷◌, ◌++◌, Option,
  none, some, length, take, drop, get_elem?, set, map, min,
}
use bget.Common.Bytes.{equal}
use bget.Common.Go.{Result, ok, err, ◌>>=◌}
use bget.Common.Map.{lookup, string_eq}
use bget.Peer.Wire.{Bytes}
use bget.Peer.Message
use bget.Peer.Message.{Outgoing}
use bget.Peer.Manager.{Manager, Peer, PeerState, HandlerError, fatal}
use bget.Peer.Manager.Handlers.{interested}

abbrev pub max_unchoke : ℕ
max_unchoke = 4

abbrev pub is_running : PeerState → Bool
is_running PeerState.running = true
is_running _ = false

abbrev pub is_init : PeerState → Bool
is_init PeerState.init = true
is_init _ = false

-- A message with the address of the peer that it goes to.
abbrev pub Sent : Type 0
Sent = List (Bytes × Outgoing)

-- The running peers among the keys of `interest`, and the keys that stay. An unknown key ends the process.
unfoldable pub gather :
    List (Bytes × Peer)
    → List (Bytes × Bool)
    → Result HandlerError (List Peer × List (Bytes × Bool))
gather peers [] = ok ([], [])
gather peers ((k, v) ∷ rest) = do
  later ← gather peers rest
  elim (lookup k peers) [
    | none ↦ err fatal
    | some p ↦ if is_running p.state then ok (p ∷ later.0, (k, v) ∷ later.1) else ok later
  ]

-- The last place of an address.
unfoldable pub last_place : Bytes → List Bytes → ℕ → Option ℕ → Option ℕ
last_place a [] i h = h
last_place a (v ∷ vs) i h = last_place a vs (i + 1) (if equal v a then some i else h)

-- copy(u[:h], u[:h]) and copy(u[:h], u[h + 1:]): the second runs as far as both slices reach.
abbrev pub shift : ℕ → List Bytes → List Bytes
shift h u = let m = min h (length u - (h + 1)) in take m (drop (h + 1) u) ++ drop m u

-- The array, the count `t` and what has been sent, over the peers that are to be unchoked.
unfoldable pub choose : List Peer → List Bytes → ℕ → Sent → List Bytes × ℕ × Sent
unfolding last_place
choose [] u t out = (u, t, out)
choose (p ∷ ps) u t out = elim (last_place p.addr u 0 none) [
  | none ↦ choose ps u t (out ++ (p.addr, Message.unchoke) ∷ [])
  | some h ↦ choose ps (shift h u) (t - 1) out
]

-- The peers at the first places of the array, where they are still known.
unfoldable pub choke_first : List (Bytes × Peer) → List Bytes → Sent → Sent
choke_first peers [] out = out
choke_first peers (a ∷ u) out =
    choke_first peers u
      (elim (lookup a peers) [ none ↦ out | some p ↦ out ++ (p.addr, Message.choke) ∷ [] ])

abbrev pub addr_of : Peer → Bytes
addr_of p = p.addr

-- After the peers are sorted: the first of them take the first places.
unfoldable pub rechoke : List (Bytes × Peer) → List Peer → List Bytes → List Bytes × Sent
unfolding choose choke_first
rechoke peers best u₀ =
    let (u, t, out) = choose best u₀ (length best) [] in
    (map addr_of best ++ drop (length best) u, choke_first peers (take t u) out)

-- The first peer that is neither the last of the array nor of interest ends the loop.
unfoldable pub optimistic :
    List (Bytes × Peer) → List (Bytes × Bool) → List Bytes → List Bytes × Sent
optimistic [] interest u = (u, [])
optimistic ((k, p) ∷ ps) interest u = elim (get_elem? u (max_unchoke - 1)) [
  | none ↦ (u, [])
  | some last ↦
      if not (equal k last) && not (interested (lookup k interest))
      then (if is_init p.state
          then (set u (max_unchoke - 1) k, (p.addr, Message.unchoke) ∷ [])
          else (u, []))
      else optimistic ps interest u
]

abbrev pub tell_each : Outgoing → List (Bytes × Peer) → Sent
tell_each o [] = []
tell_each o ((k, p) ∷ ps) = (p.addr, o) ∷ tell_each o ps

-- What GetStatus is answered.
pub record Status : Type 0 where
  pub peer_num : ℕ
  pub download : ℕ
  pub upload : ℕ
  pub left : ℕ

-- The state of the run loop: `closing` says that the channel of this name is closed.
pub record Loop (Disk : Type 0) : Type 0 where
  pub m : Manager Disk
  pub peers : List (Bytes × Peer)
  pub sent : Sent
  pub answers : List Status
  pub closing : Bool

module _ {Disk : Type 0} where
  -- `sort` is sort.Slice, with what it is given to compare.
  abbrev pub before : Manager Disk → Peer → Peer → Bool
  before m p q = if not (m.left == 0) then ltb q.download p.download else ltb q.upload p.upload

  unfoldable pub update_unchoke :
      ((Peer → Peer → Bool) → List Peer → List Peer) → Loop Disk → Result HandlerError (Loop Disk)
  unfolding gather rechoke
  update_unchoke sort l = do
    running ← gather l.peers l.m.interest
    let sorted = sort (before l.m) running.0
    let best = take (min (length sorted) max_unchoke) sorted
    let round = rechoke l.peers best l.m.unchoke
    ok (record l {
      m = record l.m { interest = running.1; unchoke = round.0 };
      sent = l.sent ++ round.1;
    })

  unfoldable pub optim_unchoke : Loop Disk → Loop Disk
  unfolding optimistic
  optim_unchoke l =
      let (u, out) = optimistic l.peers l.m.interest l.m.unchoke in
      record l { m = record l.m { unchoke = u }; sent = l.sent ++ out }

  unfoldable pub have : ℕ → Loop Disk → Loop Disk
  have i l = record l { sent = l.sent ++ tell_each (Message.have i) l.peers }
