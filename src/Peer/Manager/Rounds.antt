-- ===== src/Peer/Manager/Rounds.antt =====
-- Whom a round of `updateUnchoke` unchokes and chokes.
use bget.Common.{
  ℕ, ◌+◌, ◌-◌, ◌≢◌, false, List, [], ◌∷◌, ◌++◌, Option, none, some, length, take, drop, map, ◌≡◌,
  refl, arith, ap, ◌∙◌, sym, append_assoc, append-nil, All,
}
use bget.Common.Bytes.{equal_refl, equal_ne}
use bget.Common.Map.{lookup, string_eq}
use bget.Peer.Wire.{Bytes}
use bget.Peer.Message
use bget.Peer.Message.{Outgoing}
use bget.Peer.Manager.{Peer}
use bget.Peer.Manager.Handlers.{holds}
use bget.Peer.Manager.Choke.{Sent, last_place, shift, choose, choke_first, rechoke, addr_of}

abbrev pub unchokes : List Peer → Sent
unchokes [] = []
unchokes (p ∷ ps) = (p.addr, Message.unchoke) ∷ unchokes ps

-- The known ones of some addresses, under the addresses of their peers.
abbrev pub chokes : List (Bytes × Peer) → List Bytes → Sent
chokes peers [] = []
chokes peers (a ∷ u) = elim (lookup a peers) [
  | none ↦ chokes peers u
  | some p ↦ (p.addr, Message.choke) ∷ chokes peers u
]

last_place_missing :
    (a : Bytes) (u : List Bytes) (i : ℕ) (h : Option ℕ) → holds a u ≡ false → last_place a u i h ≡ h
unfolding last_place
last_place_missing a [] i h e = refl
last_place_missing a (v ∷ u) i h e = ground (arith, last_place_missing a u (i + 1) h)

abbrev pub Apart : List Bytes → Peer → Type 0
Apart u p = holds p.addr u ≡ false

choose_new :
    (p : Peer) (ps : List Peer) (u : List Bytes) (t : ℕ) (out : Sent)
    → last_place p.addr u 0 none ≡ none
    → choose (p ∷ ps) u t out ≡ choose ps u t (out ++ (p.addr, Message.unchoke) ∷ [])
unfolding choose
choose_new p ps u t out e = ground arith

choose_kept :
    (p : Peer) (ps : List Peer) (u : List Bytes) (t h : ℕ) (out : Sent)
    → last_place p.addr u 0 none ≡ some h
    → choose (p ∷ ps) u t out ≡ choose ps (shift h u) (t - 1) out
unfolding choose
choose_kept p ps u t h out e = ground arith

choose-Apart :
    (ps : List Peer) (u : List Bytes) (t : ℕ) (out : Sent)
    → All (Apart u) ps
    → choose ps u t out ≡ (u, t, out ++ unchokes ps)
unfolding choose
choose-Apart [] u t out h = rw (append-nil out) refl
choose-Apart (p ∷ ps) u t out h =
    choose_new p ps u t out (last_place_missing p.addr u 0 none h.0)
    ∙ (choose-Apart ps u t (out ++ (p.addr, Message.unchoke) ∷ []) h.1
        ∙ ap (λ (o : Sent). (u, t, o))
            (append_assoc out ((p.addr, Message.unchoke) ∷ []) (unchokes ps)))

choke_first-chokes :
    (peers : List (Bytes × Peer)) (u : List Bytes) (out : Sent)
    → choke_first peers u out ≡ out ++ chokes peers u
unfolding choke_first
choke_first-chokes peers [] out = sym (append-nil out)
choke_first-chokes peers (a ∷ u) out = by_peer (lookup a peers) (choke_first-chokes peers u)
  where
    by_peer :
        (o : Option Peer)
        → ((out : Sent) → choke_first peers u out ≡ out ++ chokes peers u)
        → choke_first peers u (elim o [ none ↦ out | some p ↦ out ++ (p.addr, Message.choke) ∷ [] ])
          ≡ out
            ++ elim o [ none ↦ chokes peers u | some p ↦ (p.addr, Message.choke) ∷ chokes peers u ]
    by_peer none ih = ih out
    by_peer (some p) ih =
        ih (out ++ (p.addr, Message.choke) ∷ [])
        ∙ append_assoc out ((p.addr, Message.choke) ∷ []) (chokes peers u)

-- Where none of the best peers is in the array, each of them is told that it is unchoked and takes one
-- of the first places, the peers that held these places are choked where they are known, and the other
-- places stay.
pub rechoke_new :
    (peers : List (Bytes × Peer)) (best : List Peer) (u : List Bytes)
    → All (Apart u) best
    → rechoke peers best u ≡ (
      map addr_of best ++ drop (length best) u,
      unchokes best ++ chokes peers (take (length best) u),
    )
unfolding rechoke
rechoke_new peers best u h = rw (choose-Apart best u (length best) [] h) (
    ap (λ (o : Sent). (map addr_of best ++ drop (length best) u, o))
      (choke_first-chokes peers (take (length best) u) (unchokes best)))

second_place : (a b c d : Bytes) → b ≢ c → b ≢ d → last_place b (a ∷ b ∷ c ∷ d ∷ []) 0 none ≡ some 1
unfolding last_place
second_place a b c d bc bd =
    rw (equal_refl b, equal_ne c b (λ e. bc (sym e)), equal_ne d b (λ e. bd (sym e))) refl

chokes_known :
    (peers : List (Bytes × Peer)) (a : Bytes) (u : List Bytes) (p : Peer)
    → p.addr ≡ a
    → lookup a peers ≡ some p
    → chokes peers (a ∷ u) ≡ (a, Message.choke) ∷ chokes peers u
chokes_known peers a u p e k = ground arith

chokes_three :
    (peers : List (Bytes × Peer)) (b c : Bytes) (pb pc : Peer)
    → pb.addr ≡ b
    → lookup b peers ≡ some pb
    → pc.addr ≡ c
    → lookup c peers ≡ some pc
    → chokes peers (c ∷ b ∷ c ∷ [])
      ≡ (c, Message.choke) ∷ (b, Message.choke) ∷ (c, Message.choke) ∷ []
chokes_three peers b c pb pc eb kb ec kc =
    chokes_known peers c (b ∷ c ∷ []) pc ec kc
    ∙ ap (◌∷◌ (c, Message.choke)) (
        chokes_known peers b (c ∷ []) pb eb kb
        ∙ ap (◌∷◌ (b, Message.choke)) (chokes_known peers c [] pc ec kc))

-- Of four peers that are unchoked the one in the second place is the first of the sorted list, and the
-- three behind it in this list are new. The round keeps it in the array and chokes it all the same,
-- chokes the peer of the third place twice, and does not choke the peer of the first place, which leaves
-- the array.
pub rechoke_kept :
    (peers : List (Bytes × Peer)) (a b c d : Bytes) (pb pc x y z : Peer)
    → b ≢ c
    → b ≢ d
    → pb.addr ≡ b
    → lookup b peers ≡ some pb
    → pc.addr ≡ c
    → lookup c peers ≡ some pc
    → All (Apart (c ∷ b ∷ c ∷ d ∷ [])) (x ∷ y ∷ z ∷ [])
    → rechoke peers (pb ∷ x ∷ y ∷ z ∷ []) (a ∷ b ∷ c ∷ d ∷ []) ≡ (
      b ∷ x.addr ∷ y.addr ∷ z.addr ∷ [],
      unchokes (x ∷ y ∷ z ∷ [])
          ++ (c, Message.choke) ∷ (b, Message.choke) ∷ (c, Message.choke) ∷ [],
    )
unfolding rechoke
rechoke_kept peers a b c d pb pc x y z bc bd eb kb ec kc h =
    let u = c ∷ b ∷ c ∷ d ∷ [] in
    let found : last_place pb.addr (a ∷ b ∷ c ∷ d ∷ []) 0 none ≡ some 1 =
      rw eb (second_place a b c d bc bd) in
    rw
      (
        choose_kept pb (x ∷ y ∷ z ∷ []) (a ∷ b ∷ c ∷ d ∷ []) 4 1 [] found,
        choose-Apart (x ∷ y ∷ z ∷ []) u 3 [] h,
        eb,
        choke_first-chokes peers (c ∷ b ∷ c ∷ []) (unchokes (x ∷ y ∷ z ∷ [])),
        chokes_three peers b c pb pc eb kb ec kc,
      )
      refl
