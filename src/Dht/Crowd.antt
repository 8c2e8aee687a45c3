-- ===== src/Dht/Crowd.antt =====
-- Buckets whose nodes all lie above their lower end, and what split makes of them.
use bget.Common.{
  ℕ, suc, ◌+◌, ◌-◌, ◌/◌, ◌<◌, ◌≤◌, true, false, ◌||◌, ltb, ◌==◌, List, [], ◌∷◌, ◌++◌, length,
  length-append, All, ◌≡◌, refl, sym, arith, ap, ap₂, ◌∙◌, inl, inr, Bool-cases,
}
use mathlib.Core.Path.{subst}
use bget.Common.Go.{ok}
use bget.Common.Int.{pos, ltb_ℤ}
use bget.Common.Map.{lookup, insert, nat_eq}
use bget.Dht.{
  Node, Bucket, bucket_num, new_bucket, full, add_node, at_distance, add_each, or_same, move_above,
  room, split,
}

abbrev pub total : List (ℕ × List Node) → ℕ
total [] = 0
total ((d, ns) ∷ m) = length ns + total m

abbrev pub InRange : ℕ → ℕ → ℕ × List Node → Type 0
InRange low high (d, ns) = (low < d) × (d ≤ high)

-- A bucket from `low` to `high` with `k` nodes, all above `low`.
abbrev pub Holds : ℕ → ℕ → ℕ → Bucket → Type 0
Holds low high k b =
    (b.begin ≡ low)
    × (b.end ≡ high)
    × All (InRange low high) b.nodes
    × (total b.nodes ≡ k)
    × (b.count ≡ k)

lookup-later :
    (j d : ℕ) (ns : List Node) (m : List (ℕ × List Node))
    → (j == d) ≡ false
    → lookup d ((j, ns) ∷ m) ≡ lookup d m
lookup-later j d ns m h = rw h

insert-later :
    (j d : ℕ) (ns v : List Node) (m : List (ℕ × List Node))
    → (j == d) ≡ false
    → insert d v ((j, ns) ∷ m) ≡ (j, ns) ∷ insert d v m
insert-later j d ns v m h = rw h

total-insert :
    (d : ℕ) (n : Node) (m : List (ℕ × List Node))
    → total (insert d (at_distance (lookup d m) ++ n ∷ []) m) ≡ suc (total m)
total-insert d n [] = omega arith
total-insert d n ((j, ns) ∷ m) = elim (Bool-cases (j == d)) [
  | inl h ↦ rw h (omega (arith, length-append ns (n ∷ [])))
  | inr h ↦
      ap (λ o. total (insert d (at_distance o ++ n ∷ []) ((j, ns) ∷ m))) (lookup-later j d ns m h)
      ∙ ap total (insert-later j d ns (at_distance (lookup d m) ++ n ∷ []) m h)
      ∙ omega (arith, total-insert d n m)
]

InRange-insert :
    (low high d : ℕ) (ns : List Node) (m : List (ℕ × List Node))
    → low < d
    → d ≤ high
    → All (InRange low high) m
    → All (InRange low high) (insert d ns m)
InRange-insert low high d ns [] lt le h = ((lt, le), tt)
InRange-insert low high d ns ((j, w) ∷ m) lt le h = elim (Bool-cases (j == d)) [
  | inl e ↦ rw e ((lt, le), h.1)
  | inr e ↦ rw e (h.0, InRange-insert low high d ns m lt le h.1)
]

Holds-add_node :
    (low high k d : ℕ) (b : Bucket) (n : Node)
    → Holds low high k b
    → k < bucket_num
    → low < d
    → d ≤ high
    → Holds low high (suc k) (or_same (add_node b d n) b)
unfolding add_node
Holds-add_node low high k d b n h room_left lt le =
    let space : full b ≡ false = ground (arith, h.4) in
    let inside : (ltb d b.begin || ltb b.end d) ≡ false = ground (arith, h.0, h.1) in
    rw (space, inside)
      (
        h.0,
        h.1,
        InRange-insert low high d _ b.nodes lt le h.2,
        total-insert d n b.nodes ∙ ap suc h.3,
        omega (arith, h.4),
      )

Holds-add_each :
    (low high k d : ℕ) (b : Bucket) (ns : List Node)
    → Holds low high k b
    → k + length ns ≤ bucket_num
    → low < d
    → d ≤ high
    → Holds low high (k + length ns) (add_each b d ns)
unfolding add_each
Holds-add_each low high k d b [] h le lt top = subst (λ i. Holds low high i b) (omega arith) h
Holds-add_each low high k d b (n ∷ ns) h le lt top =
    subst (λ i. Holds low high i (add_each (or_same (add_node b d n) b) d ns)) (omega arith)
      (Holds-add_each low high (suc k) d (or_same (add_node b d n) b) ns
        (Holds-add_node low high k d b n h (omega arith) lt top) (omega arith) lt top)

Holds-move_above :
    (low high k : ℕ) (m : List (ℕ × List Node)) (b : Bucket)
    → Holds low high k b
    → All (InRange low high) m
    → k + total m ≤ bucket_num
    → Holds low high (k + total m) (move_above low m b)
unfolding move_above
Holds-move_above low high k [] b h all le = subst (λ i. Holds low high i b) (omega arith) h
Holds-move_above low high k ((d, ns) ∷ m) b h all le =
    let above : ltb low d ≡ true = ground (arith, all.0.0) in
    rw above (
      subst (λ i. Holds low high i (move_above low m (add_each b d ns))) (omega arith)
        (Holds-move_above low high (k + length ns) m (add_each b d ns)
          (Holds-add_each low high k d b ns h (omega arith) all.0.0 all.0.1) all.1 (omega arith)))

split_lem :
    (low high count : ℕ) (nodes : List (ℕ × List Node))
    → high / 2 ≡ low
    → ltb_ℤ (room (high + 1 - low) low (pos 0)) (pos bucket_num) ≡ false
    → split (record { nodes = nodes; count = count; begin = low; end = high })
      ≡ ok (
        record { nodes = nodes; count = count; begin = low; end = low },
        move_above low nodes (new_bucket low high),
      )
unfolding split move_above
split_lem low high count nodes half rooms = rw (split, rooms, half)

-- The new half of a full bucket from `low` to `high` with `high / 2 = low` is full again.
pub Holds-split :
    (low high : ℕ) (b : Bucket)
    → high / 2 ≡ low
    → Holds low high bucket_num b
    → ltb_ℤ (room (high + 1 - low) low (pos 0)) (pos bucket_num) ≡ false
    → (nb : Bucket) × (split b ≡ ok (record b { end = low }, nb)) × Holds low high bucket_num nb
unfolding new_bucket
Holds-split low high b half h rooms =
    let bounds : ◌≡◌ {A = ℕ × ℕ} (b.begin, b.end) (low, high) = ap₂ (λ x y. (x, y)) h.0 h.1 in
    (
      move_above low b.nodes (new_bucket low high),
      subst
          (λ x.
            split (record b { begin = x.0; end = x.1 })
            ≡ ok
                (record b { begin = x.0; end = low }, move_above low b.nodes (new_bucket low high)))
          (sym bounds) (split_lem low high b.count b.nodes half rooms),
      subst (λ k. Holds low high k (move_above low b.nodes (new_bucket low high)))
          (omega (arith, h.3))
          (Holds-move_above low high 0 b.nodes (new_bucket low high) (refl, refl, tt, refl, refl)
            h.2 (omega (arith, h.3))),
    )
