-- ===== src/Task/Slots.antt =====
-- The slice of newTask beside the addresses of `getAnnounce`.
use bget.Common.{
  ℕ, zero, suc, ◌+◌, ◌-◌, ◌≤◌, ◌<◌, true, false, ltb, leb, Bool-cases, inl, inr, if◌then◌else◌,
  List, [], ◌∷◌, ◌++◌, length, set, replicate, drop, length-append, length-replicate, append_assoc,
  ◌≡◌, refl, sym, arith, ap, ◌∙◌,
}
use bget.Common.Go.{Result, ok, err, panic, ◌>>=◌}
use bget.Meta.{concat, get_announce}
use bget.Peer.Wire.{Bytes}
use bget.Task.{NoError, place, place_lists, first_slot, announce_slots}

place-append :
    (slots : List Bytes) (i : ℕ) (ws bs : List Bytes)
    → place slots i (ws ++ bs) ≡ (place slots i ws >>= λ r. place r.0 r.1 bs)
unfolding place
place-append slots i [] bs = refl
place-append slots i (a ∷ ws) bs = ground (arith, place-append (set slots i a) (suc i) ws bs)

place_lists-concat :
    (slots : List Bytes) (i : ℕ) (more : List (List Bytes))
    → place_lists slots i more ≡ place slots i (concat more)
unfolding place_lists
place_lists-concat slots i [] = refl
place_lists-concat slots i (al ∷ more) =
    behind (λ s j. place_lists-concat s j more) (place slots i al)
    ∙ sym (place-append slots i al (concat more))
  where
    behind :
        ((s : List Bytes) (j : ℕ) → place_lists s j more ≡ place s j (concat more))
        → (r : Result NoError (List Bytes × ℕ))
        → (r >>= λ r. place_lists r.0 r.1 more) ≡ (r >>= λ r. place r.0 r.1 (concat more))
    behind later (ok (s, j)) = later s j
    behind later (err e) = refl
    behind later panic = refl

set_behind :
    (done blanks : List Bytes) (b a : Bytes)
    → set (done ++ b ∷ blanks) (length done) a ≡ (done ++ a ∷ []) ++ blanks
set_behind [] blanks b a = refl
set_behind (x ∷ done) blanks b a = ap (λ t. x ∷ t) (set_behind done blanks b a)

place_fits :
    (ws done blanks : List Bytes)
    → length ws ≤ length blanks
    → place (done ++ blanks) (length done) ws
      ≡ ok (done ++ (ws ++ drop (length ws) blanks), length done + length ws)
unfolding place
place_fits [] done blanks h = ap (λ k. ok (done ++ blanks, k)) same
  where
    same : length done ≡ length done + 0
    same = omega arith
place_fits (a ∷ ws) done [] h = absurd (omega arith)
place_fits (a ∷ ws) done (b ∷ blanks) h =
    let inside : ltb (length done) (length (done ++ b ∷ blanks)) ≡ true =
      ground (arith, length-append done (b ∷ blanks)) in
    let behind : length (done ++ a ∷ []) ≡ suc (length done) =
      omega (arith, length-append done (a ∷ [])) in
    let sum : suc (length done) + length ws ≡ length done + suc (length ws) = omega arith in
    rw (inside, set_behind done blanks b a)
      (ap (λ k. place ((done ++ a ∷ []) ++ blanks) k ws) (sym behind)
        ∙ place_fits ws (done ++ a ∷ []) blanks (omega arith)
        ∙ rw (behind, sum, append_assoc done (a ∷ []) (ws ++ drop (length ws) blanks)) refl)

place_overruns :
    (ws done blanks : List Bytes)
    → length blanks < length ws
    → place (done ++ blanks) (length done) ws ≡ panic
unfolding place
place_overruns [] done blanks h = absurd (omega arith)
place_overruns (a ∷ ws) done [] h =
    let outside : ltb (length done) (length (done ++ [])) ≡ false =
      ground (arith, length-append done []) in
    rw outside
place_overruns (a ∷ ws) done (b ∷ blanks) h =
    let inside : ltb (length done) (length (done ++ b ∷ blanks)) ≡ true =
      ground (arith, length-append done (b ∷ blanks)) in
    let behind : length (done ++ a ∷ []) ≡ suc (length done) =
      omega (arith, length-append done (a ∷ [])) in
    rw (inside, set_behind done blanks b a)
      (ap (λ k. place ((done ++ a ∷ []) ++ blanks) k ws) (sym behind)
        ∙ place_overruns ws (done ++ a ∷ []) blanks (omega arith))

slots-get_announce :
    (announce : Bytes) (more : List (List Bytes))
    → announce_slots announce more
      ≡ (place (replicate (1 + length more) []) 0 (get_announce announce more) >>= λ r. ok r.0)
unfolding announce_slots get_announce
slots-get_announce announce more =
    let slots : List Bytes = replicate (1 + length more) [] in
    by_first (place slots 0 (first_slot announce))
    ∙ ap (λ r. r >>= λ r. ok r.0)
        (sym (place-append slots 0 (first_slot announce) (concat more))
          ∙ ap (place slots 0) (joined announce))
  where
    by_first :
        (r : Result NoError (List Bytes × ℕ))
        → (r >>= λ x. (place_lists x.0 x.1 more >>= λ y. ok y.0))
          ≡ ((r >>= λ x. place x.0 x.1 (concat more)) >>= λ y. ok y.0)
    by_first (ok (s, j)) = ap (λ r. r >>= λ y. ok y.0) (place_lists-concat s j more)
    by_first (err e) = refl
    by_first panic = refl

    joined : (announce : Bytes) → first_slot announce ++ concat more ≡ get_announce announce more
    joined [] = refl
    joined (c ∷ cs) = refl

drop-replicate : (k n : ℕ) → drop k (replicate n []) ≡ replicate {A = Bytes} (n - k) []
drop-replicate zero n = let same : n ≡ n - 0 = omega arith in ap (λ m. replicate m []) same
drop-replicate (suc k) zero =
    let same : 0 ≡ 0 - suc k = omega arith in ap (λ m. replicate m []) same
drop-replicate (suc k) (suc n) =
    let same : n - k ≡ suc n - suc k = omega arith in
    drop-replicate k n ∙ ap (λ m. replicate m []) same

-- newTask makes one slot more than there are lists of addresses: where the addresses of the torrent are
-- no more than the slots, they are in the first slots, in the order of getAnnounce, and the other slots
-- are empty; where they are more, newTask panics.
pub announce_slots-get_announce :
    (announce : Bytes) (more : List (List Bytes))
    → announce_slots announce more ≡ (
        let all = get_announce announce more in
        let slots = 1 + length more in
        if leb (length all) slots then ok (all ++ replicate (slots - length all) []) else panic)
announce_slots-get_announce announce more =
    let all = get_announce announce more in
    let blanks : List Bytes = replicate (1 + length more) [] in
    let size = length-replicate {A = Bytes} (1 + length more) [] in
    slots-get_announce announce more ∙ elim (Bool-cases (leb (length all) (1 + length more))) [
      | inl h ↦
          let le : length all ≤ 1 + length more = ground (arith, h) in
          rw h (
            ap (λ r. r >>= λ r. ok r.0) (place_fits all [] blanks (omega (arith, size)))
            ∙ ap (λ t. ok (all ++ t)) (drop-replicate (length all) (1 + length more)))
      | inr h ↦
          let lt : 1 + length more < length all = ground (arith, h) in
          rw h (ap (λ r. r >>= λ r. ok r.0) (place_overruns all [] blanks (omega (arith, size))))
    ]
