-- ===== src/Tracker/Failover.antt =====
-- What the manager of the trackers returns when trackers fail.
use bget.Common.{
  ℕ, suc, ◌+◌, List, [], ◌∷◌, ◌++◌, Option, none, some, get_elem?, set, length, All, ◌≡◌, ◌≢◌, refl,
  arith, ap,
}
use bget.Common.Go.{Result, ok, err, panic, ◌>>=◌}
use bget.Tracker.{event_start}
use bget.Tracker.Manager.{
  Manager, Answer, Fatal, ask, start_from, start, announce_again, fail_over, announce,
  again_answered, found_again,
}

module _ {T Q A E : Type 0} (announce_to : T → Q → ℕ → Result E (List A) × T) where
  -- A tracker that answers the start of a task with an error.
  abbrev pub Fails : Q → Option T → Type 0
  Fails q none = ⊥
  Fails q (some t) = (e : E) × ((announce_to t q event_start).0 ≡ err e)

  -- The trackers after they were asked.
  abbrev pub asked : Q → List (Option T) → List (Option T)
  asked q [] = []
  asked q (none ∷ ts) = none ∷ asked q ts
  asked q (some t ∷ ts) = some (announce_to t q event_start).1 ∷ asked q ts

  start_from-found :
      (i : ℕ) (before after : List (Option T)) (t : T) (q : Q) (addrs : List A)
      → All (Fails q) before
      → (announce_to t q event_start).0 ≡ ok addrs
      → start_from announce_to i (before ++ some t ∷ after) q
        ≡ ok (
          some (i + length before, addrs),
          asked q before ++ some (announce_to t q event_start).1 ∷ after,
        )
  unfolding start_from
  start_from-found i [] after t q addrs fails e =
      rw e (ap (λ k. ok (some (k, addrs), some (announce_to t q event_start).1 ∷ after)) at_once)
    where
      at_once : i ≡ i + 0
      at_once = omega arith
  start_from-found i (none ∷ before) after t q addrs fails e = absurd fails.0
  start_from-found i (some s ∷ before) after t q addrs fails e =
      rw (fails.0.1, start_from-found (suc i) before after t q addrs fails.1 e)
        (ap
          (λ k. ok (
            some (k, addrs),
            some (announce_to s q event_start).1
                ∷ (asked q before ++ some (announce_to t q event_start).1 ∷ after),
          ))
          further)
    where
      further : suc i + length before ≡ i + suc (length before)
      further = omega arith

  -- Behind trackers that all fail a nil one, which is left for every address of an unsupported scheme.
  start_from-nil :
      (i : ℕ) (before after : List (Option T)) (q : Q)
      → All (Fails q) before
      → start_from announce_to i (before ++ none ∷ after) q ≡ panic
  unfolding start_from
  start_from-nil i [] after q fails = refl
  start_from-nil i (none ∷ before) after q fails = refl
  start_from-nil i (some s ∷ before) after q fails =
      rw (fails.0.1, start_from-nil (suc i) before after q fails.1)

  -- A tracker at which the loop of Start ends: one that answers, or a nil one.
  abbrev pub Ends : Q → List A → Option T → Type 0
  Ends q addrs none = Unit
  Ends q addrs (some t) = (announce_to t q event_start).0 ≡ ok addrs

  -- Behind trackers that all fail, Start returns the addresses from the first that answers and makes it the
  -- current one, and panics at a nil one.
  pub start_lem :
      (m : Manager T) (before after : List (Option T)) (x : Option T) (q : Q) (addrs : List A)
      → m.trackers ≡ before ++ x ∷ after
      → All (Fails q) before
      → Ends q addrs x
      → start announce_to m q ≡ elim x [
        | none ↦ panic
        | some t ↦ ok (
          some addrs,
          record {
            now = some (length before);
            trackers = asked q before ++ some (announce_to t q event_start).1 ∷ after;
          },
        )
      ]
  unfolding start
  start_lem m before after none q addrs e fails h = rw (e, start_from-nil 0 before after q fails)
  start_lem m before after (some t) q addrs e fails h =
      let zero_first : 0 + length before ≡ length before = omega arith in
      rw (e, start_from-found 0 before after t q addrs fails h)
        (ap
          (λ k. ok (
            some addrs,
            record {
              now = some k;
              trackers = asked q before ++ some (announce_to t q event_start).1 ∷ after;
            },
          ))
          zero_first)

  -- A call that returns does so with an error.
  abbrev pub Erring : Result Fatal (Answer A E × Manager T) → Type 0
  Erring (ok (a, m)) = a.error ≢ none
  Erring (err e) = Unit
  Erring panic = Unit

  Erring-bind :
      {X : Type 0} (r : Result Fatal X) (f : X → Result Fatal (Answer A E × Manager T))
      → ((x : X) → Erring (f x))
      → Erring (r >>= f)
  Erring-bind (ok x) f h = h x
  Erring-bind (err e) f h = tt
  Erring-bind panic f h = tt

  announce_again-Erring :
      (m : Manager T) (q : Q) (event : ℕ) (e : E) (peers : List A)
      → Erring (announce_again announce_to m q event e peers)
  unfolding announce_again
  announce_again-Erring m q event e peers = by_now m.now
    where
      by_answer :
          (x : Result E (List A) × Manager T) → Erring (again_answered announce_to e peers x)
      by_answer (ok addrs, m') = λ h. cc
      by_answer (err x, m') = tt
      by_answer (panic, m') = tt

      by_now :
          (now : Option ℕ)
          → Erring (announce_again announce_to (record m { now = now }) q event e peers)
      by_now none = tt
      by_now (some k) =
          Erring-bind (ask announce_to (record m { now = some k }) k q event) _ by_answer

  fail_over-Erring :
      (m : Manager T) (q : Q) (event : ℕ) (e : E) → Erring (fail_over announce_to m q event e)
  unfolding fail_over
  fail_over-Erring m q event e = Erring-bind (start announce_to m q) _ by_found
    where
      by_found : (x : Option (List A) × Manager T) → Erring (found_again announce_to q event e x)
      by_found (none, m') = λ h. cc
      by_found (some peers, m') = announce_again-Erring m' q event e peers

  ask_here :
      (m : Manager T) (k : ℕ) (q : Q) (event : ℕ) (t : T)
      → get_elem? m.trackers k ≡ some (some t)
      → ask announce_to m k q event
        ≡ ok (
          (announce_to t q event).0,
          record m { trackers = set m.trackers k (some (announce_to t q event).1) },
        )
  unfolding ask
  ask_here m k q event t e = rw (ask, e)

  -- After an error of the current tracker announce never returns without an error, also where another
  -- tracker answers in its place.
  pub announce-Erring :
      (m : Manager T) (q : Q) (event k : ℕ) (t : T) (e : E)
      → m.now ≡ some k
      → get_elem? m.trackers k ≡ some (some t)
      → (announce_to t q event).0 ≡ err e
      → Erring (announce announce_to m q event)
  unfolding announce
  announce-Erring m q event k t e now here failed =
      rw (announce, now, ask_here m k q event t here, failed)
        (fail_over-Erring
          (record m { trackers = set m.trackers k (some (announce_to t q event).1) }) q event e)
