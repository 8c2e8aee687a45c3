-- ===== src/Tracker/Manager.antt =====
-- tracker/manager.go: the trackers of a task. What a tracker does with an announcement is a parameter,
-- which the UDP and the HTTP tracker stand behind; hash, id and address are the same in every call of a
-- manager, so that the download status is the whole request.
use bget.Common.{ℕ, suc, List, [], ◌∷◌, ◌++◌, Option, none, some, get_elem?, set}
use bget.Common.Go.{Result, ok, err, panic, ◌>>=◌}
use bget.Tracker.{event_complete, event_start, event_stop}

-- `now` is -1 where it is `none`; a tracker of no supported scheme is a nil one.
pub record Manager (T : Type 0) : Type 0 where
  pub now : Option ℕ
  pub trackers : List (Option T)

-- The error that a call returns, if one.
pub data AnnounceError (E : Type 0) : Type 0 where
  no_valid_tracker : AnnounceError E
  of_tracker : E → AnnounceError E

pub record Answer (A E : Type 0) : Type 0 where
  pub addrs : List A
  pub error : Option (AnnounceError E)

-- `logger.Fatalln` ends the program.
pub data Fatal : Type 0 where
  tracker_error no_tracker : Fatal

-- The loop of NewManager; `make_tracker` is NewTracker.
unfoldable pub made : {T S : Type 0} → (S → Option T) → List S → List (Option T)
made make_tracker [] = []
made make_tracker (a ∷ rest) = make_tracker a ∷ made make_tracker rest

unfoldable pub new_manager : {T S : Type 0} → (S → Option T) → List S → Manager T
unfolding made
new_manager make_tracker addrs = record { now = none; trackers = made make_tracker addrs }

-- `getWaitTime` of the tracker is a parameter.
unfoldable pub get_wait_time : {T : Type 0} → (T → ℕ) → Manager T → Result Fatal ℕ
get_wait_time wait_of m = elim m.now [
  | none ↦ err no_tracker
  | some k ↦ elim (get_elem? m.trackers k) [ some (some t) ↦ ok (wait_of t) | _ ↦ panic ]
]

module _ {T Q A E : Type 0} (announce_to : T → Q → ℕ → Result E (List A) × T) where
  -- A call of a method of `trackers[k]`; that of a nil interface panics.
  unfoldable pub ask : Manager T → ℕ → Q → ℕ → Result Fatal (Result E (List A) × Manager T)
  ask m k q event = elim (get_elem? m.trackers k) [
    | some (some t) ↦ ok (
      (announce_to t q event).0,
      record m { trackers = set m.trackers k (some (announce_to t q event).1) },
    )
    | _ ↦ panic
  ]

  -- The loop of `Start`, with the trackers from the position `i` on.
  unfoldable pub start_from :
      ℕ → List (Option T) → Q → Result Fatal (Option (ℕ × List A) × List (Option T))
  start_from i [] q = ok (none, [])
  start_from i (none ∷ ts) q = panic
  start_from i (some t ∷ ts) q =
      let later = start_from (suc i) ts q in
      let t' = (announce_to t q event_start).1 in
      elim (announce_to t q event_start).0 [
        | ok addrs ↦ ok (some (i, addrs), some t' ∷ ts)
        | err e ↦ do (found, ts') ← later; ok (found, some t' ∷ ts')
        | panic ↦ panic
      ]

  abbrev pub started :
      Manager T → Option (ℕ × List A) × List (Option T) → Option (List A) × Manager T
  started m (none, ts) = (none, record m { trackers = ts })
  started m (some (i, addrs), ts) = (some addrs, record { now = some i; trackers = ts })

  -- `none` where it returns ErrNoVaildTracker.
  unfoldable pub start : Manager T → Q → Result Fatal (Option (List A) × Manager T)
  unfolding start_from
  start m q = do r ← start_from 0 m.trackers q; ok (started m r)

  abbrev pub no_valid : Answer A E
  no_valid = record { addrs = []; error = some no_valid_tracker }

  abbrev pub again_answered :
      E → List A → Result E (List A) × Manager T → Result Fatal (Answer A E × Manager T)
  again_answered e peers (ok addrs, m) =
      ok (record { addrs = addrs ++ peers; error = some (of_tracker e) }, m)
  again_answered e peers (err x, m) = err tracker_error
  again_answered e peers (panic, m) = panic

  -- The second announcement, to the tracker that `Start` has found. The error of its own scope is not the
  -- one that is returned.
  unfoldable pub announce_again :
      Manager T → Q → ℕ → E → List A → Result Fatal (Answer A E × Manager T)
  unfolding ask
  announce_again m q event e peers = elim m.now [
    | none ↦ panic
    | some k ↦ do r ← ask m k q event; again_answered e peers r
  ]

  abbrev pub found_again :
      Q → ℕ → E → Option (List A) × Manager T → Result Fatal (Answer A E × Manager T)
  found_again q event e (none, m) = ok (no_valid, m)
  found_again q event e (some peers, m) = announce_again m q event e peers

  unfoldable pub fail_over : Manager T → Q → ℕ → E → Result Fatal (Answer A E × Manager T)
  unfolding start announce_again
  fail_over m q event e = do r ← start m q; found_again q event e r

  unfoldable pub announce : Manager T → Q → ℕ → Result Fatal (Answer A E × Manager T)
  unfolding ask fail_over
  announce m q event = elim m.now [
    | none ↦ ok (no_valid, m)
    | some k ↦ do
      (r, m') ← ask m k q event
      elim r [
        | ok addrs ↦ ok (record { addrs = addrs; error = none }, m')
        | err e ↦ fail_over m' q event e
        | panic ↦ panic
      ]
  ]

  -- `Stop` and `Finish`, as `Announce` with other events.
  abbrev pub stop : Manager T → Q → Result Fatal (Answer A E × Manager T)
  stop m q = announce m q event_stop

  abbrev pub finish : Manager T → Q → Result Fatal (Answer A E × Manager T)
  finish m q = announce m q event_complete
