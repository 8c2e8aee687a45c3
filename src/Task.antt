-- ===== src/Task.antt =====
-- task.go: the addresses that newTask hands to the trackers of a task.
use bget.Common.{
  ℕ, zero, suc, ◌+◌, not, ltb, ◌==◌, if◌then◌else◌, List, [], ◌∷◌, length, set, replicate,
}
use bget.Common.Go.{Result, ok, err, panic, ◌>>=◌}
use bget.Peer.Wire.{Bytes}
pub mod Slots
pub mod Life
pub mod Faults

-- newTask makes the slice without an error.
pub data NoError : Type 0 where

-- `announce[i] = a` and `i++` for each of these.
unfoldable pub place : List Bytes → ℕ → List Bytes → Result NoError (List Bytes × ℕ)
place slots i [] = ok (slots, i)
place slots i (a ∷ rest) =
    let later = place (set slots i a) (suc i) rest in if ltb i (length slots) then later else panic

unfoldable pub place_lists : List Bytes → ℕ → List (List Bytes) → Result NoError (List Bytes × ℕ)
unfolding place
place_lists slots i [] = ok (slots, i)
place_lists slots i (al ∷ rest) = do (slots', i') ← place slots i al; place_lists slots' i' rest

abbrev pub first_slot : Bytes → List Bytes
first_slot [] = []
first_slot (c ∷ cs) = (c ∷ cs) ∷ []

-- The slice that newTask passes to NewManager.
unfoldable pub announce_slots : Bytes → List (List Bytes) → Result NoError (List Bytes)
unfolding place_lists
announce_slots announce more = do
  (slots, i) ← place (replicate (1 + length more) []) 0 (first_slot announce)
  (slots', j) ← place_lists slots i more
  ok slots'
