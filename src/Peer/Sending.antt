-- ===== src/Peer/Sending.antt =====
-- peer/protocol.go: `sendMessage`, which starts a goroutine for each call. The goroutines that have not
-- run yet are a list, and any of them may be the next one to write.
use bget.Common.{
  ℕ, Bool, true, if◌then◌else◌, List, [], ◌∷◌, ◌++◌, Option, none, some, take, ◌≡◌, All,
}
use mathlib.Core.List.{Perm}
use mathlib.Core.List.Perm
use bget.Common.Go.{Result, ok, panic}
use bget.Peer.Wire.{Bytes}
use bget.Peer.Message.{Outgoing, message_bytes}
use bget.Peer.Delivery.{Call, sent, Fits, stream}

-- What a goroutine sees of its peer: whether its state is stateRunning, whether its channel `closing` is
-- closed, and the bytes that its connection has taken.
pub record Link : Type 0 where
  pub running : Bool
  pub closing : Bool
  pub written : Bytes

-- The goroutine. `fault` is what Write does: `none` takes the whole slice, and `some n` is an error
-- behind `n` bytes, after which Close closes the channel of a running peer.
unfoldable pub send_message : {E : Type 0} → Option ℕ → Outgoing → Link → Result E Link
send_message fault m p =
    if p.running
    then elim fault [
      | none ↦ ok (record p { written = p.written ++ message_bytes m })
      | some n ↦
          if p.closing
          then panic
          else ok (record p { closing = true; written = p.written ++ take n (message_bytes m) })
    ]
    else ok p

-- A peer with the calls whose goroutines have not run yet.
pub record Sender : Type 0 where
  pub link : Link
  pub pending : List Call

-- The senders that a row of calls can lead to where no Write fails: a call starts a goroutine, and any
-- goroutine that was started runs. The calls are listed with the last one in front.
pub data Reach (running : Bool) : List Call → Sender → Type 1 where
  idle :
      (s : Sender)
      → s.link.running ≡ running
      → s.link.written ≡ []
      → s.pending ≡ []
      → Reach running [] s
  called :
      {cs : List Call} {s : Sender} (c : Call)
      → Reach running cs s
      → Reach running (c ∷ cs) (record s { pending = c ∷ s.pending })
  ran :
      {cs : List Call} {s : Sender} (before after : List Call) (c : Call) (l : Link)
      → Reach running cs s
      → s.pending ≡ before ++ (c ∷ after)
      → send_message {E = Unit {0}} none (sent c) s.link ≡ ok l
      → Reach running cs (record { link = l; pending = before ++ after })

-- The bytes of the calls whose goroutines have run: none where the peer is not running.
abbrev put : Bool → List Call → List Call
put running done = if running then done else []

abbrev Written : Bool → List Call → Sender → Type 0
Written running made s =
    (done : List Call) × All Fits done
    × All Fits s.pending
    × Perm (done ++ s.pending) made
    × (s.link.written ≡ stream (put running done))
    × (s.link.running ≡ running)
