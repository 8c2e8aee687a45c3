-- ===== src/Peer/Manager/Requests.antt =====
-- peer/manager.go: choosing the next block to ask a peer for (`requestPiece`, `nextRequest`,
-- `selectPiece`, `isInterest`) and closing a peer (`Close` of peer.go).
use bget.Common.{
  ℕ, zero, suc, ◌+◌, ◌-◌, ◌*◌, ◌%◌, ◌^◌, Bool, true, false, ltb, ◌==◌, if◌then◌else◌, List, [], ◌∷◌,
  ◌++◌, Option, none, some,
}
use bget.Common.Go.{Result, ok, err, panic, ◌>>=◌}
use bget.Common.Int.{ℤ, pos, negsuc, ◌+ℤ◌, ◌-ℤ◌, ltb_ℤ, leb_ℤ}
use bget.Common.Map.{lookup, insert, delete, nat_eq, string_eq}
use bget.Bitmap.{Bitmap, must_get_bit, must_count_bit_on, and_bitmap, len}
use bget.Peer.Message.{Request, Outgoing, request}
use bget.Peer.Manager.{PeerState, Session, HandlerError, fatal, TaskState}

abbrev pub max_request_length : ℕ
max_request_length = 1024 * 16

-- `requestTimeOut`, ten seconds in nanoseconds.
abbrev pub request_time_out : ℕ
request_time_out = 10 * 10 ^ 9

-- Go's conversion of an int to uint32.
abbrev pub to_uint32 : ℤ → ℕ
to_uint32 (pos n) = n % 2 ^ 32
to_uint32 (negsuc n) = 2 ^ 32 - 1 - n % 2 ^ 32

abbrev pub send_request : Request → Outgoing
send_request r = request (r.index % 2 ^ 32) (to_uint32 r.begin) (to_uint32 r.length)

-- A bitmap's panic ends the handler, and it has no other error.
abbrev pub lift {ℓ κ} : {E : Type ℓ} {A : Type κ} → Result E A → Result HandlerError A
lift (ok a) = ok a
lift (err e) = panic
lift panic = panic

-- The last block of a piece has been asked for.
abbrev pub is_last : ℕ → Request → Bool
is_last piece_length r = leb_ℤ (pos piece_length) (r.begin +ℤ r.length)

unfoldable pub next_request : ℕ → Request → Result HandlerError Request
next_request piece_length r =
    if is_last piece_length r
    then err fatal
    else let begin = r.begin +ℤ r.length in
      if ltb_ℤ (begin +ℤ r.length) (pos piece_length -ℤ pos max_request_length)
      then ok (record r { begin = begin; length = pos max_request_length })
      else ok (record r { begin = begin; length = pos piece_length -ℤ begin -ℤ r.length })

-- The first rejected request for a piece that the peer has.
unfoldable pub first_rejected : Bitmap → List (ℕ × Request) → Result HandlerError (Option ℕ)
first_rejected b [] = ok none
first_rejected b ((i, r) ∷ rest) =
    let later = first_rejected b rest in
    (lift (must_get_bit b (pos i)) >>= λ on. if on then ok (some i) else later)

abbrev pub first_request : ℕ → ℕ → Request
first_request now index = record {
  index = index;
  begin = pos 0;
  length = pos max_request_length;
  create_at = now;
}

module _ {Disk : Type 0} where
  abbrev pub send : Outgoing → Session Disk → Session Disk
  send o s = record s { out = s.out ++ o ∷ [] }

  -- peer.go, `Close`: closing the channel a second time panics.
  unfoldable pub close_peer : Session Disk → Result HandlerError (Session Disk)
  close_peer s = elim s.p.state [
    | PeerState.running ↦
        if s.p.closed then panic else ok (record s { p = record s.p { closed = true } })
    | _ ↦ ok s
  ]

  -- p.request(&r); m.requests[index] = r; p.haveReq = true
  abbrev pub ask : ℕ → Request → Request → Session Disk → Session Disk
  ask index sent kept s = record s {
    m = record s.m { requests = insert index kept s.m.requests };
    p = record s.p { have_req = true };
    out = s.out ++ send_request sent ∷ [];
  }

  abbrev pub request_new : ℕ → ℕ → Session Disk → Session Disk
  request_new now index s = ask index (first_request now index) (first_request now index) s

  abbrev pub request_rejected :
      ℕ → ℕ → Option Request → Session Disk → Result HandlerError (Session Disk)
  request_rejected now index none s = ok (request_new now index s)
  request_rejected now index (some r) s = ok (
      ask index r (record r { create_at = now })
        (record s { m = record s.m { reject_request = delete index s.m.reject_request } }))

  abbrev pub request_next :
      ℕ → ℕ → Option Request → Session Disk → Result HandlerError (Session Disk)
  request_next now index none s = request_rejected now index (lookup index s.m.reject_request) s
  request_next now index (some r) s =
      if is_last s.m.piece_length r
      then ok (
          request_new now index
            (record s { m = record s.m { requests = delete index s.m.requests } }))
      else (next_request s.m.piece_length r >>= λ r'. ok (ask index r' r' s))

  unfoldable pub request_piece : ℕ → ℕ → Session Disk → Result HandlerError (Session Disk)
  unfolding next_request
  request_piece now index s =
      if s.p.have_req then ok s else request_next now index (lookup index s.m.requests) s

  -- The need of a piece that the peer has; `And` is nil where the sizes differ, and counting its bits
  -- then reads through nil.
  unfoldable pub is_interest : Session Disk → Result HandlerError Bool
  is_interest s = do
    both ← lift (and_bitmap s.m.need s.p.bitmap)
    elim both [
      | none ↦ panic
      | some b ↦ do count ← lift (must_count_bit_on b (pos 0) (pos (len b))); ok (ltb 0 count)
    ]

  -- The loop over the pieces from a random one on, with `left` of them to go; `none` is -1.
  unfoldable pub scan_pieces :
      ℕ → ℕ → ℕ → Session Disk → Result HandlerError (Option ℕ × Session Disk)
  scan_pieces now zero i s = ok (none, s)
  scan_pieces now (suc left) i s =
      let index = i % s.m.piece_num in
      let later = scan_pieces now left (i + 1) s in
      elim (lookup index s.m.requests) [
        | some r ↦
            if ltb request_time_out (now - r.create_at)
            then ok (
              some index,
              record s {
                m = record s.m {
                  requests = delete index s.m.requests;
                  reject_request = insert index r s.m.reject_request;
                };
              },
            )
            else later
        | none ↦ do
          needed ← lift (must_get_bit s.m.need (pos index))
          had ← (if needed then lift (must_get_bit s.p.bitmap (pos index)) else ok false)
          if had then ok (some index, s) else later
      ]

  -- `start` is what `rand.Intn(m.pieceNum)` drew; it panics where there are no pieces.
  unfoldable pub select_piece : ℕ → ℕ → Session Disk → Result HandlerError (Option ℕ × Session Disk)
  unfolding first_rejected scan_pieces
  select_piece now start s = elim s.m.state [
    | TaskState.running ↦ do
      rejected ← first_rejected s.p.bitmap s.m.reject_request
      elim rejected [
        | some i ↦ ok (some i, s)
        | none ↦ if s.m.piece_num == 0 then panic else scan_pieces now s.m.piece_num start s
      ]
    | _ ↦ ok (none, s)
  ]
