-- ===== src/Peer/Manager/Handlers.antt =====
-- peer/manager.go: `handleMessage` and the handlers that it calls.
use bget.Common.{
  ℕ, zero, suc, ◌+◌, ◌-◌, ◌/◌, ◌%◌, ◌^◌, Bool, true, false, not, ◌||◌, ltb, leb, ◌==◌,
  if◌then◌else◌, List, [], ◌∷◌, ◌++◌, Option, none, some, length,
}
use bget.Common.Bytes.{equal}
use bget.Common.Decimal.{decimal, decimal_int}
use bget.Common.Go.{Result, ok, err, panic, ◌>>=◌}
use bget.Common.Int.{ℤ, pos, negsuc}
use bget.Common.Map.{lookup, insert, delete, nat_eq, string_eq}
use bget.Bitmap.{
  Bitmap, new_empty_bitmap, set_bit_on, set_bit_off, set_range_bit_on, must_get_bit,
  must_count_bit_on, truncate, assign, len,
}
use bget.Filesystem.{Block}
use bget.Peer.Wire.{Bytes}
use bget.Peer.Message.{
  Request, interest, reject_request, msg_choke, msg_unchoke, msg_have, msg_bitfield, msg_request,
  msg_piece, msg_cancel, msg_suggest_piece, msg_have_all, msg_have_none, msg_reject_request,
  msg_allowed_fast,
}
use bget.Peer.Receive.{MessageWithId, Payload, index, bits, asked, block}
use bget.Peer.Manager.{
  PeerState, Session, Storage, SaveError, invalid_index, wrong_order, piece_check, other,
  HandlerError, unknown_message, fatal, storage,
}
use bget.Peer.Manager.Requests.{
  lift, send, to_uint32, close_peer, request_piece, is_interest, select_piece,
}

-- A write that returns an error which the code drops.
abbrev pub or_keep : {E A : Type 0} → A → Result E A → Result HandlerError A
or_keep a (ok b) = ok b
or_keep a (err e) = ok a
or_keep a panic = panic

-- `r.hash()`: the three numbers in decimal, with nothing between them.
unfoldable pub hash : Request → Bytes
unfolding decimal decimal_int
hash r = decimal r.index ++ (decimal_int r.begin ++ decimal_int r.length)

abbrev pub holds : Bytes → List Bytes → Bool
holds a [] = false
holds a (v ∷ vs) = equal v a || holds a vs

-- `m.interest[addr]`, false where the key is missing.
abbrev pub interested : Option Bool → Bool
interested none = false
interested (some b) = b

abbrev pub negate : ℕ → ℤ
negate zero = pos 0
negate (suc n) = negsuc n

-- The peers that wait for a block; a missing key is an empty list.
abbrev pub waiting : Option (List Bytes) → List Bytes
waiting none = []
waiting (some ps) = ps

module _ (st : Storage) where
  open st use {Disk, save_piece}

  abbrev pub Done : Type 0
  Done = Result HandlerError (Session Disk)

  -- m.interest[p.addr] = true; p.interest()
  abbrev pub show_interest : Session Disk → Session Disk
  show_interest s =
      send interest (record s { m = record s.m { interest = insert s.p.addr true s.m.interest } })

  unfoldable pub handle_choke : Session Disk → Done
  handle_choke s = ok (record s { p = record s.p { is_choke = true } })

  -- handleInterset and handleNoInterest, which handleMessage does not call.
  unfoldable pub handle_interest : Session Disk → Done
  handle_interest s = ok (record s { p = record s.p { is_interest = true } })

  unfoldable pub handle_no_interest : Session Disk → Done
  handle_no_interest s = ok (record s { p = record s.p { is_interest = false } })

  -- After the interest is known: a piece is chosen and asked for; without one the process ends.
  unfoldable pub ask_any : ℕ → ℕ → Session Disk → Done
  ask_any now start s = do
    chosen ← select_piece now start s
    elim chosen.0 [ none ↦ err fatal | some i ↦ request_piece now i chosen.1 ]

  unfoldable pub handle_unchoke : ℕ → ℕ → Session Disk → Done
  unfolding ask_any
  handle_unchoke now start s₀ =
      let s = record s₀ { p = record s₀.p { is_choke = false } } in
      if not (interested (lookup s.p.addr s.m.interest))
      then (is_interest s >>= λ wants.
          if not wants then ok s else ask_any now start (show_interest s))
      else ask_any now start s

  unfoldable pub handle_have : ℕ → ℕ → Session Disk → Done
  handle_have now i s = if ltb s.m.piece_num i then close_peer s else do
    b ← or_keep s.p.bitmap (set_bit_on s.p.bitmap (pos i))
    let s₁ = record s { p = record s.p { bitmap = b } }
    if s.p.is_choke
        then ok s₁
        else if interested (lookup s.p.addr s.m.interest)
        then ok s₁
        else (lift (must_get_bit s.m.need (pos i)) >>= λ needed.
            if needed then request_piece now i (show_interest s₁) else ok s₁)

  -- p.Bitmap.Assign(field), whose error is dropped, and the interest that follows.
  unfoldable pub take_field : Session Disk → Bitmap → Done
  take_field s field = do
    b ← or_keep s.p.bitmap (assign s.p.bitmap field)
    let s₁ = record s { p = record s.p { bitmap = b } }
    wants ← is_interest s₁
    if wants then ok (show_interest s₁) else ok s₁

  unfoldable pub handle_field : Session Disk → Bitmap → Done
  unfolding take_field
  handle_field s field =
      if not (len field == s.m.piece_num)
      then (if len field / 8 == (s.m.piece_num - 1) / 8 + 1
          then (lift (must_count_bit_on field (pos s.m.piece_num) (pos (len field))) >>= λ count.
              if count == 0
              then (lift (truncate field s.m.piece_num) >>= take_field s)
              else close_peer s)
          else close_peer s)
      else take_field s field

  unfoldable pub saved : ℕ → ℕ → Block → Session Disk → Done
  saved now l b s = do
    let m₁ = record s.m { memory = s.m.memory ++ pos l ∷ []; download = s.m.download + l }
    m₂ ←
        (if leb s.m.piece_length (b.begin + length b.bytes)
          then (or_keep s.m.finish (set_bit_on s.m.finish (pos b.index)) >>= λ finish.
              or_keep s.m.need (set_bit_off s.m.need (pos b.index)) >>= λ need.
              ok (record m₁ { finish = finish; need = need }))
          else ok m₁)
    request_piece now b.index (record s { m = m₂ })

  abbrev pub not_saved : SaveError → Block → Session Disk → Done
  not_saved invalid_index b s = close_peer s
  not_saved wrong_order b s = close_peer s
  not_saved piece_check b s = ok (record s {
    m = record s.m {
      memory = s.m.memory ++ negate s.m.piece_length ∷ [];
      requests = delete b.index s.m.requests;
    };
  })
  not_saved other b s = err (storage other)

  unfoldable pub handle_piece : ℕ → Session Disk → Block → Done
  unfolding saved
  handle_piece now s₀ b =
      let (disk, outcome) = save_piece s₀.m.disk b.index b.begin b.bytes in
      let s = record s₀ { m = record s₀.m { disk = disk } } in
      elim outcome [ ok l ↦ saved now l b s | err e ↦ not_saved e b s | panic ↦ panic ]

  unfoldable pub handle_req : Session Disk → Request → Done
  handle_req s r =
      if ltb s.m.piece_num r.index
      then close_peer s
      else (lift (must_get_bit s.m.finish (pos r.index)) >>= λ done.
          if not done || not (holds s.p.addr s.m.unchoke)
          then ok
              (send (reject_request (r.index % 2 ^ 32) (to_uint32 r.begin) (to_uint32 r.length)) s)
          else ok (record s {
            m = record s.m {
              peer_request =
                  insert (hash r) (waiting (lookup (hash r) s.m.peer_request) ++ s.p.addr ∷ [])
                    s.m.peer_request;
              reads = s.m.reads ++ r ∷ [];
            };
          }))

  -- `p.Close()` where the key is missing.
  abbrev pub close_unless : Option (List Bytes) → Session Disk → Done
  close_unless none s = close_peer s
  close_unless (some ps) s = ok s

  unfoldable pub handle_cancel : Session Disk → Request → Done
  handle_cancel s r = if ltb s.m.piece_num r.index then close_peer s else do
    s₁ ← close_unless (lookup (hash r) s.m.peer_request) s
    ok (record s₁ { m = record s₁.m { peer_request = delete (hash r) s₁.m.peer_request } })

  -- handelSuggestPiece and handleAllowedFast
  unfoldable pub handle_suggest_piece : ℕ → ℕ → Session Disk → Done
  handle_suggest_piece now i s =
      if ltb s.m.piece_num i
      then ok s
      else (lift (must_get_bit s.p.bitmap (pos i)) >>= λ on.
          if on then request_piece now i s else ok s)

  abbrev pub rejected : Request → Option Request → Session Disk → Done
  rejected r none s = close_peer s
  rejected r (some old) s =
      ok (record s { m = record s.m { reject_request = insert r.index r s.m.reject_request } })

  unfoldable pub handle_reject_req : Session Disk → Request → Done
  handle_reject_req s r =
      if ltb s.m.piece_num r.index then ok s else rejected r (lookup r.index s.m.requests) s

  -- The assertions on `msg.Data`, and the use of what they give: a nil pointer is read through.
  abbrev pub with_request : Payload → (Request → Done) → Done
  with_request (asked (some r)) k = k r
  with_request _ k = panic

  abbrev pub with_block : Payload → (Block → Done) → Done
  with_block (block (some b)) k = k b
  with_block _ k = panic

  abbrev pub with_index : Payload → (ℕ → Done) → Done
  with_index (index i) k = k i
  with_index _ k = panic

  abbrev pub with_bits : Payload → (Bitmap → Done) → Done
  with_bits (bits b) k = k b
  with_bits _ k = panic

  -- A bitmap of the torrent's pieces with all of them on.
  unfoldable pub handle_have_all : Session Disk → Done
  unfolding handle_field
  handle_have_all s =
      let b = new_empty_bitmap s.m.piece_num in
      (or_keep b (set_range_bit_on b (pos 0) (pos (len b))) >>= handle_field s)

  unfoldable pub handle_message : ℕ → ℕ → Session Disk → MessageWithId → Done
  handle_message now start s msg =
      if msg.id == msg_choke
      then handle_choke s
      else if msg.id == msg_unchoke
      then handle_unchoke now start s
      else if msg.id == msg_bitfield
      then with_bits msg.payload (handle_field s)
      else if msg.id == msg_piece
      then with_block msg.payload (handle_piece now s)
      else if msg.id == msg_request
      then with_request msg.payload (handle_req s)
      else if msg.id == msg_cancel
      then with_request msg.payload (handle_cancel s)
      else if msg.id == msg_have
      then with_index msg.payload (λ i. handle_have now i s)
      else if msg.id == msg_have_all
      then handle_have_all s
      else if msg.id == msg_have_none
      then handle_field s (new_empty_bitmap s.m.piece_num)
      else if msg.id == msg_suggest_piece
      then with_index msg.payload (λ i. handle_suggest_piece now i s)
      else if msg.id == msg_reject_request
      then with_request msg.payload (handle_reject_req s)
      else if msg.id == msg_allowed_fast
      then with_index msg.payload (λ i. handle_suggest_piece now i s)
      else err unknown_message

  abbrev pub if_running : PeerState → Done → Session Disk → Done
  if_running PeerState.running handled s = handled
  if_running _ handled s = ok s

  -- On an error of a handler `close` of the manager closes the running peers, this one among them, and a
  -- channel that is closed twice panics.
  abbrev pub closed_after : Session Disk → Done → Done
  closed_after s (ok t) = ok t
  closed_after s (err fatal) = err fatal
  closed_after s (err e) = if s.p.closed then panic else err e
  closed_after s panic = panic

  -- The messages of one peer in the order in which the run loop takes them, each with the clock and the
  -- number that is drawn; a message is dropped unless the peer is running, and an error ends the loop.
  -- What `close` does to the other peers and to the manager is in Run.
  unfoldable pub serve : List (ℕ × ℕ × MessageWithId) → Session Disk → Done
  serve [] s = ok s
  serve ((now, start, msg) ∷ rest) s =
      if_running s.p.state (closed_after s (handle_message now start s msg)) s >>= serve rest
