-- ===== src/Peer/Manager/OnceHandlers.antt =====
-- Every handler keeps to one request for each peer.
use bget.Common.{
  ℕ, ◌+◌, ◌≤◌, Bool, false, not, ltb, leb, ◌==◌, if◌then◌else◌, List, [], ◌∷◌, length, Option, none,
  some, ◌≡◌, refl, ◌||◌, ◌-◌, ◌/◌, arith, ap,
}
use bget.Common.Go.{Result, ok, err, panic}
use bget.Common.Int.{pos}
use bget.Common.Map.{lookup, nat_eq, string_eq}
use bget.Bitmap.{
  Bitmap, new_empty_bitmap, set_bit_on, must_get_bit, must_count_bit_on, truncate, assign, len,
}
use bget.Filesystem.{Block}
use bget.Peer.Wire.{Bytes}
use bget.Peer.Message
use bget.Peer.Message.{Request, Outgoing}
use bget.Peer.Receive.{MessageWithId, Payload}
use bget.Peer.Manager.{
  PeerState, Session, Storage, HandlerError, SaveError, invalid_index, wrong_order, piece_check,
  other,
}
use bget.Peer.Manager.Requests.{lift, send, request_piece, is_interest, select_piece}
use bget.Peer.Manager.Handlers.{
  or_keep, holds, hash, interested, show_interest, handle_choke, ask_any, handle_unchoke,
  handle_have, take_field, handle_field, saved, not_saved, handle_piece, close_unless, rejected,
  if_running, closed_after, handle_req, handle_cancel, handle_suggest_piece, handle_reject_req,
  handle_have_all, handle_message, serve, with_request, with_block, with_index, with_bits,
}
use bget.Peer.Manager.Once.{
  is_request, count_requests, count_requests-append, Once, Keeps, Keeps-bind, Keeps-if,
  close_peer-Keeps, request_piece-Keeps, Alone-Once,
}

module _ (st : Storage) where
  open st use {Disk, save_piece}

  send-Once : (o : Outgoing) (s : Session Disk) → is_request o ≡ false → Once s → Once (send o s)
  send-Once o s e h =
      omega (
        arith,
        count_requests-append s.out (o ∷ []),
        ap {B = ℕ} (λ (b : Bool). if b then 1 else 0) e,
      )

  show_interest-Once : (s : Session Disk) → Once s → Once (show_interest st s)
  unfolding Message.interest
  show_interest-Once s h = send-Once Message.interest s refl h

  ask_any-Keeps : (now start : ℕ) (s : Session Disk) → Once s → Keeps (ask_any st now start s)
  unfolding ask_any
  ask_any-Keeps now start s h =
      Keeps-bind (select_piece now start s) _ (λ r e. chosen r (Alone-Once now start s r e h))
    where
      chosen :
          (r : Option ℕ × Session Disk)
          → Once r.1
          → Keeps (elim r.0 [ none ↦ err HandlerError.fatal | some i ↦ request_piece now i r.1 ])
      chosen (none, t) k = tt
      chosen (some i, t) k = request_piece-Keeps now i t k

  handle_unchoke-Keeps :
      (now start : ℕ) (s : Session Disk) → Once s → Keeps (handle_unchoke st now start s)
  unfolding handle_unchoke
  handle_unchoke-Keeps now start s h =
      Keeps-if (not (interested (lookup s.p.addr s.m.interest))) _ _
        (Keeps-bind (is_interest t) _ (λ b _.
          Keeps-if (not b) (ok t) (ask_any st now start (show_interest st t)) h
            (ask_any-Keeps now start (show_interest st t) (show_interest-Once t h))))
        (ask_any-Keeps now start t h)
    where
      t : Session Disk
      t = record s { p = record s.p { is_choke = false } }

  abbrev with_bitmap : Session Disk → Bitmap → Session Disk
  with_bitmap s b = record s { p = record s.p { bitmap = b } }

  handle_have-Keeps : (now i : ℕ) (s : Session Disk) → Once s → Keeps (handle_have st now i s)
  unfolding handle_have
  handle_have-Keeps now i s h = Keeps-if (ltb s.m.piece_num i) _ _ (close_peer-Keeps s h) (
      Keeps-bind (or_keep s.p.bitmap (set_bit_on s.p.bitmap (pos i))) _ (λ b _.
        Keeps-if s.p.is_choke (ok (with_bitmap s b)) _ h (
          Keeps-if (interested (lookup s.p.addr s.m.interest)) (ok (with_bitmap s b)) _ h (
            Keeps-bind (lift (must_get_bit s.m.need (pos i))) _ (λ needed _.
              Keeps-if needed (request_piece now i (show_interest st (with_bitmap s b)))
                (ok (with_bitmap s b))
                (request_piece-Keeps now i (show_interest st (with_bitmap s b))
                  (show_interest-Once (with_bitmap s b) h))
                h)))))

  take_field-Keeps : (s : Session Disk) (b : Bitmap) → Once s → Keeps (take_field st s b)
  unfolding take_field
  take_field-Keeps s b h = Keeps-bind (or_keep s.p.bitmap (assign s.p.bitmap b)) _ (λ b' _.
      Keeps-bind (is_interest (with_bitmap s b')) _ (λ wants _.
        Keeps-if wants (ok (show_interest st (with_bitmap s b'))) (ok (with_bitmap s b'))
          (show_interest-Once (with_bitmap s b') h) h))

  handle_field-Keeps : (s : Session Disk) (b : Bitmap) → Once s → Keeps (handle_field st s b)
  unfolding handle_field
  handle_field-Keeps s b h =
      Keeps-if (not (len b == s.m.piece_num)) _ _
        (Keeps-if (len b / 8 == (s.m.piece_num - 1) / 8 + 1) _ _
          (Keeps-bind (lift (must_count_bit_on b (pos s.m.piece_num) (pos (len b)))) _ (λ count _.
            Keeps-if (count == 0) _ _
              (Keeps-bind (lift (truncate b s.m.piece_num)) _ (λ b' _. take_field-Keeps s b' h))
              (close_peer-Keeps s h)))
          (close_peer-Keeps s h))
        (take_field-Keeps s b h)

  handle_have_all-Keeps : (s : Session Disk) → Once s → Keeps (handle_have_all st s)
  unfolding handle_have_all
  handle_have_all-Keeps s h =
      Keeps-bind (or_keep (new_empty_bitmap s.m.piece_num) _) _ (λ b _. handle_field-Keeps s b h)

  not_saved-Keeps :
      (e : SaveError) (b : Block) (s : Session Disk) → Once s → Keeps (not_saved st e b s)
  not_saved-Keeps invalid_index b s h = close_peer-Keeps s h
  not_saved-Keeps wrong_order b s h = close_peer-Keeps s h
  not_saved-Keeps piece_check b s h = h
  not_saved-Keeps other b s h = tt

  saved-Keeps : (now l : ℕ) (b : Block) (s : Session Disk) → Once s → Keeps (saved st now l b s)
  unfolding saved
  saved-Keeps now l b s h =
      Keeps-bind (if leb s.m.piece_length (b.begin + length b.bytes) then _ else _) _
        (λ m _. request_piece-Keeps now b.index (record s { m = m }) h)

  handle_piece-Keeps :
      (now : ℕ) (s : Session Disk) (b : Block) → Once s → Keeps (handle_piece st now s b)
  unfolding handle_piece
  handle_piece-Keeps now s b h = by_outcome (save_piece s.m.disk b.index b.begin b.bytes)
    where
      by_outcome :
          (r : Disk × Result SaveError ℕ)
          → Keeps (elim r.1 [
            | ok l ↦ saved st now l b (record s { m = record s.m { disk = r.0 } })
            | err e ↦ not_saved st e b (record s { m = record s.m { disk = r.0 } })
            | panic ↦ panic
          ])
      by_outcome (d, ok l) = saved-Keeps now l b (record s { m = record s.m { disk = d } }) h
      by_outcome (d, err e) = not_saved-Keeps e b (record s { m = record s.m { disk = d } }) h
      by_outcome (d, panic) = tt

  handle_req-Keeps : (s : Session Disk) (r : Request) → Once s → Keeps (handle_req st s r)
  unfolding handle_req Message.reject_request
  handle_req-Keeps s r h = Keeps-if (ltb s.m.piece_num r.index) _ _ (close_peer-Keeps s h) (
      Keeps-bind (lift (must_get_bit s.m.finish (pos r.index))) _ (λ done _.
        Keeps-if (not done || not (holds s.p.addr s.m.unchoke)) _ _ (send-Once _ s refl h) h))

  close_unless-Keeps :
      (o : Option (List Bytes)) (s : Session Disk) → Once s → Keeps (close_unless st o s)
  close_unless-Keeps none s h = close_peer-Keeps s h
  close_unless-Keeps (some ps) s h = h

  rejected-Keeps :
      (r : Request) (o : Option Request) (s : Session Disk) → Once s → Keeps (rejected st r o s)
  rejected-Keeps r none s h = close_peer-Keeps s h
  rejected-Keeps r (some old) s h = h

  handle_cancel-Keeps : (s : Session Disk) (r : Request) → Once s → Keeps (handle_cancel st s r)
  unfolding handle_cancel
  handle_cancel-Keeps s r h = Keeps-if (ltb s.m.piece_num r.index) _ _ (close_peer-Keeps s h) (
      Keeps-bind (close_unless st (lookup (hash r) s.m.peer_request) s) _
        (λ t e. rw e at (close_unless-Keeps (lookup (hash r) s.m.peer_request) s h)))

  handle_suggest_piece-Keeps :
      (now i : ℕ) (s : Session Disk) → Once s → Keeps (handle_suggest_piece st now i s)
  unfolding handle_suggest_piece
  handle_suggest_piece-Keeps now i s h = Keeps-if (ltb s.m.piece_num i) (ok s) _ h (
      Keeps-bind (lift (must_get_bit s.p.bitmap (pos i))) _
        (λ on _. Keeps-if on (request_piece now i s) (ok s) (request_piece-Keeps now i s h) h))

  handle_reject_req-Keeps :
      (s : Session Disk) (r : Request) → Once s → Keeps (handle_reject_req st s r)
  unfolding handle_reject_req
  handle_reject_req-Keeps s r h =
      Keeps-if (ltb s.m.piece_num r.index) (ok s) _ h
        (rejected-Keeps r (lookup r.index s.m.requests) s h)

  with_request-Keeps :
      (q : Payload) (k : Request → Result HandlerError (Session Disk))
      → ((r : Request) → Keeps (k r))
      → Keeps (with_request st q k)
  with_request-Keeps (Payload.asked (some r)) k h = h r
  with_request-Keeps _ k h = tt

  with_block-Keeps :
      (q : Payload) (k : Block → Result HandlerError (Session Disk))
      → ((b : Block) → Keeps (k b))
      → Keeps (with_block st q k)
  with_block-Keeps (Payload.block (some b)) k h = h b
  with_block-Keeps _ k h = tt

  with_index-Keeps :
      (q : Payload) (k : ℕ → Result HandlerError (Session Disk))
      → ((i : ℕ) → Keeps (k i))
      → Keeps (with_index st q k)
  with_index-Keeps (Payload.index i) k h = h i
  with_index-Keeps _ k h = tt

  with_bits-Keeps :
      (q : Payload) (k : Bitmap → Result HandlerError (Session Disk))
      → ((b : Bitmap) → Keeps (k b))
      → Keeps (with_bits st q k)
  with_bits-Keeps (Payload.bits b) k h = h b
  with_bits-Keeps _ k h = tt

  pub handle_message-Keeps :
      (now start : ℕ) (s : Session Disk) (msg : MessageWithId)
      → Once s
      → Keeps (handle_message st now start s msg)
  unfolding handle_message handle_choke
  handle_message-Keeps now start s msg h = Keeps-if (msg.id == Message.msg_choke) _ _ h (
      Keeps-if (msg.id == Message.msg_unchoke) _ _ (handle_unchoke-Keeps now start s h) (
        Keeps-if (msg.id == Message.msg_bitfield) _ _
          (with_bits-Keeps msg.payload _ (λ b. handle_field-Keeps s b h))
          (Keeps-if (msg.id == Message.msg_piece) _ _
            (with_block-Keeps msg.payload _ (λ b. handle_piece-Keeps now s b h))
            (Keeps-if (msg.id == Message.msg_request) _ _
              (with_request-Keeps msg.payload _ (λ r. handle_req-Keeps s r h))
              (Keeps-if (msg.id == Message.msg_cancel) _ _
                (with_request-Keeps msg.payload _ (λ r. handle_cancel-Keeps s r h))
                (Keeps-if (msg.id == Message.msg_have) _ _
                  (with_index-Keeps msg.payload _ (λ i. handle_have-Keeps now i s h))
                  (Keeps-if (msg.id == Message.msg_have_all) _ _ (handle_have_all-Keeps s h) (
                    Keeps-if (msg.id == Message.msg_have_none) _ _
                      (handle_field-Keeps s (new_empty_bitmap s.m.piece_num) h)
                      (Keeps-if (msg.id == Message.msg_suggest_piece) _ _
                        (with_index-Keeps msg.payload _ (λ i. handle_suggest_piece-Keeps now i s h))
                        (Keeps-if (msg.id == Message.msg_reject_request) _ _
                          (with_request-Keeps msg.payload _ (λ r. handle_reject_req-Keeps s r h))
                          (Keeps-if (msg.id == Message.msg_allowed_fast) _ _
                            (with_index-Keeps msg.payload _
                              (λ i. handle_suggest_piece-Keeps now i s h))
                            tt)))))))))))

  if_running-Keeps :
      (q : PeerState) (r : Result HandlerError (Session Disk)) (s : Session Disk)
      → Keeps r
      → Once s
      → Keeps (if_running st q r s)
  if_running-Keeps PeerState.running r s h k = h
  if_running-Keeps _ r s h k = k

  closed_after-Keeps :
      (s : Session Disk) (r : Result HandlerError (Session Disk))
      → Keeps r
      → Keeps (closed_after st s r)
  closed_after-Keeps s (ok t) h = h
  closed_after-Keeps s (err HandlerError.fatal) h = tt
  closed_after-Keeps s (err HandlerError.unknown_message) h = Keeps-if s.p.closed _ _ tt tt
  closed_after-Keeps s (err (HandlerError.storage e)) h = Keeps-if s.p.closed _ _ tt tt
  closed_after-Keeps s panic h = tt

  serve-Keeps :
      (msgs : List (ℕ × ℕ × MessageWithId)) (s : Session Disk) → Once s → Keeps (serve st msgs s)
  unfolding serve
  serve-Keeps [] s h = h
  serve-Keeps ((now, start, msg) ∷ rest) s h =
      Keeps-bind (if_running st s.p.state (closed_after st s (handle_message st now start s msg)) s)
        (serve st rest)
        (λ t e. serve-Keeps rest t (
          rw e at (
            if_running-Keeps s.p.state (closed_after st s (handle_message st now start s msg)) s
              (closed_after-Keeps s (handle_message st now start s msg)
                (handle_message-Keeps now start s msg h))
              h)))

  -- A peer that has been asked for at most one block, and for none unless it is marked, is never asked
  -- for a second one: whatever messages the manager takes from it without an error, at most one request
  -- message has been handed out for it in all.
  pub serve-Once :
      (msgs : List (ℕ × ℕ × MessageWithId)) (s t : Session Disk)
      → Once s
      → serve st msgs s ≡ ok t
      → count_requests t.out ≤ 1
  serve-Once msgs s t h e = let k : Once t = rw e at (serve-Keeps msgs s h) in ground arith
