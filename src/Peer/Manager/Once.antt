-- ===== src/Peer/Manager/Once.antt =====
-- A peer is asked for one block at most, since nothing resets `haveReq`.
use bget.Common.{
  ℕ, zero, suc, ◌+◌, ◌≤◌, Bool, true, false, ◌==◌, if◌then◌else◌, List, [], ◌∷◌, ◌++◌, Option, none,
  some, ◌≡◌, refl, inl, inr, arith, ap, Bool-cases,
}
use bget.Common.Go.{Result, ok, err, panic, ◌>>=◌}
use bget.Common.Map.{lookup, delete, nat_eq}
use bget.Peer.Message
use bget.Peer.Message.{Request, Outgoing, raw, framed, msg_request}
use bget.Peer.Manager.{Session, HandlerError}
use bget.Peer.Manager.Requests.{
  is_last, first_request, ask, request_rejected, request_next, send_request, close_peer,
  next_request, request_piece, select_piece, scan_pieces,
}

-- The bytes are those of a request message.
abbrev pub is_request : Outgoing → Bool
is_request (raw (a ∷ b ∷ c ∷ d ∷ id ∷ rest)) = id == msg_request
is_request _ = false

abbrev pub count_requests : List Outgoing → ℕ
count_requests [] = 0
count_requests (o ∷ os) = (if is_request o then 1 else 0) + count_requests os

pub count_requests-append :
    (xs ys : List Outgoing) → count_requests (xs ++ ys) ≡ count_requests xs + count_requests ys
count_requests-append [] ys = omega arith
count_requests-append (x ∷ xs) ys = ground (arith, count_requests-append xs ys)

is_request-send_request : (r : Request) → is_request (send_request r) ≡ true
unfolding Message.request
is_request-send_request r = refl

module _ {Disk : Type 0} where
  -- At most one request has gone out, and only to a peer that is marked.
  abbrev pub Once : Session Disk → Type 0
  Once s = count_requests s.out ≤ (if s.p.have_req then 1 else 0)

  -- Every session that a handler returns.
  abbrev pub Keeps : Result HandlerError (Session Disk) → Type 0
  Keeps (ok s) = Once s
  Keeps (err e) = Unit
  Keeps panic = Unit

  pub Keeps-bind :
      {A : Type 0} (r : Result HandlerError A) (f : A → Result HandlerError (Session Disk))
      → ((a : A) → r ≡ ok a → Keeps (f a))
      → Keeps (r >>= f)
  Keeps-bind (ok a) f h = h a refl
  Keeps-bind (err e) f h = tt
  Keeps-bind panic f h = tt

  pub Keeps-if :
      (b : Bool) (r q : Result HandlerError (Session Disk))
      → Keeps r
      → Keeps q
      → Keeps (if b then r else q)
  Keeps-if true r q h k = h
  Keeps-if false r q h k = k

  pub close_peer-Keeps : (s : Session Disk) → Once s → Keeps (close_peer s)
  unfolding close_peer
  close_peer-Keeps s h = ground arith

  ask-Once :
      (i : ℕ) (r kept : Request) (s : Session Disk)
      → s.p.have_req ≡ false
      → Once s
      → Once (ask i r kept s)
  ask-Once i r kept s e h = omega (
    arith,
    count_requests-append s.out (send_request r ∷ []),
    rw e at h,
    ap {B = ℕ} (λ (b : Bool). if b then 1 else 0) (is_request-send_request r),
  )

  request_rejected-Keeps :
      (now i : ℕ) (o : Option Request) (s : Session Disk)
      → s.p.have_req ≡ false
      → Once s
      → Keeps (request_rejected now i o s)
  request_rejected-Keeps now i none s e h =
      ask-Once i (first_request now i) (first_request now i) s e h
  request_rejected-Keeps now i (some r) s e h =
      ask-Once i r (record r { create_at = now })
        (record s { m = record s.m { reject_request = delete i s.m.reject_request } }) e h

  request_next-Keeps :
      (now i : ℕ) (o : Option Request) (s : Session Disk)
      → s.p.have_req ≡ false
      → Once s
      → Keeps (request_next now i o s)
  request_next-Keeps now i none s e h = request_rejected-Keeps now i _ s e h
  request_next-Keeps now i (some r) s e h = elim (Bool-cases (is_last s.m.piece_length r)) [
    | inl last ↦ rw last (
        ask-Once i (first_request now i) (first_request now i)
          (record s { m = record s.m { requests = delete i s.m.requests } }) e h)
    | inr more ↦
        rw more (Keeps-bind (next_request s.m.piece_length r) _ (λ r' _. ask-Once i r' r' s e h))
  ]

  pub request_piece-Keeps : (now i : ℕ) (s : Session Disk) → Once s → Keeps (request_piece now i s)
  unfolding request_piece
  request_piece-Keeps now i s h = elim (Bool-cases s.p.have_req) [
    | inl asked ↦ rw asked (rw asked at h)
    | inr new ↦ simp new (request_next-Keeps now i (lookup i s.m.requests) s new h)
  ]

  -- Choosing a piece leaves the peer and its messages alone.
  abbrev pub Alone : Session Disk → Result HandlerError (Option ℕ × Session Disk) → Type 0
  Alone s (ok r) = (r.1.p ≡ s.p) × (r.1.out ≡ s.out)
  Alone s (err e) = Unit
  Alone s panic = Unit

  scan_pieces-Alone : (now left i : ℕ) (s : Session Disk) → Alone s (scan_pieces now left i s)
  unfolding scan_pieces
  scan_pieces-Alone now zero i s = (refl, refl)
  scan_pieces-Alone now (suc left) i s = ground (arith, scan_pieces-Alone now left (i + 1) s)

  pub select_piece-Alone : (now start : ℕ) (s : Session Disk) → Alone s (select_piece now start s)
  unfolding select_piece
  select_piece-Alone now start s = ground (arith, scan_pieces-Alone now s.m.piece_num start s)

  pub Alone-Once :
      (now start : ℕ) (s : Session Disk) (r : Option ℕ × Session Disk)
      → select_piece now start s ≡ ok r
      → Once s
      → Once r.1
  Alone-Once now start s r e h =
      let alone : (r.1.p ≡ s.p) × (r.1.out ≡ s.out) = rw e at (select_piece-Alone now start s) in
      rw (alone.0, alone.1) h
