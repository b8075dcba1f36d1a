-- ===== src/Network/Local/Order.antt =====
-- network/local.go: the messages to an endpoint are a queue.
use mulsigo.Prelude.{
  ◌≡◌, sym, ap, ◌∙◌, true, Option, none, some, List, [], ◌∷◌, ◌++◌, Bytes, Map, lookup, insert,
  ◌==◌, list_eq, nat_eq, pair_eq, ok, if◌then◌else◌, arith, lookup-insert, append_assoc, ==_iff,
  Option-cases, List-cases, append-nil, inl, inr,
}
use mulsigo.Network.Local.{
  Endpoint, Error, LocalConn, LocalManager, send, close, close_channels, start_round, receive,
  round_at, receive_at,
}

abbrev hand : Option Bytes → List Bytes
hand none = []
hand (some m) = m ∷ []

-- What an object holds, oldest first, with the message in the goroutine's hand, and what the object of an endpoint holds.
abbrev pub held : Option LocalConn → List Bytes
held none = []
held (some c) = (c.outgoing ++ hand c.in_hand) ++ c.incoming

abbrev pub queue_at : LocalManager → Endpoint → List Bytes
queue_at lm e = held (lookup e lm.heap)

-- From a state in which nothing is queued for the endpoint `e`: what was sent to it, and what its
-- owner has received, in order, while all endpoints send, receive and close and goroutines run.
pub data Traffic (e : Endpoint) : LocalManager → List Bytes → List Bytes → Type 0 where
  starts : (lm : LocalManager) → queue_at lm e ≡ [] → Traffic e lm [] []
  sends :
      {lm lm' : LocalManager} {s r : List Bytes} (to : Endpoint) (m : Bytes)
      → Traffic e lm s r
      → send lm to m ≡ some (lm', none)
      → Traffic e lm' (if to == e then s ++ m ∷ [] else s) r
  moves :
      {lm lm' : LocalManager} {s r : List Bytes} (at : Endpoint)
      → Traffic e lm s r
      → round_at lm at ≡ some lm'
      → Traffic e lm' s r
  receives :
      {lm lm' : LocalManager} {s r : List Bytes} {m : Bytes} (at : Endpoint)
      → Traffic e lm s r
      → receive_at lm at ≡ some (ok m, lm')
      → Traffic e lm' s (if at == e then r ++ m ∷ [] else r)
  closes :
      {lm lm' : LocalManager} {s r : List Bytes} {error : Option Error} (local remote : Endpoint)
      → Traffic e lm s r
      → close lm local remote ≡ some (lm', error)
      → Traffic e lm' s r

-- A write at an endpoint.
write_held :
    (heap : Map Endpoint LocalConn) (at e : Endpoint) (c c' : LocalConn)
    → lookup at heap ≡ some c
    → (held (lookup e (insert at c' heap))
        ≡ (if at == e then held (some c') else held (lookup e heap)))
      × ((at == e) ≡ true → held (lookup e heap) ≡ held (some c))
write_held heap at e c c' found = (
  ground (arith, lookup-insert at e c' heap),
  λ same. ap held (ap (λ k. lookup k heap) (sym ((==_iff at e).0 same)) ∙ found),
)

send_held :
    (lm : LocalManager) (to e : Endpoint) (m : Bytes) {lm' : LocalManager}
    → send lm to m ≡ some (lm', none)
    → queue_at lm' e ≡ (if to == e then queue_at lm e ++ m ∷ [] else queue_at lm e)
unfolding send
send_held lm to e m h = elim (Option-cases (lookup to lm.heap)) [
  | inl missing ↦ ground arith
  | inr (c, found) ↦
      let c' = record c { incoming = c.incoming ++ m ∷ [] } in
      let (new, old) = write_held lm.heap to e c c' found in
      ground (arith, new, old, append_assoc (c.outgoing ++ hand c.in_hand) c.incoming (m ∷ []))
]

start_round_held :
    (c : LocalConn) {c' : LocalConn} → start_round c ≡ some c' → held (some c') ≡ held (some c)
unfolding start_round
start_round_held c h = elim (Option-cases c.in_hand) [
  | inl free ↦ elim (List-cases c.incoming) [
    | inl empty ↦ ground arith
    | inr (m, rest, full) ↦
        ground (arith, append_assoc c.outgoing (m ∷ []) rest, append-nil c.outgoing)
  ]
  | inr (m, has_it) ↦ ground (arith, append-nil (c.outgoing ++ m ∷ []))
]

receive_held :
    (c : LocalConn) {c' : LocalConn} {m : Bytes}
    → receive c ≡ some (ok m, c')
    → held (some c) ≡ m ∷ held (some c')
unfolding receive
receive_held c h = ground arith

round_at_held :
    (lm : LocalManager) (at e : Endpoint) {lm' : LocalManager}
    → round_at lm at ≡ some lm'
    → queue_at lm' e ≡ queue_at lm e
unfolding round_at
round_at_held lm at e h = elim (Option-cases (lookup at lm.heap)) [
  | inl missing ↦ ground arith
  | inr (c, found) ↦ elim (Option-cases (start_round c)) [
    | inl waits ↦ ground arith
    | inr (c', goes) ↦
        let (new, old) = write_held lm.heap at e c c' found in
        ground (arith, new, old, start_round_held c goes)
  ]
]

receive_at_held :
    (lm : LocalManager) (at e : Endpoint) {lm' : LocalManager} {m : Bytes}
    → receive_at lm at ≡ some (ok m, lm')
    → queue_at lm e ≡ (if at == e then m ∷ queue_at lm' e else queue_at lm' e)
unfolding receive_at
receive_at_held lm at e {m = m} h = elim (Option-cases (lookup at lm.heap)) [
  | inl missing ↦ ground arith
  | inr (c, found) ↦ elim (Option-cases (receive c)) [
    | inl waits ↦ ground arith
    | inr ((x, c'), goes) ↦
        let (new, old) = write_held lm.heap at e c c' found in
        let taken : receive c ≡ some (ok m, c') = ground arith in
        ground (arith, new, old, receive_held c taken)
  ]
]

close_channels_held :
    (heap : Map Endpoint LocalConn) (at e : Endpoint) {heap' : Map Endpoint LocalConn}
    → close_channels heap at ≡ some heap'
    → held (lookup e heap') ≡ held (lookup e heap)
unfolding close_channels
close_channels_held heap at e h = elim (Option-cases (lookup at heap)) [
  | inl missing ↦ ground arith
  | inr (c, found) ↦ elim (Option-cases c.in_hand) [
    | inl free ↦
        let (new, old) = write_held heap at e c (record c { is_closed = true }) found in
        ground (arith, new, old)
    | inr (m, has_it) ↦ ground arith
  ]
]

close_held :
    (lm : LocalManager) (local remote e : Endpoint) {lm' : LocalManager} {error : Option Error}
    → close lm local remote ≡ some (lm', error)
    → queue_at lm' e ≡ queue_at lm e
unfolding close
close_held lm local remote e h = elim (Option-cases (close_channels lm.heap local)) [
  | inl waits ↦ ground arith
  | inr (heap, goes) ↦ elim (Option-cases (close_channels heap remote)) [
    | inl waits ↦ ground (arith, close_channels_held lm.heap local e goes)
    | inr (heap', goes') ↦
        ground
          (arith, close_channels_held lm.heap local e goes, close_channels_held heap remote e goes')
  ]
]

-- What was sent to an endpoint is, in order, what its owner has received, then what the queue to the
-- owner, the goroutine's hand and the incoming queue of its connection hold: nothing is repeated,
-- reordered or mixed with the messages to other endpoints, also when connections are closed. (Whether
-- what is held is ever received is not said: what is in the incoming queue at a close is not.)
pub Traffic-order :
    {e : Endpoint} {lm : LocalManager} {s r : List Bytes}
    → Traffic e lm s r
    → s ≡ r ++ queue_at lm e
Traffic-order (starts lm h) = sym h
Traffic-order {e} (sends {lm = lm} {s = s} {r = r} to m past h) =
    ground
      (arith, Traffic-order past, send_held lm to e m h, append_assoc r (queue_at lm e) (m ∷ []))
Traffic-order {e} (moves {lm = lm} {r = r} at past h) =
    Traffic-order past ∙ ap (◌++◌ r) (sym (round_at_held lm at e h))
Traffic-order {e} (receives {lm = lm} {lm' = lm'} {s = s} {r = r} {m = m} at past h) =
    ground (
      arith,
      Traffic-order past,
      receive_at_held lm at e h,
      append_assoc r (m ∷ []) (queue_at lm' e),
    )
Traffic-order {e} (closes {lm = lm} {r = r} local remote past h) =
    Traffic-order past ∙ ap (◌++◌ r) (sym (close_held lm local remote e h))
