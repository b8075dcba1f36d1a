-- ===== src/Client/Stream/Progress.antt =====
-- client/stream.go: any messages, one after the other, over a network that lets them through.
use mulsigo.Prelude.{
  ◌+◌, ◌^◌, ◌<◌, ◌≡◌, refl, sym, ap, subst, ◌∙◌, List, [], ◌∷◌, ◌++◌, Bytes, length, arith,
  append_assoc, append-nil, length-append,
}
use mulsigo.Client.Stream.{is_listening, receive_data}
use mulsigo.Client.Stream.Link.{Link, new_link, Step, user_receives, Reach, here, next}
use mulsigo.Client.Stream.Delivery.{Reach-LinkOk}
use mulsigo.Client.Stream.Completes.{IsQuiet, listens_idle, send_completes, Reach-append, completed}

-- The link after the user has received what stands in `dataCh`.
abbrev drained : Link → List Bytes → Link
drained l inbox = record l {
  receiver = record (l.receiver) { inbox = [] };
  received = l.received ++ inbox;
}

drain : (inbox : List Bytes) (l : Link) → l.receiver.inbox ≡ inbox → Reach l (drained l inbox)
unfolding receive_data
drain [] l held = subst (Reach l) (ground (arith, held, append-nil l.received)) here
drain (b ∷ inbox) l held =
    let r = record (l.receiver) { inbox = inbox } in
    let l' = record l { receiver = r; received = l.received ++ b ∷ [] } in
    let s : Step l l' = user_receives l b r (ground (arith, held)) in
    Reach-append (next here s) (
      subst (λ bs. Reach l' (record (drained l' []) { received = bs }))
        (append_assoc l.received (b ∷ []) inbox) (drain inbox l' refl))

completed-IsQuiet : (l : Link) (b : Bytes) → IsQuiet l → IsQuiet (completed l b)
unfolding is_listening
completed-IsQuiet l b q = record {
  no_send = refl;
  hears_acks = ground (arith, (listens_idle l.sender q.hears_acks).0);
  hears_data = ground (arith, (listens_idle l.receiver q.hears_data).0);
  few_acks = omega arith;
}

drained-IsQuiet : (l : Link) (inbox : List Bytes) → IsQuiet l → IsQuiet (drained l inbox)
unfolding is_listening
drained-IsQuiet l inbox q = record {
  no_send = q.no_send;
  hears_acks = q.hears_acks;
  hears_data = q.hears_data;
  few_acks = q.few_acks;
}

-- From every state that the protocol reaches over a bad network in which no send is open, both
-- goroutines are ready for a packet and `ackCh` has room, whatever acknowledgements are left in it,
-- and for any further messages, fewer than 2 ^ 32 in all: there are steps after which the state is
-- again of that kind, these messages are sent, one more send for each has returned nil, and the
-- receiver's user has got what stood in `dataCh` and then these messages, in order.
pub messages_can_arrive :
    (bs : List Bytes) {l : Link}
    → Reach new_link l
    → IsQuiet l
    → length l.log + length bs < 2 ^ 32
    → (m : Link) × Reach l m
      × IsQuiet m
      × (m.log ≡ l.log ++ bs)
      × (m.received ≡ l.received ++ (l.receiver.inbox ++ bs))
      × (length m.confirmed ≡ length l.confirmed + length bs)
messages_can_arrive [] {l} past q small = (
  drained l l.receiver.inbox,
  drain l.receiver.inbox l refl,
  drained-IsQuiet l l.receiver.inbox q,
  sym (append-nil l.log),
  ap (◌++◌ l.received) (sym (append-nil l.receiver.inbox)),
  omega arith,
)
messages_can_arrive (b ∷ bs) {l} past q small =
    let d = drained l l.receiver.inbox in
    let to_d : Reach l d = drain l.receiver.inbox l refl in
    let c = completed d b in
    let quiet_d = drained-IsQuiet l l.receiver.inbox q in
    let to_c : Reach l c = Reach-append to_d (
      send_completes d b (Reach-LinkOk (Reach-append past to_d) (omega (arith, small))) quiet_d
        (omega (arith, small)) (omega arith)) in
    let (m, to_m, quiet, sends_all, gets_all, confirms) =
      messages_can_arrive bs {l = c} (Reach-append past to_c) (completed-IsQuiet d b quiet_d)
        (omega (arith, small, length-append l.log (b ∷ []))) in
    (
      m,
      Reach-append to_c to_m,
      quiet,
      sends_all ∙ append_assoc l.log (b ∷ []) bs,
      gets_all ∙ append_assoc l.received l.receiver.inbox (b ∷ bs),
      omega (arith, confirms),
    )
