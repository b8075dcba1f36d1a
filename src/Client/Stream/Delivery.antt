-- ===== src/Client/Stream/Delivery.antt =====
-- client/stream.go: what a sender and a receiver have achieved in every state of their link.
use mathlib.Core.List.{Mem, Memᴰ, Sublistᴰ, reverse-cons, mem-reverse}
use mulsigo.Prelude.{
  ◌+◌, ◌<◌, ◌≤◌, ◌^◌, length, length-append, none, ℕ, suc, ◌-◌, ◌≡◌, refl, some, List, [], ◌∷◌,
  ◌++◌, Bytes, reverse, All, get_elem?, arith, sym, subst, take,
}
use mulsigo.Client.Stream.{ReliablePacket}
use mulsigo.Client.Stream.Link.{
  Link, new_link, send_link, resend_link, wake_link, finish_link, data_link, ack_link, Step, sends,
  resends, wakes, finishes, data_arrives, ack_arrives, receiver_pushes, sender_pushes,
  user_receives, Reach, here, next,
}
use mulsigo.Client.Stream.Invariant.{
  SentOk, AckOk, in_hand, newest, Descending, contents, numbers, LinkOk, new_link-LinkOk, All-Memᴰ,
}
use mulsigo.Client.Stream.Sender.{sends-LinkOk, resends-LinkOk, wakes-LinkOk, finishes-LinkOk}
use mulsigo.Client.Stream.Receiver.{
  ack_link_lem, ack_hand-LinkOk, receiver_pushes-LinkOk, sender_pushes-LinkOk, user_receives-LinkOk,
  data_arrives-LinkOk,
}
use mulsigo.Client.Stream.Sublists.{extend-sublist, sublist_of_take}

-- Nothing is taken out of the log.
log_grows : {l m : Link} → Step l m → length l.log ≤ length m.log
unfolding send_link resend_link wake_link finish_link data_link ack_link
log_grows (sends l b h) = omega (arith, length-append l.log (b ∷ []))
log_grows (resends l p ws h) = omega arith
log_grows (wakes l p ws n rest h q) = omega arith
log_grows (finishes l p ws f none h q r) = omega arith
log_grows (finishes l p ws f (some e) h q r) = omega arith
log_grows (data_arrives l p m h) = omega arith
log_grows (ack_arrives l p m h) = omega arith
log_grows (receiver_pushes l r h) = omega arith
log_grows (sender_pushes l s h) = omega arith
log_grows (user_receives l b r h) = omega arith

sends_small :
    (l : Link) (b : Bytes) → length (send_link l b).log < 2 ^ 32 → length l.log + 1 < 2 ^ 32
unfolding send_link
sends_small l b h = omega (arith, h, length-append l.log (b ∷ []))

Step-LinkOk : {l m : Link} → Step l m → length m.log < 2 ^ 32 → LinkOk l → LinkOk m
Step-LinkOk (sends l b h) s v = sends-LinkOk l b h (sends_small l b s) v
Step-LinkOk (resends l p ws h) few v = resends-LinkOk l p ws h v
Step-LinkOk (wakes l p ws n rest h q) few v = wakes-LinkOk l p ws n rest h q v
Step-LinkOk (finishes l p ws f e h q r) few v = finishes-LinkOk l p ws f e h q r v
Step-LinkOk (data_arrives l p m h) few v = data_arrives-LinkOk l p m h v
Step-LinkOk (ack_arrives l p m h) few v =
    let a = All-Memᴰ (AckOk l.receiver.last_ackd) l.receiver_sent v.acks_ok m in
    rw (ack_link_lem l p a.0) (ack_hand-LinkOk l p a v)
Step-LinkOk (receiver_pushes l r h) few v = receiver_pushes-LinkOk l l.receiver.pending r refl h v
Step-LinkOk (sender_pushes l s h) few v = sender_pushes-LinkOk l l.sender.pending s refl h v
Step-LinkOk (user_receives l b r h) few v = user_receives-LinkOk l b l.receiver.inbox r refl h v

pub Reach-LinkOk : {l : Link} → Reach new_link l → length l.log < 2 ^ 32 → LinkOk l
Reach-LinkOk here few = new_link-LinkOk
Reach-LinkOk (next past s) few =
    Step-LinkOk s few (Reach-LinkOk past (omega (arith, log_grows s, few)))

-- What the receiver has taken from the sender: its user has it, or will find it in `dataCh`.
abbrev pub taken : Link → List Bytes
taken l = l.received ++ (l.receiver.inbox ++ in_hand l.receiver.pending)

accepted-sublist :
    (log : List Bytes) (ps : List ReliablePacket)
    → Descending ps
    → All (SentOk log) ps
    → Sublistᴰ (reverse (contents ps)) (take (newest ps) log)
accepted-sublist log [] d s = Sublistᴰ.slnil
accepted-sublist log (p ∷ ps) d s =
    let n : p.sequence ≡ suc (p.sequence - 1) = omega (arith, s.0.1) in
    rw (reverse-cons p.content (contents ps)) (
      subst (λ k. Sublistᴰ (reverse (contents ps) ++ p.content ∷ []) (take k log)) (sym n)
        (extend-sublist (accepted-sublist log ps d.1 s.1) log (newest ps) (p.sequence - 1) refl
          (omega (arith, d.0)) s.0.3))

-- As long as fewer than 2 ^ 32 messages have been sent, over a network that may lose, repeat and
-- reorder packets, what the receiver takes is a sublist of what the sender's user has sent: in the
-- order of sending, nothing twice, and nothing made up.
pub taken-sublist : {l : Link} → Reach new_link l → length l.log < 2 ^ 32 → Sublistᴰ (taken l) l.log
taken-sublist {l} past few =
    let v = Reach-LinkOk past few in
    subst (λ k. Sublistᴰ k l.log) (sym v.in_order)
      (sublist_of_take (newest l.accepted) l.log
        (accepted-sublist l.log l.accepted v.descending v.accepted_ok) refl)

numbered :
    (log : List Bytes) (ps : List ReliablePacket) (n : ℕ)
    → All (SentOk log) ps
    → Memᴰ n (numbers ps)
    → (b : Bytes) × (get_elem? log (n - 1) ≡ some b) × Memᴰ b (contents ps)
numbered log [] n h m = elim m [ ]
numbered log (p ∷ ps) n h (Memᴰ.head e) =
    (p.content, subst (λ k. get_elem? log (k - 1) ≡ some p.content) (sym e) h.0.3, Memᴰ.head refl)
numbered log (p ∷ ps) n h (Memᴰ.tail m) =
    let (b, at, there) = numbered log ps n h.1 m in (b, at, Memᴰ.tail there)

-- As long as fewer than 2 ^ 32 messages have been sent, over such a network: if the n-th send has
-- returned nil, then the receiver has taken its message.
pub confirmed-taken :
    {l : Link} (n : ℕ)
    → Reach new_link l
    → length l.log < 2 ^ 32
    → Memᴰ n l.confirmed
    → (b : Bytes) × (get_elem? l.log (n - 1) ≡ some b) × Mem b (taken l)
confirmed-taken {l} n past few m =
    let v = Reach-LinkOk past few in
    let there = All-Memᴰ (λ k. Memᴰ k (numbers l.accepted)) l.confirmed v.confirmed_ok m in
    let (b, at, inside) = numbered l.log l.accepted n v.accepted_ok there in
    (b, at, subst (Mem b) (sym v.in_order) (mem-reverse.1 ∣ inside ∣₁))
