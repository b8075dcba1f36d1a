-- ===== src/Client/Stream/Receiver.antt =====
-- client/stream.go: the steps of the two goroutines and of the receiver's user keep the invariant of
-- the link.
use mathlib.Core.List.{Memᴰ, reverse-cons}
use mulsigo.Prelude.{
  ℕ, ◌≤◌, ◌<◌, ◌≡◌, refl, Option, none, some, true, false, List, [], ◌∷◌, ◌++◌, Bytes, leb, reverse,
  All-append, arith, subst, append_assoc, append-nil, Bool-cases, inl, inr,
}
use mulsigo.Client.Stream.{
  reliable_data, reliable_ack, ReliablePacket, ReliableStream, machine_receive, is_listening,
  Pending, idle, push_data, push_ack, machine_push, receive_data, Wakeup, acked, timed_out, errored,
  stopped, ack_packet,
}
use mulsigo.Client.Stream.Link.{Link, data_link, ack_link}
use mulsigo.Client.Stream.Invariant.{
  SentOk, AckOk, WakeOk, HandOk, OpenOk, NoAck, in_hand, contents, numbers, LinkOk, All-Memᴰ,
  All-map,
}

pub AckOk-mono : (m n : ℕ) → m ≤ n → (p : ReliablePacket) → AckOk m p → AckOk n p
AckOk-mono m n h p a = (a.0, omega arith)

pub WakeOk-mono : (m n : ℕ) → m ≤ n → (w : Wakeup) → WakeOk m w → WakeOk n w
WakeOk-mono m n h (acked k) a = omega arith
WakeOk-mono m n h errored a = tt
WakeOk-mono m n h stopped a = tt
WakeOk-mono m n h (timed_out e) a = tt

pub HandOk-mono : (m n : ℕ) → m ≤ n → (q : Pending) → HandOk m q → HandOk n q
HandOk-mono m n h idle a = tt
HandOk-mono m n h (push_data b) a = a
HandOk-mono m n h (push_ack k) a = omega arith

pub OpenOk-mono :
    (log : List Bytes) (m n : ℕ)
    → m ≤ n
    → (o : Option (ReliablePacket × List Wakeup)) → OpenOk log m o
    → OpenOk log n o
OpenOk-mono log m n h none a = tt
OpenOk-mono log m n h (some (p, ws)) a =
    (a.0, a.1, All-map (WakeOk m) (WakeOk n) (WakeOk-mono m n h) ws a.2)

pub is_listening-idle : (r : ReliableStream) → is_listening r ≡ true → r.pending ≡ idle
unfolding is_listening
is_listening-idle r h = ground arith

pub old_link : Link → ReliablePacket → Link
old_link l p = record l { receiver_sent = ack_packet p.sequence ∷ l.receiver_sent }

pub new_link_of : Link → ReliablePacket → Link
new_link_of l p = record l {
  receiver = record (l.receiver) { last_ackd = p.sequence; pending = push_data p.content };
  receiver_sent = ack_packet p.sequence ∷ l.receiver_sent;
  accepted = p ∷ l.accepted;
}

pub ack_hand_link : Link → ReliablePacket → Link
ack_hand_link l p = record l { sender = record (l.sender) { pending = push_ack p.sequence } }

-- A packet that was taken before, or is older than the newest one taken: only its ACK is new.
pub data_link_old :
    (l : Link) (p : ReliablePacket)
    → p.kind ≡ reliable_data
    → leb p.sequence l.receiver.last_ackd ≡ true
    → data_link l p ≡ old_link l p
unfolding data_link machine_receive old_link
data_link_old l p k old = ground arith

pub data_link_new :
    (l : Link) (p : ReliablePacket)
    → p.kind ≡ reliable_data
    → leb p.sequence l.receiver.last_ackd ≡ false
    → data_link l p ≡ new_link_of l p
unfolding data_link machine_receive new_link_of
data_link_new l p k new = ground arith

pub ack_link_lem :
    (l : Link) (p : ReliablePacket) → p.kind ≡ reliable_ack → ack_link l p ≡ ack_hand_link l p
unfolding ack_link machine_receive ack_hand_link
ack_link_lem l p k = ground arith

pub old-LinkOk :
    (l : Link) (p : ReliablePacket)
    → p.sequence ≤ l.receiver.last_ackd
    → LinkOk l
    → LinkOk (old_link l p)
unfolding old_link
old-LinkOk l p old v = ground arith

pub in_order-cons :
    (got inbox acc : List Bytes) (c : Bytes)
    → got ++ (inbox ++ []) ≡ reverse acc
    → got ++ (inbox ++ c ∷ []) ≡ reverse (c ∷ acc)
in_order-cons got inbox acc c h = rw (reverse-cons c acc, ← h) (simp (append-nil, append_assoc))

pub new-LinkOk :
    (l : Link) (p : ReliablePacket)
    → SentOk l.log p
    → l.receiver.last_ackd < p.sequence
    → l.receiver.pending ≡ idle
    → LinkOk l
    → LinkOk (new_link_of l p)
unfolding new_link_of
new-LinkOk l p s new h v =
    let last = l.receiver.last_ackd in
    let up : last ≤ p.sequence = omega arith in
    record {
      counted = v.counted;
      small = v.small;
      sent_ok = v.sent_ok;
      acks_ok = (
        (refl, omega arith),
        All-map (AckOk last) (AckOk p.sequence) (AckOk-mono last p.sequence up) l.receiver_sent
            v.acks_ok,
      );
      queue_ok =
          All-map (λ n. n ≤ last) (λ n. n ≤ p.sequence) (λ n k. omega arith) l.sender.acks
            v.queue_ok;
      hand_ok = HandOk-mono last p.sequence up l.sender.pending v.hand_ok;
      no_ack = tt;
      open_ok = OpenOk-mono l.log last p.sequence up l.open_send v.open_ok;
      last_ok = refl;
      descending = (omega (arith, v.last_ok), v.descending);
      accepted_ok = (s, v.accepted_ok);
      in_order = in_order-cons l.received l.receiver.inbox (contents l.accepted) p.content (
          subst (λ q. l.received ++ (l.receiver.inbox ++ in_hand q) ≡ reverse (contents l.accepted))
            h v.in_order);
      confirmed_ok =
          All-map (λ n. Memᴰ n (numbers l.accepted)) (λ n. Memᴰ n (numbers (p ∷ l.accepted)))
            (λ n m. Memᴰ.tail m) l.confirmed v.confirmed_ok;
    }

pub ack_hand-LinkOk :
    (l : Link) (p : ReliablePacket)
    → AckOk l.receiver.last_ackd p
    → LinkOk l
    → LinkOk (ack_hand_link l p)
unfolding ack_hand_link
ack_hand-LinkOk l p a v = ground arith

pub receiver_data-LinkOk :
    (l : Link) (b : Bytes)
    → l.receiver.pending ≡ push_data b
    → LinkOk l
    → LinkOk (record l {
      receiver = record (l.receiver) { inbox = l.receiver.inbox ++ b ∷ []; pending = idle };
    })
receiver_data-LinkOk l b h v = ground (arith, append_assoc l.receiver.inbox (b ∷ []) [])

pub sender_ack-LinkOk :
    (l : Link) (n : ℕ)
    → l.sender.pending ≡ push_ack n
    → LinkOk l
    → LinkOk
        (record l { sender = record (l.sender) { acks = l.sender.acks ++ n ∷ []; pending = idle } })
sender_ack-LinkOk l n h v =
    let k = subst (HandOk l.receiver.last_ackd) h v.hand_ok in
    ground
      (arith, All-append (λ n. n ≤ l.receiver.last_ackd) l.sender.acks (n ∷ []) v.queue_ok (k, tt))

pub receive-LinkOk :
    (l : Link) (b : Bytes) (rest : List Bytes)
    → l.receiver.inbox ≡ b ∷ rest
    → LinkOk l
    → LinkOk (record l {
      receiver = record (l.receiver) { inbox = rest };
      received = l.received ++ b ∷ [];
    })
receive-LinkOk l b rest h v =
    ground (arith, append_assoc l.received (b ∷ []) (rest ++ in_hand l.receiver.pending))

pub receiver_pushes-LinkOk :
    (l : Link) (q : Pending) (r : ReliableStream)
    → l.receiver.pending ≡ q
    → machine_push l.receiver ≡ some r
    → LinkOk l
    → LinkOk (record l { receiver = r })
unfolding machine_push
receiver_pushes-LinkOk l idle r e h v = ground arith
receiver_pushes-LinkOk l (push_data b) r e h v =
    let same : record (l.receiver) { inbox = l.receiver.inbox ++ b ∷ []; pending = idle } ≡ r =
      ground arith in
    subst (λ r. LinkOk (record l { receiver = r })) same (receiver_data-LinkOk l b e v)
receiver_pushes-LinkOk l (push_ack n) r e h v = absurd (subst NoAck e v.no_ack)

pub sender_pushes-LinkOk :
    (l : Link) (q : Pending) (s : ReliableStream)
    → l.sender.pending ≡ q
    → machine_push l.sender ≡ some s
    → LinkOk l
    → LinkOk (record l { sender = s })
unfolding machine_push
sender_pushes-LinkOk l idle s e h v = ground arith
sender_pushes-LinkOk l (push_ack n) s e h v =
    let same : record (l.sender) { acks = l.sender.acks ++ n ∷ []; pending = idle } ≡ s =
      ground arith in
    subst (λ s. LinkOk (record l { sender = s })) same (sender_ack-LinkOk l n e v)
sender_pushes-LinkOk l (push_data b) s e h v =
    absurd (subst (HandOk l.receiver.last_ackd) e v.hand_ok)

pub user_receives-LinkOk :
    (l : Link) (b : Bytes) (q : List Bytes) (r : ReliableStream)
    → l.receiver.inbox ≡ q
    → receive_data l.receiver ≡ some (b, r)
    → LinkOk l
    → LinkOk (record l { receiver = r; received = l.received ++ b ∷ [] })
unfolding receive_data
user_receives-LinkOk l b [] r e h v = ground arith
user_receives-LinkOk l b (c ∷ rest) r e h v =
    let first : c ≡ b = ground arith in
    let same : record (l.receiver) { inbox = rest } ≡ r = ground arith in
    subst (λ r. LinkOk (record l { receiver = r; received = l.received ++ b ∷ [] })) same
      (receive-LinkOk l b rest (rw (← first) e) v)

pub data_arrives-LinkOk :
    (l : Link) (p : ReliablePacket)
    → Memᴰ p l.sender_sent
    → is_listening l.receiver ≡ true
    → LinkOk l
    → LinkOk (data_link l p)
data_arrives-LinkOk l p m h v =
    let s = All-Memᴰ (SentOk l.log) l.sender_sent v.sent_ok m in
    elim (Bool-cases (leb p.sequence l.receiver.last_ackd)) [
      | inl old ↦ rw (data_link_old l p s.0 old) (old-LinkOk l p (ground arith) v)
      | inr new ↦
          rw (data_link_new l p s.0 new)
            (new-LinkOk l p s (ground arith) (is_listening-idle l.receiver h) v)
    ]
