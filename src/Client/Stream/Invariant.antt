-- ===== src/Client/Stream/Invariant.antt =====
-- client/stream.go: the invariant of a sender and a receiver over their network.
use mathlib.Core.List.{Memᴰ}
use mulsigo.Prelude.{
  ℕ, ◌-◌, ◌^◌, ◌≤◌, ◌<◌, ◌≡◌, refl, Option, none, some, List, [], ◌∷◌, ◌++◌, Bytes, length, map,
  reverse, All, get_elem?, arith, sym, subst,
}
use mulsigo.Client.Stream.{
  reliable_data, reliable_ack, ReliablePacket, new_reliable_stream, Pending, idle, push_data,
  push_ack, Wakeup, acked, timed_out, errored, stopped,
}
use mulsigo.Client.Stream.Link.{Link, new_link}

-- The packet carries the entry of the log at its number, counted from 1.
abbrev pub SentOk : List Bytes → ReliablePacket → Type 0
SentOk log p =
    (p.kind ≡ reliable_data)
    × (1 ≤ p.sequence)
    × (p.sequence ≤ length log)
    × (get_elem? log (p.sequence - 1) ≡ some p.content)

abbrev pub AckOk : ℕ → ReliablePacket → Type 0
AckOk last p = (p.kind ≡ reliable_ack) × (p.sequence ≤ last)

abbrev pub WakeOk : ℕ → Wakeup → Type 0
WakeOk last (acked n) = n ≤ last
WakeOk last errored = Unit
WakeOk last stopped = Unit
WakeOk last (timed_out e) = Unit

abbrev pub HandOk : ℕ → Pending → Type 0
HandOk last idle = Unit
HandOk last (push_data b) = ⊥
HandOk last (push_ack n) = n ≤ last

abbrev pub OpenOk : List Bytes → ℕ → Option (ReliablePacket × List Wakeup) → Type 0
OpenOk log last none = Unit
OpenOk log last (some (p, ws)) = (p.sequence ≡ length log) × SentOk log p × All (WakeOk last) ws

abbrev pub NoAck : Pending → Type 0
NoAck idle = Unit
NoAck (push_data b) = Unit
NoAck (push_ack n) = ⊥

abbrev pub in_hand : Pending → List Bytes
in_hand idle = []
in_hand (push_data b) = b ∷ []
in_hand (push_ack n) = []

abbrev pub newest : List ReliablePacket → ℕ
newest [] = 0
newest (p ∷ ps) = p.sequence

-- Strictly falling sequence numbers.
abbrev pub Descending : List ReliablePacket → Type 0
Descending [] = Unit
Descending (p ∷ ps) = (newest ps < p.sequence) × Descending ps

abbrev pub contents : List ReliablePacket → List Bytes
contents = map (λ p. p.content)

abbrev pub numbers : List ReliablePacket → List ℕ
numbers = map (λ p. p.sequence)

pub record LinkOk (l : Link) : Type 0 where
  pub counted : l.sender.sequence ≡ length l.log
  pub small : length l.log < 2 ^ 32
  pub sent_ok : All (SentOk l.log) l.sender_sent
  pub acks_ok : All (AckOk l.receiver.last_ackd) l.receiver_sent
  pub queue_ok : All (λ n. n ≤ l.receiver.last_ackd) l.sender.acks
  pub hand_ok : HandOk l.receiver.last_ackd l.sender.pending
  pub no_ack : NoAck l.receiver.pending
  pub open_ok : OpenOk l.log l.receiver.last_ackd l.open_send
  pub last_ok : l.receiver.last_ackd ≡ newest l.accepted
  pub descending : Descending l.accepted
  pub accepted_ok : All (SentOk l.log) l.accepted
  pub in_order :
      l.received ++ (l.receiver.inbox ++ in_hand l.receiver.pending) ≡ reverse (contents l.accepted)
  pub confirmed_ok : All (λ n. Memᴰ n (numbers l.accepted)) l.confirmed

pub new_link-LinkOk : LinkOk new_link
unfolding new_link new_reliable_stream
new_link-LinkOk = record {
  counted = refl;
  small = omega arith;
  sent_ok = tt;
  acks_ok = tt;
  queue_ok = tt;
  hand_ok = tt;
  no_ack = tt;
  open_ok = tt;
  last_ok = refl;
  descending = tt;
  accepted_ok = tt;
  in_order = refl;
  confirmed_ok = tt;
}

module _ {A : Type 0} (P : A → Type 0) where
  pub All-Memᴰ : (xs : List A) {x : A} → All P xs → Memᴰ x xs → P x
  All-Memᴰ [] h m = elim m [ ]
  All-Memᴰ (y ∷ xs) h (Memᴰ.head e) = subst P (sym e) h.0
  All-Memᴰ (y ∷ xs) h (Memᴰ.tail m) = All-Memᴰ xs h.1 m

  pub All-map : (Q : A → Type 0) → ((x : A) → P x → Q x) → (xs : List A) → All P xs → All Q xs
  All-map Q f [] h = tt
  All-map Q f (x ∷ xs) h = (f x h.0, All-map Q f xs h.1)
