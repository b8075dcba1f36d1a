-- ===== src/Client/Stream/Completes.antt =====
-- client/stream.go: one send of a message, over a network that lets its packets through.
use mathlib.Core.List.{Memᴰ}
use mulsigo.Prelude.{
  ℕ, ◌+◌, ◌^◌, ◌≤◌, ◌<◌, ◌≡◌, refl, subst, Option, none, some, true, false, List, [], ◌∷◌, ◌++◌,
  Bytes, length, map, All, arith, append_assoc, append-nil,
}
use mulsigo.Client.Stream.{
  Error, closed, ReliablePacket, ReliableStream, machine_receive, is_listening, reliable_data,
  reliable_message_buffer, max_incorrect_messages, idle, push_data, push_ack, ack_packet, Wakeup,
  machine_push, begin_send, acked, returned, wait_ack, on_data,
}
use mulsigo.Client.Stream.Link.{
  Link, send_link, wake_link, finish_link, data_link, ack_link, Step, sends, wakes, finishes,
  data_arrives, ack_arrives, receiver_pushes, sender_pushes, Reach, here, next,
}
use mulsigo.Client.Stream.Invariant.{LinkOk, SentOk, newest}

-- No send is open, both goroutines are ready for a packet, and `ackCh` has room.
pub record IsQuiet (l : Link) : Type 0 where
  pub no_send : l.open_send ≡ none
  pub hears_acks : is_listening l.sender ≡ true
  pub hears_data : is_listening l.receiver ≡ true
  pub few_acks : length l.sender.acks < reliable_message_buffer

-- A reading of `ackCh` that ends with the acknowledgement confirms the send.
acks_confirm :
    (failure : Option Error) (n i : ℕ) (stale : List ℕ)
    → i + length stale < max_incorrect_messages
    → (wait_ack failure n i (map acked (stale ++ n ∷ []))).0 ≡ returned none
unfolding wait_ack
acks_confirm failure n i [] few = ground (arith, few)
acks_confirm failure n i (k ∷ stale) few = ground (arith, few, acks_confirm failure n (i + 1) stale)

newest_bound :
    (log : List Bytes) (ps : List ReliablePacket) → All (SentOk log) ps → newest ps ≤ length log
newest_bound log [] h = omega arith
newest_bound log (p ∷ ps) h = h.0.2

pub Reach-append : {l m n : Link} → Reach l m → Reach m n → Reach l n
Reach-append past here = past
Reach-append past (next more s) = next (Reach-append past more) s

-- The number and the packet of the next send.
abbrev number : Link → ℕ
number l = length l.log + 1

abbrev packet_of : Link → Bytes → ReliablePacket
packet_of l b = record { kind = reliable_data; sequence = number l; content = b }

-- The link after a send, after its packet has arrived and its bytes stand in `dataCh`, and after the
-- acknowledgement has arrived and stands in `ackCh`.
abbrev sent : Link → Bytes → Link
sent l b = record l {
  sender = record (l.sender) { sequence = number l };
  sender_sent = packet_of l b ∷ l.sender_sent;
  open_send = some (packet_of l b, []);
  log = l.log ++ b ∷ [];
}

abbrev taken_by : ReliableStream → ℕ → Bytes → ReliableStream
taken_by r n b = record r { last_ackd = n; pending = push_data b }

abbrev arrived : Link → Bytes → Link
arrived l b = record (sent l b) {
  receiver = record (l.receiver) { last_ackd = number l; pending = push_data b };
  receiver_sent = ack_packet (number l) ∷ l.receiver_sent;
  accepted = packet_of l b ∷ l.accepted;
}

abbrev stored : Link → Bytes → Link
stored l b = record (arrived l b) {
  receiver = record (l.receiver) {
    last_ackd = number l;
    inbox = l.receiver.inbox ++ b ∷ [];
    pending = idle;
  };
}

abbrev answered : Link → Bytes → Link
answered l b = record (stored l b) {
  sender = record (l.sender) { sequence = number l; pending = push_ack (number l) };
}

abbrev acknowledged : Link → Bytes → Link
acknowledged l b = record (stored l b) {
  sender = record (l.sender) {
    sequence = number l;
    acks = l.sender.acks ++ number l ∷ [];
    pending = idle;
  };
}

listens_numbered :
    (r : ReliableStream) (n : ℕ)
    → is_listening r ≡ true
    → is_listening (record r { sequence = n }) ≡ true
unfolding is_listening
listens_numbered r n h = h

pub listens_idle :
    (r : ReliableStream) → is_listening r ≡ true → (r.ended ≡ false) × (r.pending ≡ idle)
unfolding is_listening
listens_idle r h = (ground (arith, h), ground (arith, h))

module _ (l : Link) (b : Bytes) (v : LinkOk l) (q : IsQuiet l)
    (small : length l.log + 1 < 2 ^ 32) where
  send_link_lem : send_link l b ≡ sent l b
  unfolding send_link begin_send
  send_link_lem = ground (arith, small, v.counted)

  data_link_lem : data_link (sent l b) (packet_of l b) ≡ arrived l b
  unfolding data_link machine_receive on_data
  data_link_lem = ground (arith, v.last_ok, newest_bound l.log l.accepted v.accepted_ok)

  push_data_lem :
      length l.receiver.inbox < reliable_message_buffer
      → machine_push (arrived l b).receiver ≡ some (stored l b).receiver
  unfolding machine_push
  push_data_lem room = ground (arith, room)

  ack_link_lem : ack_link (stored l b) (ack_packet (number l)) ≡ answered l b
  unfolding ack_link machine_receive
  ack_link_lem = ground (arith)

  push_ack_lem : machine_push (answered l b).sender ≡ some (acknowledged l b).sender
  unfolding machine_push
  push_ack_lem = ground (arith, q.few_acks)

  acknowledged_reached :
      length l.receiver.inbox < reliable_message_buffer → Reach l (acknowledged l b)
  acknowledged_reached room =
      let s1 : Step l (sent l b) = subst (Step l) send_link_lem (sends l b q.no_send) in
      let s2 : Step (sent l b) (arrived l b) =
        subst (Step (sent l b)) data_link_lem
          (data_arrives (sent l b) (packet_of l b) (Memᴰ.head refl) q.hears_data) in
      let s3 : Step (arrived l b) (stored l b) =
        receiver_pushes (arrived l b) (stored l b).receiver (push_data_lem room) in
      let s4 : Step (stored l b) (answered l b) = subst (Step (stored l b)) ack_link_lem (
        ack_arrives (stored l b) (ack_packet (number l)) (Memᴰ.head refl)
          (listens_numbered l.sender (number l) q.hears_acks)) in
      let s5 : Step (answered l b) (acknowledged l b) =
        sender_pushes (answered l b) (acknowledged l b).sender push_ack_lem in
      next (next (next (next (next here s1) s2) s3) s4) s5

-- The link after the open send has taken all values of `ackCh`.
abbrev woken : Link → ReliablePacket → List Wakeup → Link
woken l p ws = record l { sender = record (l.sender) { acks = [] }; open_send = some (p, ws) }

wake_all :
    (acks : List ℕ) (l : Link) (p : ReliablePacket) (ws : List Wakeup)
    → l.open_send ≡ some (p, ws)
    → l.sender.acks ≡ acks
    → Reach l (woken l p (ws ++ map acked acks))
unfolding wake_link
wake_all [] l p ws opened held = subst (Reach l) (ground (arith, opened, held, append-nil ws)) here
wake_all (a ∷ acks) l p ws opened held =
    let l' = wake_link l p ws a acks in
    let s : Step l l' = wakes l p ws a acks opened held in
    Reach-append (next here s) (
      subst (λ vs. Reach l' (woken l p vs)) (append_assoc ws (acked a ∷ []) (map acked acks))
        (wake_all acks l' p (ws ++ acked a ∷ []) refl refl))

-- The link after the send has returned nil.
abbrev pub completed : Link → Bytes → Link
completed l b = record (acknowledged l b) {
  sender = record (l.sender) { sequence = number l; acks = []; pending = idle };
  open_send = none;
  confirmed = number l ∷ l.confirmed;
}

pub send_completes :
    (l : Link) (b : Bytes)
    → LinkOk l
    → IsQuiet l
    → length l.log + 1 < 2 ^ 32
    → length l.receiver.inbox < reliable_message_buffer
    → Reach l (completed l b)
unfolding finish_link
send_completes l b v q small room =
    let acks = l.sender.acks ++ number l ∷ [] in
    let m = woken (acknowledged l b) (packet_of l b) (map acked acks) in
    let reads : Reach (acknowledged l b) m =
      wake_all acks (acknowledged l b) (packet_of l b) [] refl refl in
    let ends : Step m (completed l b) =
      finishes m (packet_of l b) (map acked acks) (some closed) none refl (λ e. ground (arith, e))
        (acks_confirm (some closed) (number l) 0 l.sender.acks (omega (arith, q.few_acks))) in
    next (Reach-append (acknowledged_reached l b v q small room) reads) ends
