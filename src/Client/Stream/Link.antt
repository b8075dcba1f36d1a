-- ===== src/Client/Stream/Link.antt =====
-- client/stream.go: a sender and a receiver over a network that may lose, repeat and reorder the
-- packets handed to it, and forges none. The noise stream and the relay's channel stand between the
-- two; what they do to packets is the choice of the steps below.
use mathlib.Core.List.{Memᴰ}
use mulsigo.Prelude.{
  ℕ, ◌≡◌, ◌≢◌, Option, none, some, true, List, [], ◌∷◌, ◌++◌, Bytes, leb, if◌then◌else◌,
}
use mulsigo.Client.Stream.{
  Error, ReliablePacket, ReliableStream, packet, new_reliable_stream, machine_receive, is_listening,
  machine_push, begin_send, receive_data, Wakeup, acked, timed_out, returned, wait_ack,
}

-- The packets that each side has handed to the network, what the sender's user sent and what the
-- receiver's user got, in order, and the sequence numbers of the sends that returned nil.
-- `open_send` is the packet of a send that has not returned, with what has woken it, in order.
-- `accepted` holds the packets that the receiver's goroutine took, newest first.
pub record Link : Type 0 where
  pub sender : ReliableStream
  pub receiver : ReliableStream
  pub sender_sent : List ReliablePacket
  pub receiver_sent : List ReliablePacket
  pub open_send : Option (ReliablePacket × List Wakeup)
  pub log : List Bytes
  pub accepted : List ReliablePacket
  pub received : List Bytes
  pub confirmed : List ℕ

unfoldable pub new_link : Link
new_link = record {
  sender = new_reliable_stream;
  receiver = new_reliable_stream;
  sender_sent = [];
  receiver_sent = [];
  open_send = none;
  log = [];
  accepted = [];
  received = [];
  confirmed = [];
}

unfoldable pub send_link : Link → Bytes → Link
send_link l b =
    let (s, p) = begin_send l.sender b in
    record l {
      sender = s;
      sender_sent = p ∷ l.sender_sent;
      open_send = some (p, []);
      log = l.log ++ b ∷ [];
    }

unfoldable pub resend_link : Link → ReliablePacket → List Wakeup → Link
resend_link l p ws = record l {
  sender_sent = p ∷ l.sender_sent;
  open_send = some (p, ws ++ timed_out none ∷ []);
}

unfoldable pub wake_link : Link → ReliablePacket → List Wakeup → ℕ → List ℕ → Link
wake_link l p ws n rest = record l {
  sender = record (l.sender) { acks = rest };
  open_send = some (p, ws ++ acked n ∷ []);
}

unfoldable pub finish_link : Link → ℕ → Option Error → Link
finish_link l n (some e) = record l { open_send = none }
finish_link l n none = record l { open_send = none; confirmed = n ∷ l.confirmed }

unfoldable pub data_link : Link → ReliablePacket → Link
data_link l p =
    let (r, out) = machine_receive l.receiver (packet p) none in
    record l {
      receiver = r;
      receiver_sent = out ++ l.receiver_sent;
      accepted = if leb p.sequence l.receiver.last_ackd then l.accepted else p ∷ l.accepted;
    }

unfoldable pub ack_link : Link → ReliablePacket → Link
ack_link l p =
    let (s, out) = machine_receive l.sender (packet p) none in
    record l { sender = s; sender_sent = out ++ l.sender_sent }

-- A send begins only when the one before has returned (`sendMut`).
pub data Step : Link → Link → Type 0 where
  sends : (l : Link) (b : Bytes) → l.open_send ≡ none → Step l (send_link l b)
  resends :
      (l : Link) (p : ReliablePacket) (ws : List Wakeup)
      → l.open_send ≡ some (p, ws)
      → Step l (resend_link l p ws)
  wakes :
      (l : Link) (p : ReliablePacket) (ws : List Wakeup) (n : ℕ) (rest : List ℕ)
      → l.open_send ≡ some (p, ws)
      → l.sender.acks ≡ n ∷ rest
      → Step l (wake_link l p ws n rest)
  finishes :
      (l : Link) (p : ReliablePacket) (ws : List Wakeup) (f e : Option Error)
      → l.open_send ≡ some (p, ws)
      → f ≢ none
      → (wait_ack f p.sequence 0 ws).0 ≡ returned e
      → Step l (finish_link l p.sequence e)
  data_arrives :
      (l : Link) (p : ReliablePacket)
      → Memᴰ p l.sender_sent
      → is_listening l.receiver ≡ true
      → Step l (data_link l p)
  ack_arrives :
      (l : Link) (p : ReliablePacket)
      → Memᴰ p l.receiver_sent
      → is_listening l.sender ≡ true
      → Step l (ack_link l p)
  receiver_pushes :
      (l : Link) (r : ReliableStream)
      → machine_push l.receiver ≡ some r
      → Step l (record l { receiver = r })
  sender_pushes :
      (l : Link) (s : ReliableStream)
      → machine_push l.sender ≡ some s
      → Step l (record l { sender = s })
  user_receives :
      (l : Link) (b : Bytes) (r : ReliableStream)
      → receive_data l.receiver ≡ some (b, r)
      → Step l (record l { receiver = r; received = l.received ++ b ∷ [] })

pub data Reach (l : Link) : Link → Type 0 where
  here : Reach l l
  next : {m n : Link} → Reach l m → Step m n → Reach l n
