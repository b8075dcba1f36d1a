-- ===== src/Client/Stream.antt =====
-- client/stream.go: the reliable stream. Its goroutine `stateMachine` and the calls of its user share
-- one record; a buffered Go channel is the list of what it holds, oldest first.
pub mod Wait
pub mod Link
pub mod Invariant
mod Sender
mod Receiver
mod Sublists
pub mod Delivery
pub mod Wraps
pub mod Completes
pub mod Progress
use mulsigo.Prelude.{
  ℕ, ◌+◌, ◌%◌, ◌/◌, ◌^◌, Bool, true, false, Option, none, some, List, [], ◌∷◌, ◌++◌, Bytes, length,
  ◌==◌, if◌then◌else◌, leb, ltb, nat_eq,
}

-- `ReliableMessageBuffer` and `MaxIncorrectMessages`.
abbrev pub reliable_message_buffer : ℕ
reliable_message_buffer = 100

abbrev pub max_incorrect_messages : ℕ
max_incorrect_messages = 100

-- Sequence numbers are of type uint32.
abbrev pub u32 : ℕ → ℕ
u32 n = n % 2 ^ 32

pub data ReliableType : Type 0 where
  reliable_data reliable_ack : ReliableType

pub record ReliablePacket : Type 0 where
  pub kind : ReliableType
  pub sequence : ℕ
  pub content : Bytes

-- The errors of the package, and those of the stream below, by a number.
pub data Error : Type 0 where
  timeout closed : Error
  below : ℕ → Error

-- A send on a buffered Go channel in which the goroutine may be held up.
pub data Pending : Type 0 where
  idle : Pending
  push_data : Bytes → Pending
  push_ack : ℕ → Pending

-- `acks`, `inbox`: `ackCh` and `dataCh`. `failed`: `errCh` is closed. `last_ackd` is the goroutine's
-- local variable, and `ended` says that it has returned.
pub record ReliableStream : Type 0 where
  pub sequence : ℕ
  pub acks : List ℕ
  pub inbox : List Bytes
  pub global_err : Option Error
  pub failed : Bool
  pub done : Bool
  pub last_ackd : ℕ
  pub pending : Pending
  pub ended : Bool

unfoldable pub new_reliable_stream : ReliableStream
new_reliable_stream = record {
  sequence = 0;
  acks = [];
  inbox = [];
  global_err = none;
  failed = false;
  done = false;
  last_ackd = 0;
  pending = idle;
  ended = false;
}

unfoldable pub set_error : ReliableStream → Error → ReliableStream
set_error r e = elim r.global_err [
  | some _ ↦ r
  | none ↦ record r { global_err = some e; failed = true }
]

-- What `stream.receive` and the decoding of its bytes give the goroutine.
pub data Received : Type 0 where
  broken : Error → Received
  packet : ReliablePacket → Received

abbrev pub ack_packet : ℕ → ReliablePacket
ack_packet n = record { kind = reliable_ack; sequence = n; content = [] }

-- The data case, after the packet is decoded; `sent` is the error of sending the ACK, if any.
unfoldable pub on_data : ReliableStream → ReliablePacket → Option Error → ReliableStream
unfolding set_error
on_data r rp sent = elim sent [
  | some e ↦ let r' = set_error r e in record r' { ended = true }
  | none ↦
      if leb rp.sequence r.last_ackd
      then r
      else record r { last_ackd = rp.sequence; pending = push_data rp.content }
]

-- One round of `stateMachine` up to its send on a Go channel, with the packets that it sends.
unfoldable pub machine_receive :
    ReliableStream → Received → Option Error → ReliableStream × List ReliablePacket
unfolding on_data set_error
machine_receive r (broken e) sent = let r' = set_error r e in (record r' { ended = true }, [])
machine_receive r (packet rp) sent = elim rp.kind [
  | reliable_data ↦ (on_data r rp sent, ack_packet rp.sequence ∷ [])
  | reliable_ack ↦ (record r { pending = push_ack rp.sequence }, [])
]

-- The goroutine is ready for a packet.
unfoldable pub is_listening : ReliableStream → Bool
is_listening r =
    if r.ended
    then false
    else elim r.pending [ idle ↦ true | push_data _ ↦ false | push_ack _ ↦ false ]

-- The send on `dataCh` or `ackCh`; `none` while the buffer is full or nothing is to be sent.
unfoldable pub machine_push : ReliableStream → Option ReliableStream
machine_push r = elim r.pending [
  | idle ↦ none
  | push_data b ↦
      if ltb (length r.inbox) reliable_message_buffer
      then some (record r { inbox = r.inbox ++ b ∷ []; pending = idle })
      else none
  | push_ack n ↦
      if ltb (length r.acks) reliable_message_buffer
      then some (record r { acks = r.acks ++ n ∷ []; pending = idle })
      else none
]

-- `send`, up to its loop: the next sequence number and the packet.
unfoldable pub begin_send : ReliableStream → Bytes → ReliableStream × ReliablePacket
begin_send r buf =
    let n = u32 (r.sequence + 1) in
    (record r { sequence = n }, record { kind = reliable_data; sequence = n; content = buf })

-- What wakes the `select` of the loop: a value of `ackCh`, `errCh`, `done`, or the timer, with the
-- error of sending the packet again, if any.
pub data Wakeup : Type 0 where
  acked : ℕ → Wakeup
  errored : Wakeup
  stopped : Wakeup
  timed_out : Option Error → Wakeup

-- How `send` ends: with an error or nil, with the error of sending again, which is also set as that
-- of the stream, or not yet.
pub data Outcome : Type 0 where
  returned : Option Error → Outcome
  failed_with : Error → Outcome
  waiting : Outcome

-- `int(math.Ceil(float64(MaxIncorrectMessages) / 10.0))`
abbrev pub retry_cost : ℕ
retry_cost = (max_incorrect_messages + 9) / 10

-- The loop of `send` from the counter `i` on, over what wakes it; the second part counts how often
-- the packet is sent again. `failure` is what `getError` returns.
unfoldable pub wait_ack : Option Error → ℕ → ℕ → List Wakeup → Outcome × ℕ
wait_ack failure sequence i [] =
    if ltb i max_incorrect_messages then (waiting, 0) else (returned (some timeout), 0)
wait_ack failure sequence i (w ∷ ws) =
    let after_ack = wait_ack failure sequence (i + 1) ws in
    let after_timer = wait_ack failure sequence (i + retry_cost + 1) ws in
    if ltb i max_incorrect_messages
    then elim w [
      | acked n ↦ if n == sequence then (returned none, 0) else after_ack
      | errored ↦ (returned failure, 0)
      | stopped ↦ (returned (some closed), 0)
      | timed_out sent ↦ elim sent [
        | some e ↦ (failed_with e, 1)
        | none ↦ (after_timer.0, after_timer.1 + 1)
      ]
    ]
    else (returned (some timeout), 0)

-- `send`, without the values that its loop takes out of `ackCh`: the stream, how it ends and how
-- often the packet was sent. `sent` is the error of the first time.
unfoldable pub send :
    ReliableStream
    → Bytes
    → Option Error
    → Option Error
    → List Wakeup
    → ReliableStream × Outcome × ℕ
unfolding begin_send wait_ack set_error
send r buf sent failure ws =
    let (r', p) = begin_send r buf in
    elim sent [
      | some e ↦ (set_error r' e, returned (some e), 1)
      | none ↦
          let (out, n) = wait_ack failure p.sequence 0 ws in
          elim out [
            | returned e ↦ (r', returned e, n + 1)
            | failed_with e ↦ (set_error r' e, returned (some e), n + 1)
            | waiting ↦ (r', waiting, n + 1)
          ]
    ]

-- `receive`, by what wakes its `select`: the oldest entry of `dataCh`, or another case.
unfoldable pub receive_data : ReliableStream → Option (Bytes × ReliableStream)
receive_data r = elim r.inbox [ [] ↦ none | b ∷ rest ↦ some (b, record r { inbox = rest }) ]

unfoldable pub receive_other : ReliableStream → Wakeup → Option Error
receive_other r (acked n) = none
receive_other r errored = r.global_err
receive_other r stopped = some closed
receive_other r (timed_out _) = some timeout

-- `close`; a second call panics, which is `none`.
unfoldable pub close : ReliableStream → Option ReliableStream
close r = if r.done then none else some (record r { done = true })
