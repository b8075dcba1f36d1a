-- ===== src/Relay/Channel.antt =====
-- relay/relay.go: one channel, its queues and the body of its goroutine.
pub mod Laws
pub mod Room
use mulsigo.Prelude.{
  ℕ, Bool, true, false, Option, none, some, List, [], ◌∷◌, ◌++◌, Bytes, length, Map, lookup, insert,
  delete, has, ◌==◌, if◌then◌else◌, ltb, list_eq, nat_eq, Eq,
}
use mulsigo.Relay.Message.{
  MessageType, join, join_response, leave, ingress, egress, Status, status_ok, status_failure,
  RelayMessage, Address, get_blob, response_message, egress_message, Sent,
}

-- `ChannelQueueSize` and `ChannelSize`.
abbrev pub channel_queue_size : ℕ
channel_queue_size = 100

abbrev pub channel_size : ℕ
channel_size = 30

-- "channel: can't join a full channel"
abbrev pub full_reason : Bytes
full_reason =
    b'c' ∷ b'h' ∷ b'a' ∷ b'n' ∷ b'n' ∷ b'e' ∷ b'l' ∷ b':' ∷ b' ' ∷ b'c' ∷ b'a' ∷ b'n' ∷ b'\'' ∷ b't'
    ∷ b' ' ∷ b'j' ∷ b'o' ∷ b'i' ∷ b'n' ∷ b' ' ∷ b'a' ∷ b' ' ∷ b'f' ∷ b'u' ∷ b'l' ∷ b'l' ∷ b' '
    ∷ b'c' ∷ b'h' ∷ b'a' ∷ b'n' ∷ b'n' ∷ b'e' ∷ b'l' ∷ []

pub record MessageInfo : Type 0 where
  pub address : Address
  pub msg : Option Bytes

-- Where the goroutine `process` stands: in its loop, between `setDone` and the lock of
-- `deleteChannel`, or returned.
pub data Phase : Type 0 where
  running deleting ended : Phase

-- The Go channels are their buffers, oldest first; `finished` says that the Go channel is closed.
pub record Channel : Type 0 where
  pub id : Bytes
  pub incoming : List MessageInfo
  pub joins : List Address
  pub leaves : List Address
  pub finished : Bool
  pub clients : Map Address Bool
  pub done : Bool
  pub phase : Phase

unfoldable pub new_channel : Bytes → Channel
new_channel id = record {
  id = id;
  incoming = [];
  joins = [];
  leaves = [];
  finished = false;
  clients = [];
  done = false;
  phase = running;
}

-- A send on a buffered Go channel; `none` while the buffer is full.
unfoldable pub enqueue : {A : Type 0} → List A → A → Option (List A)
enqueue q a = if ltb (length q) channel_queue_size then some (q ++ a ∷ []) else none

-- `none` means that the call blocks.
unfoldable pub new_message : Channel → Address → RelayMessage → Option Channel
new_message ch from msg = elim msg.kind [
  | join ↦ elim (enqueue ch.joins from) [ none ↦ none | some q ↦ some (record ch { joins = q }) ]
  | leave ↦ elim (enqueue ch.leaves from) [ none ↦ none | some q ↦ some (record ch { leaves = q }) ]
  | ingress ↦ elim (enqueue ch.incoming (record { address = from; msg = msg.payload })) [
    | none ↦ none
    | some q ↦ some (record ch { incoming = q })
  ]
  | join_response ↦ some ch
  | egress ↦ some ch
]

unfoldable pub add_client : Channel → Address → Channel × List Sent
add_client ch client =
    if has client ch.clients
    then (ch, (client, response_message ch.id status_ok []) ∷ [])
    else if ltb (length ch.clients) channel_size
    then (
      record ch { clients = insert client true ch.clients },
      (client, response_message ch.id status_ok []) ∷ [],
    )
    else (ch, (client, response_message ch.id status_failure full_reason) ∷ [])

-- The loop over the clients; the list's order stands for the order in which the map is walked.
unfoldable pub broadcast_to : Map Address Bool → Address → RelayMessage → List Sent
broadcast_to [] addr rm = []
broadcast_to ((c, b) ∷ cs) addr rm =
    let rest = broadcast_to cs addr rm in if c == addr then rest else (c, rm) ∷ rest

unfoldable pub on_incoming : Channel → MessageInfo → List Sent
on_incoming ch info =
    if has info.address ch.clients
    then broadcast_to ch.clients info.address (egress_message ch.id (get_blob info.msg))
    else []

unfoldable pub on_leave : Channel → Address → Channel
on_leave ch addr =
    let clients = delete addr ch.clients in
    if length clients == 0
    then record ch { clients = clients; done = true; phase = deleting }
    else record ch { clients = clients }

-- The cases of the `select`.
pub data Case : Type 0 where
  finished_case join_case leave_case incoming_case : Case

-- One round of the loop, by the given case; `none` if that case is not ready.
unfoldable pub select_case : Channel → Case → Option (Channel × List Sent)
unfolding on_leave on_incoming
select_case ch finished_case = if ch.finished then some (record ch { phase = ended }, []) else none
select_case ch join_case = elim ch.joins [
  | [] ↦ none
  | addr ∷ rest ↦ some (add_client (record ch { joins = rest }) addr)
]
select_case ch leave_case = elim ch.leaves [
  | [] ↦ none
  | addr ∷ rest ↦ some (on_leave (record ch { leaves = rest }) addr, [])
]
select_case ch incoming_case = elim ch.incoming [
  | [] ↦ none
  | info ∷ rest ↦ let ch' = record ch { incoming = rest } in some (ch', on_incoming ch' info)
]

-- The goroutine takes a round only while it is in its loop.
unfoldable pub process_round : Channel → Case → Option (Channel × List Sent)
process_round ch c = elim ch.phase [ running ↦ select_case ch c | deleting ↦ none | ended ↦ none ]

unfoldable pub stop : Channel → Channel
stop ch = if ch.done then ch else record ch { done = true; finished = true }
