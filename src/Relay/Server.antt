-- ===== src/Relay/Server.antt =====
-- relay/relay.go: the relay and its lock. `Process` and `Receive` hold the lock while they put
-- requests into the queues of channels, which can block: `pending` is what the holder of the lock
-- has still to put, and the lock is free when nothing is pending.
pub mod Invariant
pub mod Deadlock
pub mod Serving
pub mod Progress
use mulsigo.Prelude.{
  ℕ, ◌≡◌, Bool, true, false, Option, none, some, List, [], ◌∷◌, Bytes, length, map, Map, lookup,
  insert, delete, has, ◌==◌, if◌then◌else◌, ltb, list_eq, nat_eq,
}
use mulsigo.Relay.Message.{
  Address, RelayMessage, join_response, status_failure, leave_message, Sent,
}
use mulsigo.Relay.Channel.{
  Channel, Case, new_channel, new_message, process_round, stop, Phase, running, deleting, ended,
}

abbrev pub max_channel : ℕ
max_channel = 50

-- "too many channels"
abbrev pub too_many_reason : Bytes
too_many_reason =
    b't' ∷ b'o' ∷ b'o' ∷ b' ' ∷ b'm' ∷ b'a' ∷ b'n' ∷ b'y' ∷ b' ' ∷ b'c' ∷ b'h' ∷ b'a' ∷ b'n' ∷ b'n'
    ∷ b'e' ∷ b'l' ∷ b's' ∷ []

-- The refusal of a new channel: the code leaves its channel field empty.
abbrev pub too_many_message : RelayMessage
too_many_message = record {
  channel = [];
  kind = join_response;
  response = some (record { status = status_failure; reason = too_many_reason });
  payload = none;
  broadcast = none;
}

-- A call `ch.newMessage(from, message)` on the channel of that id.
pub record Delivery : Type 0 where
  pub target : Bytes
  pub from : Address
  pub message : RelayMessage

pub record Relay : Type 0 where
  pub channels : Map Bytes Channel
  pub pending : List Delivery

unfoldable pub new_relay : Relay
new_relay = record { channels = []; pending = [] }

-- `Process`, up to the call of `newMessage`.
unfoldable pub process : Relay → Address → RelayMessage → Relay × List Sent
process r from m =
    let deliver = record { target = m.channel; from = from; message = m } ∷ [] in
    if m.channel == []
    then (r, [])
    else if has m.channel r.channels
    then (record r { pending = deliver }, [])
    else if ltb max_channel (length r.channels)
    then (r, (from, too_many_message) ∷ [])
    else (
      record r {
        channels = insert m.channel (new_channel m.channel) r.channels;
        pending = deliver;
      },
      [],
    )

-- `Receive` on the event that a connection is down: a LEAVE for every channel.
unfoldable pub receive_down : Relay → Address → Relay
receive_down r addr = record r {
  pending =
      map
        (λ (p : Bytes × Channel). record { target = p.0; from = addr; message = leave_message p.0 })
        r.channels;
}

-- The holder of the lock makes its next call of `newMessage`; `none` while that blocks.
unfoldable pub deliver_next : Relay → Option Relay
deliver_next r = elim r.pending [
  | [] ↦ none
  | d ∷ rest ↦ elim (lookup d.target r.channels) [
    | none ↦ some (record r { pending = rest })
    | some ch ↦ elim (new_message ch d.from d.message) [
      | none ↦ none
      | some ch' ↦ some (record { channels = insert d.target ch' r.channels; pending = rest })
    ]
  ]
]

unfoldable pub delete_channel : Relay → Bytes → Relay
delete_channel r id = record r { channels = delete id r.channels }

unfoldable pub stop_channels : Map Bytes Channel → Map Bytes Channel
stop_channels [] = []
stop_channels ((id, ch) ∷ m) = (id, stop ch) ∷ stop_channels m

-- What can happen next: a call that takes the lock, a step of its holder, a round of a channel's
-- goroutine, or that goroutine's call of `deleteChannel`.
pub data Action : Type 0 where
  requests : Address → RelayMessage → Action
  downs : Address → Action
  delivers : Action
  rounds : Bytes → Case → Action
  deletes : Bytes → Action
  stops : Action

unfoldable pub is_free : Relay → Bool
is_free r = elim r.pending [ [] ↦ true | _ ∷ _ ↦ false ]

unfoldable pub is_deleting : Phase → Bool
is_deleting running = false
is_deleting deleting = true
is_deleting ended = false

unfoldable pub round_of : Relay → Bytes → Case → Option (Relay × List Sent)
round_of r id c = elim (lookup id r.channels) [
  | none ↦ none
  | some ch ↦ elim (process_round ch c) [
    | none ↦ none
    | some (ch', out) ↦ some (record r { channels = insert id ch' r.channels }, out)
  ]
]

unfoldable pub delete_of : Relay → Bytes → Option (Relay × List Sent)
unfolding is_deleting delete_channel
delete_of r id = elim (lookup id r.channels) [
  | none ↦ none
  | some ch ↦ if is_deleting ch.phase then some (delete_channel r id, []) else none
]

-- `none`: the action cannot happen in that state.
unfoldable pub act : Relay → Action → Option (Relay × List Sent)
unfolding is_free round_of
act r (requests from m) = if is_free r then some (process r from m) else none
act r (downs addr) = if is_free r then some (receive_down r addr, []) else none
act r delivers = elim (deliver_next r) [ none ↦ none | some r' ↦ some (r', []) ]
act r (rounds id c) = round_of r id c
act r (deletes id) = if is_free r then delete_of r id else none
act r stops =
    if is_free r then some (record r { channels = stop_channels r.channels }, []) else none

-- A schedule, one action after the other; `none` if one of them cannot happen.
unfoldable pub run : Relay → List Action → Option Relay
run r [] = some r
run r (a ∷ acts) = elim (act r a) [ none ↦ none | some (r', out) ↦ run r' acts ]

-- The states that schedules lead to.
pub data Reach (r : Relay) : Relay → Type 0 where
  here : Reach r r
  next :
      {s t : Relay} {out : List Sent} (a : Action) → Reach r s → act s a ≡ some (t, out) → Reach r t
