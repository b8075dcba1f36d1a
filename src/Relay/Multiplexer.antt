-- ===== src/Relay/Multiplexer.antt =====
-- relay/channel.go: a client's channels over its one connection to the relay.
pub mod Laws
pub mod Blocking
use mulsigo.Prelude.{
  ℕ, Bool, true, false, Option, none, some, List, [], ◌∷◌, ◌++◌, Bytes, length, Map, lookup, insert,
  delete, ◌==◌, if◌then◌else◌, ltb, list_eq, nat_eq, Result, ok, err, take,
}
use mulsigo.Client.Identity.{hex_encode}
use mulsigo.Relay.Message.{
  MessageType, join, join_response, leave, ingress, egress, Status, status_ok, status_failure,
  JoinResponse, Egress, RelayMessage, leave_message,
}

abbrev pub queue_size : ℕ
queue_size = 20

pub data Error : Type 0 where
  closed : Error
  not_egress : MessageType → Error
  unexpected_message : Error
  refused : Bytes → Error
  join_timeout : Error
  send_error : ℕ → Error

-- `egress` holds at most `queue_size` messages, oldest first; `stopped` says that `stop` is closed.
pub record ClientChannel : Type 0 where
  pub id : Bytes
  pub egress_queue : List RelayMessage
  pub stopped : Bool
  pub done : Bool

pub record Multiplexer : Type 0 where
  pub channels : Map Bytes ClientChannel
  pub conn_closed : Bool

unfoldable pub new_multiplexer : Multiplexer
new_multiplexer = record { channels = []; conn_closed = false }

unfoldable pub new_client_channel : Bytes → ClientChannel
new_client_channel id = record { id = id; egress_queue = []; stopped = false; done = false }

abbrev pub join_message : Bytes → RelayMessage
join_message id = record {
  channel = id;
  kind = join;
  response = none;
  payload = none;
  broadcast = none;
}

-- `Send` of a channel.
abbrev pub ingress_message : Bytes → Bytes → RelayMessage
ingress_message id blob = record {
  channel = id;
  kind = ingress;
  response = none;
  payload = some blob;
  broadcast = none;
}

-- A nil `*JoinResponse` reads as the zero one, whose status is OK.
unfoldable pub get_status : Option JoinResponse → Status
get_status none = status_ok
get_status (some jr) = jr.status

unfoldable pub get_reason : Option JoinResponse → Bytes
get_reason none = []
get_reason (some jr) = jr.reason

-- `join`: `sent` is the error of sending the request, `answer` the first message of the queue, or
-- none if the timer fires first.
unfoldable pub join_outcome : Option ℕ → Option RelayMessage → Option Error
join_outcome (some e) answer = some (send_error e)
join_outcome none none = some join_timeout
join_outcome none (some mt) = elim mt.kind [
  | join_response ↦ elim (get_status mt.response) [
    | status_failure ↦ some (refused (get_reason mt.response))
    | status_ok ↦ none
  ]
  | join ↦ some unexpected_message
  | leave ↦ some unexpected_message
  | ingress ↦ some unexpected_message
  | egress ↦ some unexpected_message
]

-- What `Channel` does: it panics, returns a channel that is there, or has entered a new one and
-- goes on to join it.
pub data Entered : Type 0 where
  panics : Entered
  present : ClientChannel → Entered
  joining : Multiplexer → Entered

-- `Channel` up to the join; `hex[:10]` panics on a shorter string.
unfoldable pub enter_channel : Multiplexer → Bytes → Entered
enter_channel m id =
    if ltb (length (hex_encode id)) 10 then panics else elim (lookup id m.channels) [
      | some ch ↦ present ch
      | none ↦ joining (record m { channels = insert id (new_client_channel id) m.channels })
    ]

-- `Channel` after the join.
unfoldable pub finish_channel : Multiplexer → Bytes → Option Error → Multiplexer × Option Error
finish_channel m id none = (m, none)
finish_channel m id (some e) = (record m { channels = delete id m.channels }, some e)

-- What the connection gives the routine.
pub data Incoming : Type 0 where
  conn_error : Incoming
  other_message : Incoming
  relay_message : RelayMessage → Incoming

-- One round of the routine: `none` while it is blocked on a full queue, holding the lock; otherwise
-- the state and whether it goes on.
unfoldable pub routine_round : Multiplexer → Incoming → Option (Multiplexer × Bool)
routine_round m conn_error = some (m, false)
routine_round m other_message = some (m, true)
routine_round m (relay_message rm) = elim (lookup rm.channel m.channels) [
  | none ↦ some (m, true)
  | some ch ↦
      if ltb (length ch.egress_queue) queue_size
      then some (
        record m {
          channels =
              insert rm.channel (record ch { egress_queue = ch.egress_queue ++ rm ∷ [] })
                m.channels;
        },
        true,
      )
      else none
]

unfoldable pub channel_done : Multiplexer → Bytes → Multiplexer
channel_done m id =
    let channels = delete id m.channels in
    if length channels == 0
    then record m { channels = channels; conn_closed = true }
    else record m { channels = channels }

-- `Close` of a channel, and the messages that it sends.
unfoldable pub close : Multiplexer → ClientChannel → Multiplexer × ClientChannel × List RelayMessage
unfolding channel_done
close m ch =
    if ch.done
    then (m, ch, [])
    else (channel_done m ch.id, record ch { done = true; stopped = true }, leave_message ch.id ∷ [])

unfoldable pub get_address : Option Egress → Bytes
get_address none = []
get_address (some eg) = eg.address

unfoldable pub get_egress_blob : Option Egress → Bytes
get_egress_blob none = []
get_egress_blob (some eg) = eg.blob

-- What `Receive` makes of a message of the queue.
unfoldable pub read_message : RelayMessage → Result Error (Bytes × Bytes)
unfolding get_address get_egress_blob
read_message rm = elim rm.kind [
  | egress ↦ ok (get_address rm.broadcast, get_egress_blob rm.broadcast)
  | join ↦ err (not_egress join)
  | join_response ↦ err (not_egress join_response)
  | leave ↦ err (not_egress leave)
  | ingress ↦ err (not_egress ingress)
]

-- `Receive`, by the case of its `select` that is taken: the queue, if it has a message, or `stop`,
-- if it is closed.
unfoldable pub receive_queue : ClientChannel → Option (Result Error (Bytes × Bytes) × ClientChannel)
receive_queue ch = elim ch.egress_queue [
  | [] ↦ none
  | rm ∷ rest ↦ some (read_message rm, record ch { egress_queue = rest })
]

unfoldable pub receive_stop : ClientChannel → Option (Result Error (Bytes × Bytes))
receive_stop ch = if ch.stopped then some (err closed) else none
