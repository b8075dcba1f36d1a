-- ===== src/Relay/Channel/Room.antt =====
-- relay/relay.go: a channel as its clients see it, without queues, order or representation: who is in
-- it, how many they are, and what each request makes the relay send to each client.
mod Rounds
pub mod Refinement
use mulsigo.Prelude.{
  ℕ, suc, ◌-◌, Bool, true, false, not, ◌&&◌, ◌||◌, Option, none, some, List, [], ◌∷◌, ◌++◌, Bytes,
  ltb, ◌==◌, if◌then◌else◌, list_eq, nat_eq,
}
use mulsigo.Relay.Message.{
  Address, RelayMessage, status_ok, status_failure, get_blob, response_message, egress_message,
}
use mulsigo.Relay.Channel.{
  Channel, Case, finished_case, join_case, leave_case, incoming_case, MessageInfo, channel_size,
  full_reason,
}

-- The requests that the goroutine takes from its queues.
pub data Request : Type 0 where
  joins : Address → Request
  leaves : Address → Request
  says : MessageInfo → Request
  finishes : Request

pub record Room : Type 0 where
  pub is_member : Address → Bool
  pub size : ℕ
  pub is_open : Bool

unfoldable pub empty_room : Room
empty_room = record { is_member = λ c. false; size = 0; is_open = true }

-- Whether a request to join succeeds.
unfoldable pub admits : Room → Address → Bool
admits room a = room.is_member a || ltb room.size channel_size

-- The room closes when a client leaves and nobody is left in it.
unfoldable pub after : Room → Request → Room
unfolding admits
after room (joins a) =
    if room.is_member a
    then room
    else if admits room a
    then record room { is_member = λ c. a == c || room.is_member c; size = suc room.size }
    else room
after room (leaves a) =
    let left = if room.is_member a then room.size - 1 else room.size in
    record {
      is_member = λ c. room.is_member c && not (a == c);
      size = left;
      is_open = not (left == 0);
    }
after room (says info) = room
after room finishes = record room { is_open = false }

-- What a request makes the relay send to one client.
unfoldable pub answer : Bytes → Room → Request → Address → List RelayMessage
unfolding admits
answer id room (joins a) c =
    if a == c
    then (if admits room a
        then response_message id status_ok [] ∷ []
        else response_message id status_failure full_reason ∷ [])
    else []
answer id room (leaves a) c = []
answer id room (says info) c =
    if room.is_member info.address && (room.is_member c && not (c == info.address))
    then egress_message id (get_blob info.msg) ∷ []
    else []
answer id room finishes c = []

-- The room, and what a client was sent, after a history of requests, the newest first.
unfoldable pub room_of : List Request → Room
room_of [] = empty_room
room_of (q ∷ qs) = after (room_of qs) q

unfoldable pub answers : Bytes → List Request → Address → List RelayMessage
answers id [] c = []
answers id (q ∷ qs) c = answers id qs c ++ answer id (room_of qs) q c

-- The request that a case of the `select` takes.
unfoldable pub request_of : Channel → Case → Option Request
request_of ch finished_case = if ch.finished then some finishes else none
request_of ch join_case = elim ch.joins [ [] ↦ none | a ∷ rest ↦ some (joins a) ]
request_of ch leave_case = elim ch.leaves [ [] ↦ none | a ∷ rest ↦ some (leaves a) ]
request_of ch incoming_case = elim ch.incoming [ [] ↦ none | info ∷ rest ↦ some (says info) ]
