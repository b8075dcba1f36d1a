-- ===== src/Examples/Multiplexers.antt =====
-- relay/channel.go at concrete inputs.
use mulsigo.Relay.Message.{egress_message, RelayMessage, response_message, status_ok}
use mulsigo.Relay.Server.{new_relay}
use mulsigo.Relay.Channel.{new_channel}
use mulsigo.Relay.Joining.{join_completes, channel_for}
use mulsigo.Relay.Multiplexer.Blocking.{
  Shared, reads, hears, IsHeld, Ignoring, here, next, resumes, waiting_in, left, act, read_channel,
}
use mulsigo.Relay.Multiplexer.Blocking.Held.{unread_channel_blocks}
use mulsigo.Prelude.{
  list_beq, ℕ, List, ◌++◌, ◌⊎◌, none, inr, arith, ◌≡◌, refl, true, false, some, [], ◌∷◌, Bytes,
  lookup, insert, list_eq, nat_eq,
}
use mulsigo.Client.Identity.{hex_encode}
use mulsigo.Relay.Server.{too_many_message}
use mulsigo.Relay.Multiplexer.{
  ClientChannel, Multiplexer, new_multiplexer, new_client_channel, enter_channel, relay_message,
  routine_round, receive_queue, conn_error, join_outcome,
}
use mulsigo.Relay.Multiplexer.Laws.{Reach, starts, enters, too_many_unheard}

abbrev room : Bytes
room = 1 ∷ 2 ∷ 3 ∷ 4 ∷ 5 ∷ []

abbrev room_channel : ClientChannel
room_channel = new_client_channel room

abbrev one_channel : Multiplexer
one_channel = record { channels = (room, room_channel) ∷ []; conn_closed = false }

one_channel-Reach : Reach one_channel
unfolding enter_channel new_multiplexer new_client_channel hex_encode lookup insert
one_channel-Reach = enters room starts refl

too_many_unheard_example :
    routine_round one_channel (relay_message too_many_message) ≡ some (one_channel, true)
too_many_unheard_example = too_many_unheard one_channel-Reach

abbrev other_room : Bytes
other_room = 9 ∷ 9 ∷ 9 ∷ 9 ∷ 9 ∷ []

abbrev waiting_message : RelayMessage
waiting_message = egress_message room (7 ∷ [])

abbrev five_messages : List RelayMessage
five_messages =
    waiting_message ∷ waiting_message ∷ waiting_message ∷ waiting_message ∷ waiting_message ∷ []

abbrev twenty_messages : List RelayMessage
twenty_messages = five_messages ++ five_messages ++ five_messages ++ five_messages

-- The queue of `room` is full, `other_room` has one message, and the routine waits.
abbrev stuck : Shared
stuck = record {
  mux = record {
    channels =
        (room, record room_channel { egress_queue = twenty_messages })
        ∷ (
          other_room,
          record (new_client_channel other_room) { egress_queue = waiting_message ∷ [] },
        )
        ∷ [];
    conn_closed = false;
  };
  held = some waiting_message;
}

abbrev other_read : Shared
other_read = record stuck {
  mux = record stuck.mux {
    channels =
        (room, record room_channel { egress_queue = twenty_messages })
        ∷ (other_room, new_client_channel other_room)
        ∷ [];
  };
}

stuck-IsHeld : IsHeld room stuck
unfolding lookup list_beq
stuck-IsHeld = record {
  waits = (waiting_message, refl, refl);
  full = (record room_channel { egress_queue = twenty_messages }, refl, refl);
}

first_steps : Ignoring room stuck other_read
unfolding act read_channel receive_queue lookup insert list_beq new_client_channel
first_steps = next (reads other_room) here (λ e. ground (arith, e)) refl

unread_channel_blocks_example :
    (other_read.held ≡ stuck.held)
    × (((k : Bytes) × (hears conn_error ≡ reads k)) ⊎ (act other_read (hears conn_error) ≡ none))
    × ((n : ℕ) × (waiting_in other_room other_read.mux ≡ left n (waiting_in other_room stuck.mux)))
    × ((r : Shared) × (u : Shared) × (act other_read (reads room) ≡ some r)
        × (act r resumes ≡ some u)
        × (u.held ≡ none))
unread_channel_blocks_example =
    unread_channel_blocks room stuck other_read (hears conn_error) other_room stuck-IsHeld
      first_steps

join_completes_example : join_outcome none (some (response_message room status_ok [])) ≡ none
unfolding new_relay new_multiplexer lookup channel_for hex_encode new_channel
join_completes_example =
    (join_completes new_relay new_multiplexer room (b'a' ∷ []) refl (inr (omega arith)) refl refl
      refl (omega arith) refl).16
