-- ===== src/Examples/Deliveries.antt =====
-- relay/: a message from one client to another.
use mulsigo.Prelude.{◌≡◌, refl, true, false, [], ◌∷◌, ok, lookup, list_beq, list_eq, nat_eq, arith}
use mulsigo.Relay.Message.{Address, egress_message}
use mulsigo.Relay.Channel.{Channel, new_channel}
use mulsigo.Relay.Channel.Laws.{IsBounded}
use mulsigo.Relay.Server.{Relay}
use mulsigo.Relay.Multiplexer.{ClientChannel, Multiplexer, new_client_channel, read_message}
use mulsigo.Relay.Delivery.{blob_arrives}

abbrev alice : Address
alice = b'a' ∷ []

abbrev bob : Address
bob = b'b' ∷ []

abbrev pair : Channel
pair = record (new_channel (b'r' ∷ [])) { clients = (alice, true) ∷ (bob, true) ∷ [] }

pair-IsBounded : IsBounded pair
unfolding lookup new_channel list_beq
pair-IsBounded = ground arith

abbrev relay : Relay
relay = record { channels = (b'r' ∷ [], pair) ∷ []; pending = [] }

abbrev mine : ClientChannel
mine = new_client_channel (b'r' ∷ [])

abbrev listener : Multiplexer
listener = record { channels = (b'r' ∷ [], mine) ∷ []; conn_closed = false }

blob_arrives_example : read_message (egress_message (b'r' ∷ []) (7 ∷ 8 ∷ [])) ≡ ok ([], 7 ∷ 8 ∷ [])
unfolding new_channel new_client_channel lookup list_beq
blob_arrives_example =
    (blob_arrives relay pair listener mine (7 ∷ 8 ∷ []) alice bob refl (λ e. ground (arith, e)) refl
      pair-IsBounded refl refl refl refl (λ e. ground (arith, e)) refl (omega arith)).14
