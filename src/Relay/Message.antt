-- ===== src/Relay/Message.antt =====
-- relay/relay.pb.go: the messages, with an absent part as `none`, and the getters that the code uses.
use mulsigo.Prelude.{Option, none, some, [], Bytes, list_eq, nat_eq}

pub data MessageType : Type 0 where
  join join_response leave ingress egress : MessageType

pub data Status : Type 0 where
  status_ok status_failure : Status

pub record JoinResponse : Type 0 where
  pub status : Status
  pub reason : Bytes

pub record Egress : Type 0 where
  pub address : Bytes
  pub blob : Bytes

pub record RelayMessage : Type 0 where
  pub channel : Bytes
  pub kind : MessageType
  pub response : Option JoinResponse
  pub payload : Option Bytes
  pub broadcast : Option Egress

-- network/address.go: `type Address string`.
abbrev pub Address : Type 0
Address = Bytes

-- A nil `*Ingress` reads as an empty one.
unfoldable pub get_blob : Option Bytes → Bytes
get_blob none = []
get_blob (some b) = b

-- The messages that the relay builds.
abbrev pub response_message : Bytes → Status → Bytes → RelayMessage
response_message id status reason = record {
  channel = id;
  kind = join_response;
  response = some (record { status = status; reason = reason });
  payload = none;
  broadcast = none;
}

abbrev pub egress_message : Bytes → Bytes → RelayMessage
egress_message id blob = record {
  channel = id;
  kind = egress;
  response = none;
  payload = none;
  broadcast = some (record { address = []; blob = blob });
}

abbrev pub leave_message : Bytes → RelayMessage
leave_message id = record {
  channel = id;
  kind = leave;
  response = none;
  payload = none;
  broadcast = none;
}

-- A call `router.Send(to, message)`.
abbrev pub Sent : Type 0
Sent = Address × RelayMessage
