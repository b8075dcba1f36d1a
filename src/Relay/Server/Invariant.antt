-- ===== src/Relay/Server/Invariant.antt =====
-- relay/relay.go: what holds of the relay in every state that a schedule leads to.
use mulsigo.Prelude.{
  suc, ◌≤◌, ◌≡◌, refl, some, List, [], ◌∷◌, Bytes, length, Map, lookup, insert, arith, has,
  Distinct, list_eq, nat_eq, insert-Distinct, delete-Distinct, length-insert, length-delete-le,
  Entries, Entries-insert, Entries-delete, Entries-lookup, Option-cases, inl, inr, ap,
}
use mulsigo.Relay.Message.{Address, RelayMessage, Sent}
use mulsigo.Relay.Channel.{Channel, Case, new_channel, new_message, process_round}
use mulsigo.Relay.Channel.Laws.{
  IsBounded, new_channel-IsBounded, new_message-IsBounded, process_round-IsBounded, stop-IsBounded,
}
use mulsigo.Relay.Server.{
  Relay, Delivery, max_channel, new_relay, process, receive_down, deliver_next, stop_channels,
  Action, requests, downs, delivers, rounds, deletes, stops, round_of, delete_of, act, Reach, here,
  next,
}

abbrev pub ChannelOk : Bytes → Channel → Type 0
ChannelOk id ch = IsBounded ch

-- No channel stands twice, there are at most 51 of them, one more than `max_channel`, and each is
-- bounded.
pub record IsSafe (r : Relay) : Type 0 where
  pub distinct_channels : Distinct r.channels
  pub few_channels : length r.channels ≤ suc max_channel
  pub bounded_channels : Entries ChannelOk r.channels

new_relay-IsSafe : IsSafe new_relay
unfolding new_relay
new_relay-IsSafe = ground arith

process-IsSafe :
    (r : Relay) (from : Address) (m : RelayMessage) → IsSafe r → IsSafe (process r from m).0
unfolding process
process-IsSafe r from m v = ground (
  arith,
  insert-Distinct m.channel (new_channel m.channel) r.channels,
  length-insert m.channel (new_channel m.channel) r.channels,
  Entries-insert ChannelOk m.channel (new_channel m.channel) r.channels
      (new_channel-IsBounded m.channel),
)

-- Putting a new value at a key that is there.
update-IsSafe :
    (r : Relay) (id : Bytes) (ch ch' : Channel) (ps : List Delivery)
    → lookup id r.channels ≡ some ch
    → IsBounded ch'
    → IsSafe r
    → IsSafe (record { channels = insert id ch' r.channels; pending = ps })
update-IsSafe r id ch ch' ps found b v = ground (
  arith,
  insert-Distinct id ch' r.channels,
  length-insert id ch' r.channels,
  Entries-insert ChannelOk id ch' r.channels b,
)

deliver_next-IsSafe :
    (r : Relay) (ps : List Delivery) {r' : Relay}
    → r.pending ≡ ps
    → deliver_next r ≡ some r'
    → IsSafe r
    → IsSafe r'
unfolding deliver_next
deliver_next-IsSafe r [] e h v = ground arith
deliver_next-IsSafe r (d ∷ rest) {r'} e h v = elim (Option-cases (lookup d.target r.channels)) [
  | inl missing ↦ ground arith
  | inr (ch, found) ↦ elim (Option-cases (new_message ch d.from d.message)) [
    | inl blocked ↦ ground arith
    | inr (ch', sent) ↦ ground (
      arith,
      update-IsSafe r d.target ch ch' rest found
          (new_message-IsBounded ch d.from d.message sent
            (Entries-lookup ChannelOk d.target r.channels v.bounded_channels found))
          v,
    )
  ]
]

round_of-IsSafe :
    (r : Relay) (id : Bytes) (c : Case) {r' : Relay} {out : List Sent}
    → round_of r id c ≡ some (r', out)
    → IsSafe r
    → IsSafe r'
unfolding round_of
round_of-IsSafe r id c h v = elim (Option-cases (lookup id r.channels)) [
  | inl missing ↦ ground arith
  | inr (ch, found) ↦ elim (Option-cases (process_round ch c)) [
    | inl waits ↦ ground arith
    | inr ((ch', out'), goes) ↦ ground (
      arith,
      update-IsSafe r id ch ch' r.pending found
          (process_round-IsBounded ch c goes
            (Entries-lookup ChannelOk id r.channels v.bounded_channels found))
          v,
    )
  ]
]

delete_of-IsSafe :
    (r : Relay) (id : Bytes) {r' : Relay} {out : List Sent}
    → delete_of r id ≡ some (r', out)
    → IsSafe r
    → IsSafe r'
unfolding delete_of
delete_of-IsSafe r id h v = ground (
  arith,
  delete-Distinct id r.channels,
  length-delete-le id r.channels,
  Entries-delete ChannelOk id r.channels,
)

lookup-stop_channels : (m : Map Bytes Channel) (id : Bytes) → has id (stop_channels m) ≡ has id m
unfolding lookup stop_channels
lookup-stop_channels [] id = refl
lookup-stop_channels ((j, ch) ∷ m) id = ground (arith, lookup-stop_channels m id)

stop_channels-Distinct : (m : Map Bytes Channel) → Distinct m → Distinct (stop_channels m)
unfolding stop_channels
stop_channels-Distinct [] d = d
stop_channels-Distinct ((j, ch) ∷ m) d =
    (ground (arith, lookup-stop_channels m j), stop_channels-Distinct m d.1)

length-stop_channels : (m : Map Bytes Channel) → length (stop_channels m) ≡ length m
unfolding stop_channels
length-stop_channels [] = refl
length-stop_channels ((j, ch) ∷ m) = ap suc (length-stop_channels m)

stop_channels-Entries :
    (m : Map Bytes Channel) → Entries ChannelOk m → Entries ChannelOk (stop_channels m)
unfolding stop_channels
stop_channels-Entries [] h = h
stop_channels-Entries ((j, ch) ∷ m) h = (stop-IsBounded ch h.0, stop_channels-Entries m h.1)

receive_down-IsSafe : (r : Relay) (addr : Address) → IsSafe r → IsSafe (receive_down r addr)
unfolding receive_down
receive_down-IsSafe r addr v = ground arith

pub act-IsSafe :
    (r : Relay) (a : Action) {r' : Relay} {out : List Sent}
    → act r a ≡ some (r', out)
    → IsSafe r
    → IsSafe r'
unfolding act
act-IsSafe r (requests from m) h v = ground (arith, process-IsSafe r from m v)
act-IsSafe r (downs addr) h v = ground (arith, receive_down-IsSafe r addr v)
act-IsSafe r delivers {r'} h v =
    deliver_next-IsSafe r r.pending refl (ground (arith, Option-cases (deliver_next r))) v
act-IsSafe r (rounds id c) h v = round_of-IsSafe r id c h v
act-IsSafe r (deletes id) {r'} {out} h v =
    delete_of-IsSafe r id {r' = r'} {out = out} (ground arith) v
act-IsSafe r stops h v = ground (
  arith,
  stop_channels-Distinct r.channels,
  length-stop_channels r.channels,
  stop_channels-Entries r.channels,
)

-- Whatever requests arrive and however the goroutines are scheduled, the relay never holds a
-- channel twice, never more than 51 channels, and every channel stays bounded: at most 30 clients,
-- none of them twice, and no more than 100 entries in a queue.
pub Reach-IsSafe : {r : Relay} → Reach new_relay r → IsSafe r
Reach-IsSafe here = new_relay-IsSafe
Reach-IsSafe (next {s} a past h) = act-IsSafe s a h (Reach-IsSafe past)
