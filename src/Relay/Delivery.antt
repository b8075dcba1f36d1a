-- ===== src/Relay/Delivery.antt =====
-- relay/relay.go and relay/channel.go together: what one client sends into a channel is read by the
-- others.
use mulsigo.Prelude.{
  ◌≡◌, ◌≢◌, ◌<◌, true, some, List, [], ◌∷◌, ◌++◌, Bytes, length, lookup, insert, has, ==_refl,
  ==_ne, list_eq, nat_eq, ok, arith, lookup-insert,
}
use mulsigo.Relay.Message.{Address, egress_message, Sent, get_blob}
use mulsigo.Relay.Channel.{
  Channel, MessageInfo, running, incoming_case, new_message, on_incoming, process_round,
  select_case, enqueue,
}
use mulsigo.Relay.Channel.Laws.{IsBounded, sent_to, sent_to-on_incoming}
use mulsigo.Relay.Server.{
  Relay, requests, delivers, rounds, act, process, deliver_next, round_of, is_free,
}
use mulsigo.Relay.Multiplexer.{
  Multiplexer, ClientChannel, ingress_message, relay_message, routine_round, read_message,
  queue_size,
}
use mulsigo.Relay.Multiplexer.Laws.{broadcast_arrives}

-- The relay after the three steps of a message into a channel: the queue is empty again.
abbrev pub asked : Relay → Bytes → Address → Bytes → Relay
asked r id from blob = record r {
  pending = record { target = id; from = from; message = ingress_message id blob } ∷ [];
}

abbrev pub queued : Relay → Channel → Bytes → Address → Bytes → Relay
queued r ch id from blob = record {
  channels =
      insert id (record ch { incoming = record { address = from; msg = some blob } ∷ [] })
        r.channels;
  pending = [];
}

ask_step :
    (r : Relay) (ch : Channel) (id blob : Bytes) (from : Address)
    → r.pending ≡ []
    → id ≢ []
    → lookup id r.channels ≡ some ch
    → act r (requests from (ingress_message id blob)) ≡ some (asked r id from blob, [])
unfolding act process is_free
ask_step r ch id blob from p n found = ground (arith, p, found, ==_ne id [] n)

deliver_step :
    (r : Relay) (ch : Channel) (id blob : Bytes) (from : Address)
    → lookup id r.channels ≡ some ch
    → ch.incoming ≡ []
    → act (asked r id from blob) delivers ≡ some (queued r ch id from blob, [])
unfolding act deliver_next new_message enqueue
deliver_step r ch id blob from found empty = ground (arith, found, empty)

abbrev pub told : Relay → Channel → Bytes → Address → Bytes → Relay
told r ch id from blob = record (queued r ch id from blob) {
  channels = insert id (record ch { incoming = [] }) (queued r ch id from blob).channels;
}

select_incoming :
    (ch : Channel) (info : MessageInfo)
    → ch.phase ≡ running
    → process_round (record ch { incoming = info ∷ [] }) incoming_case
      ≡ some (record ch { incoming = [] }, on_incoming ch info)
unfolding process_round select_case on_incoming
select_incoming ch info p = ground (arith, p)

round_step :
    (r : Relay) (ch : Channel) (id blob : Bytes) (from : Address)
    → ch.phase ≡ running
    → act (queued r ch id from blob) (rounds id incoming_case)
      ≡ some (told r ch id from blob, on_incoming ch (record { address = from; msg = some blob }))
unfolding act round_of
round_step r ch id blob from p =
    let info : MessageInfo = record { address = from; msg = some blob } in
    ground (
      arith,
      lookup-insert id id (record ch { incoming = info ∷ [] }) r.channels,
      ==_refl id,
      select_incoming ch info p,
    )

-- A client sends bytes into a channel that the relay has and whose goroutine is at rest. After three
-- steps of the relay, another client of the channel, and not the sender, has been sent one message;
-- when the routine of that client's multiplexer takes it, it stands at the end of the queue of the
-- channel there, if that has room, and reading it gives the bytes.
pub blob_arrives :
    (r : Relay) (ch : Channel) (m : Multiplexer) (mine : ClientChannel) (blob : Bytes)
    (from to : Address)
    → r.pending ≡ []
    → ch.id ≢ []
    → lookup ch.id r.channels ≡ some ch
    → IsBounded ch
    → ch.phase ≡ running
    → ch.incoming ≡ []
    → has from ch.clients ≡ true
    → has to ch.clients ≡ true
    → to ≢ from
    → lookup ch.id m.channels ≡ some mine
    → length mine.egress_queue < queue_size
    → let rm = egress_message ch.id blob in
      (r1 : Relay) × (r2 : Relay) × (r3 : Relay) × (out : List Sent) × (m' : Multiplexer)
      × (cc' : ClientChannel) × (act r (requests from (ingress_message ch.id blob)) ≡ some (r1, []))
      × (act r1 delivers ≡ some (r2, []))
      × (act r2 (rounds ch.id incoming_case) ≡ some (r3, out))
      × (sent_to to out ≡ rm ∷ [])
      × (sent_to from out ≡ [])
      × (routine_round m (relay_message rm) ≡ some (m', true))
      × (lookup ch.id m'.channels ≡ some cc')
      × (cc'.egress_queue ≡ mine.egress_queue ++ rm ∷ [])
      × (read_message rm ≡ ok ([], blob))
unfolding get_blob
blob_arrives r ch m mine blob from to free named found v runs empty hf ht other held room =
    let info : MessageInfo = record { address = from; msg = some blob } in
    let (m', cc', heard, kept, last, reads) = broadcast_arrives m mine ch.id blob held room in
    (
      asked r ch.id from blob,
      queued r ch ch.id from blob,
      told r ch ch.id from blob,
      on_incoming ch info,
      m',
      cc',
      ask_step r ch ch.id blob from free named found,
      deliver_step r ch ch.id blob from found empty,
      round_step r ch ch.id blob from runs,
      ground (arith, sent_to-on_incoming ch info to v, hf, ht, ==_ne to from other),
      ground (arith, sent_to-on_incoming ch info from v, hf, ==_refl from),
      heard,
      kept,
      last,
      reads,
    )
