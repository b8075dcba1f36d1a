-- ===== src/Relay/Joining.antt =====
-- relay/relay.go and relay/channel.go together: `Channel` and the relay's answer to its JOIN.
use mulsigo.Relay.Channel.Laws.{add_client_answer}
use mulsigo.Prelude.{
  ◌≢◌, ◌≡◌, ◌≤◌, ◌⊎◌, ◌||◌, refl, inl, inr, true, false, Bool, none, some, List, [], ◌∷◌, Bytes,
  length, lookup, insert, has, ==_refl, ==_ne, list_eq, nat_eq, arith, lookup-insert, if◌then◌else◌,
  ltb, Option-cases, ap, ◌∙◌,
}
use mulsigo.Client.Identity.{hex_encode}
use mulsigo.Relay.Message.{Address, RelayMessage, Sent, response_message, status_ok, status_failure}
use mulsigo.Relay.Channel.{
  Channel, new_channel, running, join_case, new_message, add_client, process_round, channel_size,
  full_reason, select_case, enqueue,
}
use mulsigo.Relay.Server.{
  Relay, requests, delivers, rounds, act, process, deliver_next, round_of, is_free, max_channel,
}
use mulsigo.Relay.Multiplexer.{
  Multiplexer, ClientChannel, join_message, relay_message, routine_round, join_outcome, refused,
  enter_channel, joining, new_client_channel, get_status, get_reason,
}

-- The channel that a message for that id goes to.
unfoldable pub channel_for : Relay → Bytes → Channel
channel_for r id = elim (lookup id r.channels) [ none ↦ new_channel id | some ch ↦ ch ]

-- Whether the channel has_place the client, or has it.
abbrev pub has_place : Channel → Address → Bool
has_place ch from = has from ch.clients || ltb (length ch.clients) channel_size

-- The relay with the JOIN still to be put, and with it in the channel's queue.
abbrev asked : Relay → Bytes → Address → Relay
asked r id from = record {
  channels = if has id r.channels then r.channels else insert id (new_channel id) r.channels;
  pending = record { target = id; from = from; message = join_message id } ∷ [];
}

abbrev queued : Relay → Bytes → Address → Relay
queued r id from = record {
  channels = insert id (record (channel_for r id) { joins = from ∷ [] }) (asked r id from).channels;
  pending = [];
}

ask_step :
    (r : Relay) (id : Bytes) (from : Address)
    → r.pending ≡ []
    → id ≢ []
    → (has id r.channels ≡ true) ⊎ (length r.channels ≤ max_channel)
    → act r (requests from (join_message id)) ≡ some (asked r id from, [])
unfolding act process is_free
ask_step r id from free named (inl held) = ground (arith, free, held, ==_ne id [] named)
ask_step r id from free named (inr few) = ground (arith, free, few, ==_ne id [] named)

lookup-asked :
    (r : Relay) (id : Bytes) (from : Address)
    → lookup id (asked r id from).channels ≡ some (channel_for r id)
unfolding channel_for
lookup-asked r id from = elim (Option-cases (lookup id r.channels)) [
  | inl missing ↦
      ground (arith, missing, lookup-insert id id (new_channel id) r.channels, ==_refl id)
  | inr (ch, found) ↦ ground (arith, found)
]

deliver_step :
    (r : Relay) (id : Bytes) (from : Address)
    → (channel_for r id).joins ≡ []
    → act (asked r id from) delivers ≡ some (queued r id from, [])
unfolding act deliver_next new_message enqueue
deliver_step r id from empty = ground (arith, empty, lookup-asked r id from)

-- The channel after the JOIN, and the relay's answer.
abbrev joined : Relay → Bytes → Address → Channel × List Sent
joined r id from = add_client (record (channel_for r id) { joins = [] }) from

abbrev answered : Relay → Bytes → Address → Relay
answered r id from = record (queued r id from) {
  channels = insert id (joined r id from).0 (queued r id from).channels;
}

round_step :
    (r : Relay) (id : Bytes) (from : Address)
    → (channel_for r id).phase ≡ running
    → act (queued r id from) (rounds id join_case) ≡ some (answered r id from, (joined r id from).1)
unfolding act round_of process_round select_case
round_step r id from runs = ground (
  arith,
  runs,
  lookup-insert id id (record (channel_for r id) { joins = from ∷ [] }) (asked r id from).channels,
  ==_refl id,
)

-- The relay's answer to a client that the channel has, or has room for, and to another.
abbrev pub answer_message : Bytes → Bool → RelayMessage
answer_message id b =
    if b then response_message id status_ok [] else response_message id status_failure full_reason

joined_answer :
    (r : Relay) (id : Bytes) (from : Address)
    → (channel_for r id).id ≡ id
    → let b = has_place (channel_for r id) from in
      ((joined r id from).1 ≡ (from, answer_message id b) ∷ [])
      × (has from (joined r id from).0.clients ≡ b)
joined_answer r id from named =
    let (out, member, others) = add_client_answer (record (channel_for r id) { joins = [] }) from in
    (ground (arith, out, member, named), member)

-- The multiplexer that waits for the answer, and has it in the channel's queue.
abbrev waiting : Multiplexer → Bytes → Multiplexer
waiting m id = record m { channels = insert id (new_client_channel id) m.channels }

abbrev holding : Multiplexer → Bytes → RelayMessage → Multiplexer
holding m id rm = record m {
  channels =
      insert id (record (new_client_channel id) { egress_queue = rm ∷ [] }) (waiting m id).channels;
}

id_named : (id : Bytes) → 10 ≤ length (hex_encode id) → id ≢ []
unfolding hex_encode
id_named [] long e = omega (arith, long)
id_named (x ∷ id) long e = ground (arith, e)

enter_step :
    (m : Multiplexer) (id : Bytes)
    → 10 ≤ length (hex_encode id)
    → lookup id m.channels ≡ none
    → enter_channel m id ≡ joining (waiting m id)
unfolding enter_channel
enter_step m id long new = ground (arith, long, new)

hear_step :
    (m : Multiplexer) (id : Bytes) (b : Bool)
    → routine_round (waiting m id) (relay_message (answer_message id b))
      ≡ some (holding m id (answer_message id b), true)
unfolding routine_round new_client_channel
hear_step m id true =
    ground (arith, lookup-insert id id (new_client_channel id) m.channels, ==_refl id)
hear_step m id false =
    ground (arith, lookup-insert id id (new_client_channel id) m.channels, ==_refl id)

answer_outcome :
    (id : Bytes) (b : Bool)
    → join_outcome none (some (answer_message id b))
      ≡ (if b then none else some (refused full_reason))
unfolding join_outcome get_status get_reason
answer_outcome id true = refl
answer_outcome id false = refl

-- `Channel` for an identifier of at least ten hexadecimal digits that the multiplexer does not
-- have, when the relay's lock is free, and the relay has that channel, its goroutine in its loop and no JOIN waiting, or may
-- open it. The relay's three steps answer the JOIN by one message, to the asker; the routine puts
-- it into the new channel's queue, and `join` succeeds exactly when the channel has the client, or
-- has room; then the client is a member. Otherwise it fails with the relay's reason, and the client is not a member.
pub join_completes :
    (r : Relay) (m : Multiplexer) (id : Bytes) (from : Address)
    → r.pending ≡ []
    → (has id r.channels ≡ true) ⊎ (length r.channels ≤ max_channel)
    → (channel_for r id).id ≡ id
    → (channel_for r id).phase ≡ running
    → (channel_for r id).joins ≡ []
    → 10 ≤ length (hex_encode id)
    → lookup id m.channels ≡ none
    → let b = has_place (channel_for r id) from in
      let rm = answer_message id b in
      (m1 : Multiplexer) × (m2 : Multiplexer) × (mine : ClientChannel) × (r1 : Relay) × (r2 : Relay)
      × (r3 : Relay) × (ch : Channel) × (enter_channel m id ≡ joining m1)
      × (act r (requests from (join_message id)) ≡ some (r1, []))
      × (act r1 delivers ≡ some (r2, []))
      × (act r2 (rounds id join_case) ≡ some (r3, (from, rm) ∷ []))
      × (lookup id r3.channels ≡ some ch)
      × (has from ch.clients ≡ b)
      × (routine_round m1 (relay_message rm) ≡ some (m2, true))
      × (lookup id m2.channels ≡ some mine)
      × (mine.egress_queue ≡ rm ∷ [])
      × (join_outcome none (some rm) ≡ (if b then none else some (refused full_reason)))
join_completes r m id from free room named runs empty long new =
    let b = has_place (channel_for r id) from in
    let (out, member) = joined_answer r id from named in
    (
      waiting m id,
      holding m id (answer_message id b),
      record (new_client_channel id) { egress_queue = answer_message id b ∷ [] },
      asked r id from,
      queued r id from,
      answered r id from,
      (joined r id from).0,
      enter_step m id long new,
      ask_step r id from free (id_named id long) room,
      deliver_step r id from empty,
      round_step r id from runs ∙ ap (λ o. some (answered r id from, o)) out,
      ground
          (arith, lookup-insert id id (joined r id from).0 (queued r id from).channels, ==_refl id),
      member,
      hear_step m id b,
      ground (
        arith,
        lookup-insert id id
            (record (new_client_channel id) { egress_queue = answer_message id b ∷ [] })
            (waiting m id).channels,
        ==_refl id,
      ),
      refl,
      answer_outcome id b,
    )
