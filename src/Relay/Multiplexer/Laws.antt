-- ===== src/Relay/Multiplexer/Laws.antt =====
-- relay/channel.go: which channels a multiplexer holds, and what reaches them from the relay.
use mulsigo.Prelude.{
  ◌≤◌, ◌<◌, ◌≡◌, refl, Bool, true, false, Option, none, some, [], ◌∷◌, ◌++◌, Bytes, length, lookup,
  insert, list_eq, nat_eq, ok, arith, Entries, Entries-insert, Entries-delete, Entries-lookup,
  Option-cases, inl, inr, ◌↔◌, lookup-insert, lookup-delete, ==_refl,
}
use mulsigo.Client.Identity.{hex_encode}
use mulsigo.Relay.Message.{egress_message}
use mulsigo.Relay.Server.{too_many_message}
use mulsigo.Relay.Multiplexer.{
  Error, ClientChannel, Multiplexer, new_multiplexer, new_client_channel, joining, enter_channel,
  finish_channel, Incoming, conn_error, other_message, relay_message, routine_round, close,
  read_message, queue_size,
}

abbrev LongId : Bytes → ClientChannel → Type 0
LongId id ch = 10 ≤ length (hex_encode id)

-- Every channel that is held has an identifier of at least ten hexadecimal digits.
abbrev IsLong : Multiplexer → Type 0
IsLong m = Entries LongId m.channels

-- The states of a multiplexer: users enter, join and close channels, and the routine reads messages.
pub data Reach : Multiplexer → Type 0 where
  starts : Reach new_multiplexer
  enters : {m m' : Multiplexer} (id : Bytes) → Reach m → enter_channel m id ≡ joining m' → Reach m'
  finishes :
      {m : Multiplexer} (id : Bytes) (e : Option Error) → Reach m → Reach (finish_channel m id e).0
  hears :
      {m m' : Multiplexer} {b : Bool} (i : Incoming)
      → Reach m
      → routine_round m i ≡ some (m', b)
      → Reach m'
  closes : {m : Multiplexer} (ch : ClientChannel) → Reach m → Reach (close m ch).0

enter_channel-IsLong :
    (m m' : Multiplexer) (id : Bytes) → enter_channel m id ≡ joining m' → IsLong m → IsLong m'
unfolding enter_channel
enter_channel-IsLong m m' id h v =
    ground (arith, Entries-insert LongId id (new_client_channel id) m.channels)

finish_channel-IsLong :
    (m : Multiplexer) (id : Bytes) (e : Option Error) → IsLong m → IsLong (finish_channel m id e).0
unfolding finish_channel
finish_channel-IsLong m id none v = v
finish_channel-IsLong m id (some e) v = Entries-delete LongId id m.channels v

routine_round-IsLong :
    (m m' : Multiplexer) (i : Incoming) (b : Bool)
    → routine_round m i ≡ some (m', b)
    → IsLong m
    → IsLong m'
unfolding routine_round
routine_round-IsLong m m' conn_error b h v = ground arith
routine_round-IsLong m m' other_message b h v = ground arith
routine_round-IsLong m m' (relay_message rm) b h v =
    elim (Option-cases (lookup rm.channel m.channels)) [
      | inl missing ↦ ground arith
      | inr (ch, found) ↦ ground (
        arith,
        Entries-insert LongId rm.channel (record ch { egress_queue = ch.egress_queue ++ rm ∷ [] })
            m.channels (Entries-lookup LongId rm.channel m.channels v found),
      )
    ]

close-IsLong : (m : Multiplexer) (ch : ClientChannel) → IsLong m → IsLong (close m ch).0
unfolding close
close-IsLong m ch v = ground (arith, Entries-delete LongId ch.id m.channels v)

Reach-IsLong : {m : Multiplexer} → Reach m → IsLong m
Reach-IsLong starts = unfold new_multiplexer in tt
Reach-IsLong (enters {m = m} {m' = m'} id past h) =
    enter_channel-IsLong m m' id h (Reach-IsLong past)
Reach-IsLong (finishes {m = m} id e past) = finish_channel-IsLong m id e (Reach-IsLong past)
Reach-IsLong (hears {m = m} {m' = m'} {b = b} i past h) =
    routine_round-IsLong m m' i b h (Reach-IsLong past)
Reach-IsLong (closes {m = m} ch past) = close-IsLong m ch (Reach-IsLong past)

no_empty_id : (m : Multiplexer) → IsLong m → lookup [] m.channels ≡ none
no_empty_id m v = elim (Option-cases (lookup [] m.channels)) [
  | inl missing ↦ missing
  | inr (ch, found) ↦
      let long = Entries-lookup LongId [] m.channels v found in
      absurd (unfold hex_encode in omega (arith, long))
]

-- The relay's refusal of a new channel names no channel, so no multiplexer ever hears it: its
-- routine drops the message and goes on.
pub too_many_unheard :
    {m : Multiplexer} → Reach m → routine_round m (relay_message too_many_message) ≡ some (m, true)
unfolding routine_round
too_many_unheard {m} past = rw (no_empty_id m (Reach-IsLong past), routine_round)

-- A message that the relay has broadcast reaches the end of the queue of its channel, if that has
-- room, and reading it gives the bytes that were sent into the channel, with an empty address.
pub broadcast_arrives :
    (m : Multiplexer) (ch : ClientChannel) (id blob : Bytes)
    → lookup id m.channels ≡ some ch
    → length ch.egress_queue < queue_size
    → (m' : Multiplexer) × (ch' : ClientChannel) × (routine_round m
          (relay_message (egress_message id blob))
        ≡ some (m', true))
      × (lookup id m'.channels ≡ some ch')
      × (ch'.egress_queue ≡ ch.egress_queue ++ egress_message id blob ∷ [])
      × (read_message (egress_message id blob) ≡ ok ([], blob))
unfolding routine_round read_message
broadcast_arrives m ch id blob found room =
    let ch' = record ch { egress_queue = ch.egress_queue ++ egress_message id blob ∷ [] } in
    (
      record m { channels = insert id ch' m.channels },
      ch',
      ground arith,
      ground (arith, lookup-insert id id ch' m.channels, ==_refl id),
      refl,
      refl,
    )

-- Closing a channel takes it out of the multiplexer, and closes the connection exactly when it was
-- the last one; closing it again changes nothing and sends nothing.
pub close_last :
    (m : Multiplexer) (ch : ClientChannel)
    → ch.done ≡ false
    → m.conn_closed ≡ false
    → let (m', ch', out) = close m ch in
      (lookup ch.id m'.channels ≡ none)
      × ((m'.conn_closed ≡ true) ↔ (length m'.channels ≡ 0))
      × (close m' ch' ≡ (m', ch', []))
unfolding close
close_last m ch h c = (
  ground (arith, lookup-delete ch.id ch.id m.channels, ==_refl ch.id),
  ground arith,
  ground arith,
)
