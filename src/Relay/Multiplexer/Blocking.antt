-- ===== src/Relay/Multiplexer/Blocking.antt =====
-- relay/channel.go: the lock `chanMut`. The routine keeps it while it waits for room in the queue of one
-- channel, and `Channel`, the end of a failed join and `channelDone` want it; `Receive` does not.
pub mod Held
use mulsigo.Prelude.{
  ◌<◌, ◌++◌, List-cases, subst, ap, sym, ◌∙◌, ◌+◌, drop-drop, length-drop, ◌-◌, ◌⊎◌, ℕ, drop, ◌≡◌,
  ◌≢◌, ◌≤◌, refl, Option, none, some, List, [], ◌∷◌, Bytes, length, lookup, insert, list_eq, nat_eq,
  arith, lookup-insert, ==_ne, ==_refl, Option-cases, Bool-cases, ==_iff, Result, ◌==◌, inl, inr,
  ltb,
}
use mulsigo.Relay.Message.{RelayMessage}
use mulsigo.Relay.Multiplexer.{
  read_message, ClientChannel, Multiplexer, Error, Incoming, conn_error, other_message,
  relay_message, routine_round, Entered, panics, present, joining, enter_channel, finish_channel,
  channel_done, receive_queue, queue_size,
}

-- `held` is the message with which the routine waits, holding the lock.
pub record Shared : Type 0 where
  pub mux : Multiplexer
  pub held : Option RelayMessage

pub data Action : Type 0 where
  hears : Incoming → Action
  resumes : Action
  enters : Bytes → Action
  fails_join : Bytes → Error → Action
  closes : Bytes → Action
  reads : Bytes → Action

-- The routine with a message: it puts it into the queue, or waits with it.
unfoldable pub hear : Multiplexer → Incoming → Option Shared
unfolding routine_round
hear m conn_error = some (record { mux = m; held = none })
hear m other_message = some (record { mux = m; held = none })
hear m (relay_message rm) = elim (routine_round m (relay_message rm)) [
  | some (m', b) ↦ some (record { mux = m'; held = none })
  | none ↦ some (record { mux = m; held = some rm })
]

unfoldable pub resume : Multiplexer → RelayMessage → Option Shared
unfolding routine_round
resume m rm = elim (routine_round m (relay_message rm)) [
  | some (m', b) ↦ some (record { mux = m'; held = none })
  | none ↦ none
]

-- `Receive` on the channel of that id, if it has a message.
unfoldable pub read_channel : Multiplexer → Bytes → Option Multiplexer
unfolding receive_queue
read_channel m id = elim (lookup id m.channels) [
  | none ↦ none
  | some ch ↦ elim (receive_queue ch) [
    | none ↦ none
    | some (r, ch') ↦ some (record m { channels = insert id ch' m.channels })
  ]
]

-- The multiplexer after `Channel` has entered its channel, or found it.
unfoldable pub entered : Multiplexer → Entered → Option Multiplexer
entered m panics = none
entered m (present ch) = some m
entered m (joining m') = some m'

-- A call that wants the lock; `none` while the routine has it.
unfoldable pub locked : Shared → Option Multiplexer → Option Shared
locked s next = elim s.held [
  | some rm ↦ none
  | none ↦ elim next [ none ↦ none | some m ↦ some (record { mux = m; held = none }) ]
]

-- One step of the routine or of a user; `none` if it has to wait.
unfoldable pub act : Shared → Action → Option Shared
unfolding hear resume read_channel locked entered enter_channel finish_channel channel_done
act s (hears i) = elim s.held [ some rm ↦ none | none ↦ hear s.mux i ]
act s resumes = elim s.held [ none ↦ none | some rm ↦ resume s.mux rm ]
act s (enters id) = locked s (entered s.mux (enter_channel s.mux id))
act s (fails_join id e) = locked s (some (finish_channel s.mux id (some e)).0)
act s (closes id) = locked s (some (channel_done s.mux id))
act s (reads id) = elim (read_channel s.mux id) [
  | none ↦ none
  | some m ↦ some (record s { mux = m })
]

-- What is done while nobody reads the channel of that id.
pub data Ignoring (id : Bytes) (s : Shared) : Shared → Type 0 where
  here : Ignoring id s s
  next :
      {t u : Shared} (a : Action)
      → Ignoring id s t
      → a ≢ reads id
      → act t a ≡ some u
      → Ignoring id s u

-- The routine waits with a message for the channel of that id, whose queue is full.
pub record IsHeld (id : Bytes) (s : Shared) : Type 0 where
  pub waits : (rm : RelayMessage) × (s.held ≡ some rm) × (rm.channel ≡ id)
  pub full :
      (ch : ClientChannel) × (lookup id s.mux.channels ≡ some ch)
      × (length ch.egress_queue ≡ queue_size)

-- How many messages wait in the channel of that id.
unfoldable pub waiting_in : Bytes → Multiplexer → Option (List RelayMessage)
waiting_in id m = elim (lookup id m.channels) [ none ↦ none | some ch ↦ some ch.egress_queue ]

-- What is left of a queue after some reads.
abbrev pub left : ℕ → Option (List RelayMessage) → Option (List RelayMessage)
left n none = none
left n (some q) = some (drop n q)
