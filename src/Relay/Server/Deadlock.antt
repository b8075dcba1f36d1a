-- ===== src/Relay/Server/Deadlock.antt =====
-- relay/relay.go: `Process` waits, holding the relay's lock, for a place in the queue of a channel
-- whose goroutine waits for that lock in `deleteChannel`.
use mulsigo.Prelude.{
  ◌≡◌, none, some, List, ◌∷◌, Bytes, length, lookup, arith, list_eq, nat_eq, lookup-insert, ==_iff,
  Option-cases, inl, inr,
}
use mulsigo.Relay.Message.{Address, RelayMessage, Sent, join}
use mulsigo.Relay.Channel.{
  Channel, Case, channel_queue_size, enqueue, new_message, process_round, deleting,
}
use mulsigo.Relay.Server.{
  Relay, Delivery, deliver_next, Action, requests, downs, delivers, rounds, deletes, stops,
  round_of, act, Reach, here, next,
}

-- The holder of the lock wants to queue a JOIN, the queue is full, and the goroutine that would
-- empty it has left its loop and waits for the lock.
pub record IsStuck (d : Delivery) (ps : List Delivery) (ch : Channel) (r : Relay) : Type 0 where
  pub held : r.pending ≡ d ∷ ps
  pub found : lookup d.target r.channels ≡ some ch
  pub gone : ch.phase ≡ deleting
  pub asks : d.message.kind ≡ join
  pub full : length ch.joins ≡ channel_queue_size

module _ (d : Delivery) (ps : List Delivery) (ch : Channel) where
  new_message_blocks : (r : Relay) → IsStuck d ps ch r → new_message ch d.from d.message ≡ none
  unfolding new_message enqueue
  new_message_blocks r s = ground arith

  deliver_next_blocks : (r : Relay) → IsStuck d ps ch r → deliver_next r ≡ none
  unfolding deliver_next
  deliver_next_blocks r s = ground (arith, new_message_blocks r s)

  round_of-IsStuck :
      (r : Relay) (id : Bytes) (c : Case) {r' : Relay} {out : List Sent}
      → round_of r id c ≡ some (r', out)
      → IsStuck d ps ch r
      → IsStuck d ps ch r'
  unfolding round_of process_round
  round_of-IsStuck r id c h s = elim (Option-cases (lookup id r.channels)) [
    | inl missing ↦ ground arith
    | inr (x, found) ↦ elim (Option-cases (process_round x c)) [
      | inl waits ↦ ground arith
      | inr ((x', out'), goes) ↦
          ground (arith, ==_iff id d.target, lookup-insert id d.target x' r.channels)
    ]
  ]

  act-IsStuck :
      (r : Relay) (a : Action) {r' : Relay} {out : List Sent}
      → act r a ≡ some (r', out)
      → IsStuck d ps ch r
      → IsStuck d ps ch r'
  unfolding act
  act-IsStuck r (requests from m) h s = ground arith
  act-IsStuck r (downs addr) h s = ground arith
  act-IsStuck r delivers h s = ground (arith, deliver_next_blocks r s)
  act-IsStuck r (rounds id c) h s = round_of-IsStuck r id c h s
  act-IsStuck r (deletes id) h s = ground arith
  act-IsStuck r stops h s = ground arith

  Reach-IsStuck : {r t : Relay} → IsStuck d ps ch r → Reach r t → IsStuck d ps ch t
  Reach-IsStuck s here = s
  Reach-IsStuck s (next {s = u} a past h) = act-IsStuck u a h (Reach-IsStuck s past)

  requests_refused :
      (r : Relay) (from : Address) (m : RelayMessage)
      → IsStuck d ps ch r
      → act r (requests from m) ≡ none
  unfolding act
  requests_refused r from m s = ground arith

  stops_refused : (r : Relay) → IsStuck d ps ch r → act r stops ≡ none
  unfolding act
  stops_refused r s = ground arith

  -- Once the relay is stuck it stays so under every schedule: the lock is never given back, so no
  -- further request of any client on any channel is taken, and the relay cannot be stopped.
  pub Stuck_forever :
      {r t : Relay}
      → IsStuck d ps ch r
      → Reach r t
      → (t.pending ≡ d ∷ ps)
        × ((from : Address) (m : RelayMessage) → act t (requests from m) ≡ none)
        × (act t stops ≡ none)
  Stuck_forever {t = t} s past =
      let stuck = Reach-IsStuck s past in
      (stuck.held, λ from m. requests_refused t from m stuck, stops_refused t stuck)
