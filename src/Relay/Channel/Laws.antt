-- ===== src/Relay/Channel/Laws.antt =====
-- relay/relay.go: what the rounds of a channel's goroutine keep, and what they send.
use mulsigo.Prelude.{
  ◌≤◌, ◌≡◌, ◌≢◌, refl, Bool, true, some, List, [], ◌∷◌, Bytes, length, length-append, Map, lookup,
  has, not, ◌&&◌, ◌||◌, Distinct, ◌==◌, if◌then◌else◌, ltb, list_eq, nat_eq, arith, lookup-insert,
  lookup-delete, ◌↔◌, insert-Distinct, delete-Distinct, length-insert, length-delete-le, ==_iff,
  ==_refl, ==_ne, sym,
}
use mulsigo.Relay.Message.{
  status_ok, status_failure, RelayMessage, Address, get_blob, response_message, egress_message,
  Sent,
}
use mulsigo.Relay.Channel.{
  Channel, Case, finished_case, join_case, leave_case, incoming_case, MessageInfo, running,
  deleting, channel_queue_size, channel_size, full_reason, new_channel, enqueue, new_message,
  add_client, broadcast_to, on_incoming, on_leave, select_case, process_round, stop,
}

-- At most `channel_size` clients, none of them twice; no queue over its capacity; and a channel that
-- is about to be deleted has no client and is done.
pub record IsBounded (ch : Channel) : Type 0 where
  pub few_clients : length ch.clients ≤ channel_size
  pub distinct_clients : Distinct ch.clients
  pub few_incoming : length ch.incoming ≤ channel_queue_size
  pub few_joins : length ch.joins ≤ channel_queue_size
  pub few_leaves : length ch.leaves ≤ channel_queue_size
  pub deleting_empty : ch.phase ≡ deleting → length ch.clients ≡ 0
  pub deleting_done : ch.phase ≡ deleting → ch.done ≡ true

pub new_channel-IsBounded : (id : Bytes) → IsBounded (new_channel id)
unfolding new_channel
new_channel-IsBounded id = ground arith

enqueue_lem :
    {A : Type 0} (q : List A) (a : A) (q' : List A)
    → enqueue q a ≡ some q'
    → length q' ≤ channel_queue_size
unfolding enqueue
enqueue_lem q a q' h = ground (arith, length-append q (a ∷ []))

pub new_message-IsBounded :
    (ch : Channel) (from : Address) (m : RelayMessage) {ch' : Channel}
    → new_message ch from m ≡ some ch'
    → IsBounded ch
    → IsBounded ch'
unfolding new_message
new_message-IsBounded ch from m {ch'} h v = ground (
  arith,
  enqueue_lem ch.joins from ch'.joins,
  enqueue_lem ch.leaves from ch'.leaves,
  enqueue_lem ch.incoming (record { address = from; msg = m.payload }) ch'.incoming,
)

add_client-IsBounded :
    (ch : Channel) (a : Address) → ch.phase ≡ running → IsBounded ch → IsBounded (add_client ch a).0
unfolding add_client
add_client-IsBounded ch a r v =
    ground (arith, length-insert a true ch.clients, insert-Distinct a true ch.clients)

on_leave-IsBounded :
    (ch : Channel) (a : Address) → ch.phase ≡ running → IsBounded ch → IsBounded (on_leave ch a)
unfolding on_leave
on_leave-IsBounded ch a r v =
    ground (arith, length-delete-le a ch.clients, delete-Distinct a ch.clients)

module _ (ch : Channel) {ch' : Channel} {out : List Sent} where
  join_round-IsBounded :
      (q : List Address)
      → ch.joins ≡ q
      → process_round ch join_case ≡ some (ch', out)
      → IsBounded ch
      → IsBounded ch'
  unfolding process_round select_case
  join_round-IsBounded [] e h v = ground arith
  join_round-IsBounded (a ∷ rest) e h v =
      ground (arith, add_client-IsBounded (record ch { joins = rest }) a)

  leave_round-IsBounded :
      (q : List Address)
      → ch.leaves ≡ q
      → process_round ch leave_case ≡ some (ch', out)
      → IsBounded ch
      → IsBounded ch'
  unfolding process_round select_case
  leave_round-IsBounded [] e h v = ground arith
  leave_round-IsBounded (a ∷ rest) e h v =
      ground (arith, on_leave-IsBounded (record ch { leaves = rest }) a)

  -- Whatever case the goroutine takes, the channel stays bounded.
  pub process_round-IsBounded :
      (c : Case) → process_round ch c ≡ some (ch', out) → IsBounded ch → IsBounded ch'
  unfolding process_round select_case
  process_round-IsBounded finished_case h v = ground arith
  process_round-IsBounded join_case h v = join_round-IsBounded ch.joins refl h v
  process_round-IsBounded leave_case h v = leave_round-IsBounded ch.leaves refl h v
  process_round-IsBounded incoming_case h v = ground arith

pub stop-IsBounded : (ch : Channel) → IsBounded ch → IsBounded (stop ch)
unfolding stop
stop-IsBounded ch v = ground arith

-- The messages sent to one address, in order.
unfoldable pub sent_to : Address → List Sent → List RelayMessage
sent_to c [] = []
sent_to c ((a, m) ∷ out) = if a == c then m ∷ sent_to c out else sent_to c out

sent_to-broadcast_to :
    (cs : Map Address Bool) (addr c : Address) (rm : RelayMessage)
    → Distinct cs
    → sent_to c (broadcast_to cs addr rm) ≡ (if has c cs && not (c == addr) then rm ∷ [] else [])
unfolding broadcast_to sent_to lookup
sent_to-broadcast_to [] addr c rm d = refl
sent_to-broadcast_to ((k, b) ∷ cs) addr c rm d =
    ground (arith, ==_iff k c, ==_iff k addr, ==_iff c addr, sent_to-broadcast_to cs addr c rm d.1)

-- A message that a client sends into the channel goes to each other client, exactly once and under
-- the channel's id, and to nobody else; a message of somebody who is no client goes to nobody.
pub sent_to-on_incoming :
    (ch : Channel) (info : MessageInfo) (c : Address)
    → IsBounded ch
    → sent_to c (on_incoming ch info) ≡ (
        if has info.address ch.clients && (has c ch.clients && not (c == info.address))
        then egress_message ch.id (get_blob info.msg) ∷ []
        else [])
unfolding on_incoming sent_to
sent_to-on_incoming ch info c v = ground (
  arith,
  sent_to-broadcast_to ch.clients info.address c (egress_message ch.id (get_blob info.msg))
      v.distinct_clients,
)

-- A request to join is answered by one message to the asker. The answer is a success exactly when
-- the asker is a client afterwards, which fails only for a new client of a full channel; nobody
-- else's membership changes.
pub add_client_answer :
    (ch : Channel) (a : Address)
    → let (ch', out) = add_client ch a in
      (out ≡ (
        if has a ch'.clients
        then (a, response_message ch.id status_ok []) ∷ []
        else (a, response_message ch.id status_failure full_reason) ∷ []))
      × (has a ch'.clients ≡ (has a ch.clients || ltb (length ch.clients) channel_size))
      × ((c : Address) → c ≢ a → has c ch'.clients ≡ has c ch.clients)
unfolding add_client
add_client_answer ch a = (
  ground (arith, lookup-insert a a true ch.clients, ==_refl a),
  ground (arith, lookup-insert a a true ch.clients, ==_refl a),
  λ c other. ground (arith, lookup-insert a c true ch.clients, ==_ne a c (λ e. other (sym e))),
)

-- A client that leaves is no client any more and nobody else's membership changes; the goroutine
-- goes on to delete its channel exactly when no client is left.
pub on_leave_members :
    (ch : Channel) (a : Address)
    → ch.phase ≡ running
    → ((c : Address) → has c (on_leave ch a).clients ≡ (has c ch.clients && not (a == c)))
      × (((on_leave ch a).phase ≡ deleting) ↔ (length (on_leave ch a).clients ≡ 0))
unfolding on_leave
on_leave_members ch a r = (λ c. ground (arith, lookup-delete a c ch.clients), ground arith)
