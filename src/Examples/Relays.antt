-- ===== src/Examples/Relays.antt =====
-- relay/relay.go at concrete inputs.
use mulsigo.Prelude.{
  ℕ, zero, suc, ◌≡◌, refl, true, Option, none, some, List, [], ◌∷◌, ◌++◌, Bytes, length, lookup,
  insert, delete, has, list_beq, list_eq, nat_eq, arith,
}
use mulsigo.Relay.Message.{
  Address, RelayMessage, MessageType, join, leave, ingress, egress_message, response_message,
  status_ok, get_blob,
}
use mulsigo.Relay.Channel.{
  Channel, join_case, leave_case, new_channel, deleting, add_client, enqueue, new_message,
  on_incoming, on_leave, process_round, select_case,
}
use mulsigo.Relay.Channel.Laws.{IsBounded, sent_to, sent_to-on_incoming}
use mulsigo.Relay.Server.{
  Relay, Delivery, Action, requests, delivers, rounds, stops, new_relay, process, deliver_next, act,
  run, Reach, here, next, round_of,
}
use mulsigo.Relay.Message.{Sent}
use mulsigo.Relay.Channel.Room.{
  Request, joins, leaves, room_of, answers, empty_room, after, admits, answer, request_of,
}
use mulsigo.Relay.Channel.Room.Refinement.{History, starts, queued, takes, History-refines}
use mulsigo.Relay.Server.Invariant.{IsSafe, Reach-IsSafe}
use mulsigo.Relay.Server.Serving.{Runs, run-Reach}
use mulsigo.Relay.Server.Progress.{lock_comes_back}
use mulsigo.Relay.Server.Deadlock.{IsStuck, Stuck_forever}

abbrev alice : Address
alice = b'a' ∷ []

abbrev bob : Address
bob = b'b' ∷ []

abbrev room : Bytes
room = b'r' ∷ []

abbrev request : MessageType → RelayMessage
request k = record {
  channel = room;
  kind = k;
  response = none;
  payload = some (7 ∷ []);
  broadcast = none;
}

-- A room with two clients.
abbrev pair : Channel
pair = record (new_channel room) { clients = (alice, true) ∷ (bob, true) ∷ [] }

pair-IsBounded : IsBounded pair
unfolding lookup new_channel list_beq
pair-IsBounded = ground arith

sent_to-on_incoming_example :
    sent_to bob (on_incoming pair (record { address = alice; msg = some (7 ∷ []) }))
    ≡ egress_message room (7 ∷ []) ∷ []
unfolding lookup get_blob list_beq new_channel
sent_to-on_incoming_example =
    sent_to-on_incoming pair (record { address = alice; msg = some (7 ∷ []) }) bob pair-IsBounded

abbrev join_schedule : List Action
join_schedule = requests alice (request join) ∷ delivers ∷ rounds room join_case ∷ []

abbrev joined : Relay
joined = record {
  channels = (room, record (new_channel room) { clients = (alice, true) ∷ [] }) ∷ [];
  pending = [];
}

joined-Reach : Reach new_relay joined
unfolding act process new_relay new_channel deliver_next new_message enqueue round_of process_round
    select_case add_client lookup insert list_beq
joined-Reach =
    next {out = (alice, response_message room status_ok []) ∷ []} (rounds room join_case)
      (next {out = []} delivers (next {out = []} (requests alice (request join)) here refl) refl)
      refl

Reach-IsSafe_example : IsSafe joined
Reach-IsSafe_example = Reach-IsSafe joined-Reach

-- The last client leaves while the queue of joins is full, and one more join arrives.
fill : ℕ → List Action
fill zero = []
fill (suc n) = requests bob (request join) ∷ delivers ∷ fill n

stuck_schedule : List Action
unfolding fill
stuck_schedule =
    requests alice (request leave)
    ∷ delivers
    ∷ (fill 100 ++ rounds room leave_case ∷ requests bob (request join) ∷ [])

bobs : ℕ → List Address
bobs zero = []
bobs (suc n) = bob ∷ bobs n

abbrev closing : Channel
closing = record (new_channel room) { joins = bobs 100; done = true; phase = deleting }

abbrev waiting : Delivery
waiting = record { target = room; from = bob; message = request join }

abbrev stuck : Relay
stuck = record { channels = (room, closing) ∷ []; pending = waiting ∷ [] }

abbrev crowded : Relay
crowded = record {
  channels = (room, record (new_channel room) { joins = bobs 100 }) ∷ [];
  pending = [];
}

crowded-Reach : Reach new_relay crowded
unfolding fill bobs run act process new_relay new_channel deliver_next new_message enqueue lookup
    insert list_beq
crowded-Reach = run-Reach (fill 100) here refl

crowded-Runs : (k : Bytes) → Runs crowded.channels k
unfolding lookup new_channel
crowded-Runs k ch found = ground (arith, found)

-- One more join, while the queue of joins is full.
lock_comes_back_example :
    (acts : List Action) × (t : Relay) × (run (record crowded { pending = waiting ∷ [] }) acts
      ≡ some t)
    × (t.pending ≡ [])
unfolding act process lookup list_beq
lock_comes_back_example =
    lock_comes_back {out = []} (requests bob (request join)) crowded-Reach refl crowded-Runs refl

stuck_is_reached : run new_relay stuck_schedule ≡ some stuck
unfolding stuck_schedule bobs run act process new_relay new_channel deliver_next new_message enqueue
    round_of process_round select_case delete lookup insert list_beq
stuck_is_reached = refl

stuck-IsStuck : IsStuck waiting [] closing stuck
unfolding bobs lookup list_beq
stuck-IsStuck = record { held = refl; found = refl; gone = refl; asks = refl; full = refl }

Stuck_forever_example : act stuck stops ≡ none
Stuck_forever_example = (Stuck_forever waiting [] closing stuck-IsStuck here).2

-- The limit on channels is passed: a room for each number below 51.
rooms : ℕ → List Action
rooms zero = []
rooms (suc n) = requests alice (record (request ingress) { channel = n ∷ [] }) ∷ delivers ∷ rooms n

channel_count : Option Relay → ℕ
channel_count none = 0
channel_count (some r) = length r.channels

fifty_one_channels : channel_count (run new_relay (rooms 51)) ≡ 51
unfolding channel_count rooms run act process new_relay new_channel deliver_next new_message enqueue
    lookup insert list_beq
fifty_one_channels = refl

-- Two clients join a room, and one of them leaves.
abbrev visited : Channel
visited = record (new_channel room) { clients = (bob, true) ∷ [] }

abbrev requests_taken : List Request
requests_taken = leaves alice ∷ joins bob ∷ joins alice ∷ []

abbrev all_sent : List Sent
all_sent =
    (alice, response_message room status_ok []) ∷ (bob, response_message room status_ok []) ∷ []

visit : History room visited requests_taken all_sent
unfolding new_channel new_message enqueue process_round select_case add_client on_leave request_of
    lookup insert delete list_beq
visit =
    takes leave_case
      (takes join_case
        (takes join_case
          (queued alice (request leave)
            (queued bob (request join) (queued alice (request join) starts refl) refl) refl)
          refl refl)
        refl refl)
      refl refl

History-refines_example : has bob visited.clients ≡ (room_of requests_taken).is_member bob
History-refines_example = (History-refines visit).0 bob

alice_is_told : answers room requests_taken alice ≡ response_message room status_ok [] ∷ []
unfolding answers answer room_of after admits empty_room list_beq
alice_is_told = refl
