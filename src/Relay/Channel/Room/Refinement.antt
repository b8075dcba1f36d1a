-- ===== src/Relay/Channel/Room/Refinement.antt =====
-- relay/relay.go: over its whole life the channel's code does to its clients what the room does.
use mulsigo.Prelude.{
  ◌≡◌, ◌↔◌, refl, true, some, List, [], ◌∷◌, ◌++◌, Bytes, length, lookup, has, list_eq, nat_eq,
  arith, ◌∙◌,
}
use mulsigo.Relay.Message.{Address, RelayMessage, Sent}
use mulsigo.Relay.Channel.{Channel, Case, running, new_channel, new_message, process_round, stop}
use mulsigo.Relay.Channel.Laws.{
  IsBounded, new_channel-IsBounded, new_message-IsBounded, process_round-IsBounded, stop-IsBounded,
  sent_to,
}
use mulsigo.Relay.Channel.Room.{Request, Room, empty_room, room_of, answers, request_of}
use mulsigo.Relay.Channel.Room.Rounds.{Models, round_refines, process_round_running}

sent_to-append :
    (c : Address) (xs ys : List Sent) → sent_to c (xs ++ ys) ≡ sent_to c xs ++ sent_to c ys
unfolding sent_to
sent_to-append c [] ys = refl
sent_to-append c ((a, m) ∷ xs) ys = ground (arith, sent_to-append c xs ys)

-- The life of the channel of that id: the requests that it has taken, the newest first, and all that
-- it has sent. Requests are queued, and it may be stopped, at any moment.
pub data History (id : Bytes) : Channel → List Request → List Sent → Type 0 where
  starts : History id (new_channel id) [] []
  queued :
      {ch ch' : Channel} {qs : List Request} {out : List Sent} (from : Address) (m : RelayMessage)
      → History id ch qs out
      → new_message ch from m ≡ some ch'
      → History id ch' qs out
  takes :
      {ch ch' : Channel} {qs : List Request} {out new : List Sent} {q : Request} (c : Case)
      → History id ch qs out
      → process_round ch c ≡ some (ch', new)
      → request_of ch c ≡ some q
      → History id ch' (q ∷ qs) (out ++ new)
  stopped :
      {ch : Channel} {qs : List Request} {out : List Sent}
      → History id ch qs out
      → History id (stop ch) qs out

new_message_same :
    (ch : Channel) (from : Address) (m : RelayMessage) {ch' : Channel}
    → new_message ch from m ≡ some ch'
    → (ch'.clients ≡ ch.clients) × (ch'.phase ≡ ch.phase) × (ch'.id ≡ ch.id)
unfolding new_message
new_message_same ch from m h = (ground arith, ground arith, ground arith)

stop_same :
    (ch : Channel)
    → ((stop ch).clients ≡ ch.clients) × ((stop ch).phase ≡ ch.phase) × ((stop ch).id ≡ ch.id)
unfolding stop
stop_same ch = (ground arith, ground arith, ground arith)

-- What holds of a channel with its history.
record HistoryOk (id : Bytes) (ch : Channel) (qs : List Request) (out : List Sent) : Type 0 where
  pub bounded : IsBounded ch
  pub models : Models ch (room_of qs)
  pub told : (c : Address) → sent_to c out ≡ answers id qs c
  pub named : ch.id ≡ id

same_clients :
    (ch ch' : Channel) (room : Room)
    → (ch'.clients ≡ ch.clients) × (ch'.phase ≡ ch.phase) × (ch'.id ≡ ch.id)
    → Models ch room
    → Models ch' room
same_clients ch ch' room (c, p, i) v = record {
  members = λ a. rw c (v.members a);
  count = rw c v.count;
  runs = rw p v.runs;
}

History-Ok :
    {id : Bytes} {ch : Channel} {qs : List Request} {out : List Sent}
    → History id ch qs out
    → HistoryOk id ch qs out
unfolding room_of answers
History-Ok {id} starts = record {
  bounded = new_channel-IsBounded id;
  models =
      unfold new_channel empty_room lookup in
      record { members = λ c. refl; count = refl; runs = ground arith };
  told = λ c. unfold sent_to in refl;
  named = unfold new_channel in refl;
}
History-Ok {id} {qs = qs} (queued {ch = ch} {ch' = ch'} from m past h) =
    let v = History-Ok past in
    let s = new_message_same ch from m h in
    record {
      bounded = new_message-IsBounded ch from m h v.bounded;
      models = same_clients ch ch' (room_of qs) s v.models;
      told = v.told;
      named = s.2 ∙ v.named;
    }
History-Ok {id}
      (takes {ch = ch} {ch' = ch'} {qs = qs} {out = out} {new = new} {q = q} c past h rq) =
    let v = History-Ok past in
    let s =
      round_refines ch (room_of qs) (process_round_running ch c h) v.models c q rq v.bounded ch' new
        h in
    record {
      bounded = process_round-IsBounded ch c h v.bounded;
      models = s.models;
      told = λ a. cc (sent_to-append a out new, v.told a, s.sends a, v.named);
      named = s.same ∙ v.named;
    }
History-Ok {id} {qs = qs} (stopped {ch = ch} past) =
    let v = History-Ok past in
    let s = stop_same ch in
    record {
      bounded = stop-IsBounded ch v.bounded;
      models = same_clients ch (stop ch) (room_of qs) s v.models;
      told = v.told;
      named = s.2 ∙ v.named;
    }

-- A channel refines the room: over its whole life, however requests are queued, taken and
-- interleaved, its clients are the members of the room that the requests taken make, it serves as
-- long as that room is open, and each client was sent exactly the room's answers to it, in order.
pub History-refines :
    {id : Bytes} {ch : Channel} {qs : List Request} {out : List Sent}
    → History id ch qs out
    → ((c : Address) → has c ch.clients ≡ (room_of qs).is_member c)
      × (length ch.clients ≡ (room_of qs).size)
      × ((ch.phase ≡ running) ↔ ((room_of qs).is_open ≡ true))
      × ((c : Address) → sent_to c out ≡ answers id qs c)
History-refines past =
    let v = History-Ok past in (v.models.members, v.models.count, v.models.runs, v.told)
