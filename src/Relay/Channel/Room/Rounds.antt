-- ===== src/Relay/Channel/Room/Rounds.antt =====
-- relay/relay.go: a round of the channel's goroutine does what its request does to the room.
use mathlib.Core.Option.{some-injective}
use mulsigo.Prelude.{
  ◌≡◌, ◌↔◌, refl, sym, subst, true, Option, some, List, [], ◌∷◌, length, has, list_eq, nat_eq,
  arith, lookup-insert, lookup-delete, length-insert, length-delete, Bool-cases, inl, inr, ◌∙◌,
  Distinct,
}
use mulsigo.Relay.Message.{Address, Sent}
use mulsigo.Relay.Channel.{
  Channel, Case, finished_case, join_case, leave_case, incoming_case, MessageInfo, running, ended,
  add_client, on_leave, on_incoming, select_case, process_round,
}
use mulsigo.Relay.Channel.Laws.{IsBounded, sent_to, sent_to-on_incoming}
use mulsigo.Relay.Channel.Room.{
  Request, joins, leaves, says, finishes, Room, admits, after, answer, request_of,
}

pub record Models (ch : Channel) (room : Room) : Type 0 where
  pub members : (c : Address) → has c ch.clients ≡ room.is_member c
  pub count : length ch.clients ≡ room.size
  pub runs : (ch.phase ≡ running) ↔ (room.is_open ≡ true)

add_client-Models :
    (ch : Channel) (room : Room) (a : Address)
    → ch.phase ≡ running
    → Models ch room
    → Models (add_client ch a).0 (after room (joins a))
unfolding add_client after admits
add_client-Models ch room a r v = record {
  members =
      λ c. ground (arith, v.members a, v.members c, lookup-insert a c true ch.clients, v.count);
  count = ground (arith, v.members a, v.count, length-insert a true ch.clients);
  runs = ground (arith, v.members a, v.count, v.runs);
}

add_client-answer :
    (ch : Channel) (room : Room) (a c : Address)
    → Models ch room
    → sent_to c (add_client ch a).1 ≡ answer ch.id room (joins a) c
unfolding add_client answer admits sent_to
add_client-answer ch room a c v = ground (arith, v.members a, v.count)

add_client_id : (ch : Channel) (a : Address) → (add_client ch a).0.id ≡ ch.id
unfolding add_client
add_client_id ch a = ground arith

on_leave_id : (ch : Channel) (a : Address) → (on_leave ch a).id ≡ ch.id
unfolding on_leave
on_leave_id ch a = ground arith

on_leave-Models :
    (ch : Channel) (room : Room) (a : Address)
    → ch.phase ≡ running
    → Distinct ch.clients
    → Models ch room
    → Models (on_leave ch a) (after room (leaves a))
unfolding on_leave after
on_leave-Models ch room a r d v = record {
  members = λ c. ground (arith, v.members c, lookup-delete a c ch.clients);
  count = ground (arith, v.members a, v.count, length-delete a ch.clients d);
  runs = ground (arith, v.members a, v.count, length-delete a ch.clients d);
}

abbrev pub Answers : Channel → Room → Request → List Sent → Type 0
Answers ch room q out = (c : Address) → sent_to c out ≡ answer ch.id room q c

-- What a round does to the channel is what its request does to the room.
pub record Refines (ch : Channel) (room : Room) (q : Request) (ch' : Channel) (out : List Sent)
    : Type 0 where
  pub models : Models ch' (after room q)
  pub sends : Answers ch room q out
  pub same : ch'.id ≡ ch.id

abbrev pub RoundRefines : Channel → Room → Request → Option (Channel × List Sent) → Type 0
RoundRefines ch room q o =
    (ch' : Channel) (out : List Sent) → o ≡ some (ch', out) → Refines ch room q ch' out

-- A case whose round is known.
round_at :
    (ch : Channel) (room : Room) (q : Request) (ch' : Channel) (out : List Sent)
    {o : Option (Channel × List Sent)}
    → o ≡ some (ch', out)
    → Refines ch room q ch' out
    → RoundRefines ch room q o
round_at ch room q ch' out e v x y h =
    subst (λ (s : Channel × List Sent). Refines ch room q s.0 s.1) (some-injective _ _ (sym e ∙ h))
      v

module _ (ch : Channel) (room : Room) (r : ch.phase ≡ running) (v : Models ch room) where
  joins_round :
      (l : List Address) (q : Request)
      → ch.joins ≡ l
      → request_of ch join_case ≡ some q
      → RoundRefines ch room q (process_round ch join_case)
  unfolding request_of process_round select_case
  joins_round [] q e rq = absurd (ground arith)
  joins_round (a ∷ rest) q e rq =
      let ch1 = record ch { joins = rest } in
      let step = add_client ch1 a in
      let v1 : Models ch1 room = record { members = v.members; count = v.count; runs = v.runs } in
      subst (λ x. RoundRefines ch room x (process_round ch join_case)) (ground arith)
        (round_at ch room (joins a) step.0 step.1 (ground arith) (record {
          models = add_client-Models ch1 room a r v1;
          sends = λ c. add_client-answer ch1 room a c v1;
          same = add_client_id ch1 a;
        }))

  leaves_round :
      (l : List Address) (q : Request)
      → ch.leaves ≡ l
      → request_of ch leave_case ≡ some q
      → IsBounded ch
      → RoundRefines ch room q (process_round ch leave_case)
  unfolding request_of process_round select_case sent_to answer
  leaves_round [] q e rq b = absurd (ground arith)
  leaves_round (a ∷ rest) q e rq b =
      let ch1 = record ch { leaves = rest } in
      let v1 : Models ch1 room = record { members = v.members; count = v.count; runs = v.runs } in
      subst (λ x. RoundRefines ch room x (process_round ch leave_case)) (ground arith)
        (round_at ch room (leaves a) (on_leave ch1 a) [] (ground arith) (record {
          models = on_leave-Models ch1 room a r b.distinct_clients v1;
          sends = λ c. refl;
          same = on_leave_id ch1 a;
        }))

  says_round :
      (l : List MessageInfo) (q : Request)
      → ch.incoming ≡ l
      → request_of ch incoming_case ≡ some q
      → IsBounded ch
      → RoundRefines ch room q (process_round ch incoming_case)
  unfolding request_of process_round select_case after answer on_incoming
  says_round [] q e rq b = absurd (ground arith)
  says_round (info ∷ rest) q e rq b =
      let ch1 = record ch { incoming = rest } in
      subst (λ x. RoundRefines ch room x (process_round ch incoming_case)) (ground arith)
        (round_at ch room (says info) ch1 (on_incoming ch1 info) (ground arith) (record {
          models = record { members = v.members; count = v.count; runs = v.runs };
          sends = λ c.
              ground (arith, sent_to-on_incoming ch info c b, v.members info.address, v.members c);
          same = refl;
        }))

  finishes_round :
      (q : Request)
      → request_of ch finished_case ≡ some q
      → RoundRefines ch room q (process_round ch finished_case)
  unfolding request_of process_round select_case after answer sent_to
  finishes_round q rq = elim (Bool-cases ch.finished) [
    | inr waits ↦ absurd (ground arith)
    | inl closed ↦
        subst (λ x. RoundRefines ch room x (process_round ch finished_case)) (ground arith)
          (round_at ch room finishes (record ch { phase = ended }) [] (ground arith)
            (record {
              models = record { members = v.members; count = v.count; runs = ground arith };
              sends = λ c. refl;
              same = refl;
            }))
  ]

  -- A round refines the request that it takes.
  pub round_refines :
      (c : Case) (q : Request)
      → request_of ch c ≡ some q
      → IsBounded ch
      → RoundRefines ch room q (process_round ch c)
  round_refines finished_case q rq b = finishes_round q rq
  round_refines join_case q rq b = joins_round ch.joins q refl rq
  round_refines leave_case q rq b = leaves_round ch.leaves q refl rq b
  round_refines incoming_case q rq b = says_round ch.incoming q refl rq b

pub process_round_running :
    (ch : Channel) (c : Case) {ch' : Channel} {out : List Sent}
    → process_round ch c ≡ some (ch', out)
    → ch.phase ≡ running
unfolding process_round
process_round_running ch c h = ground arith
