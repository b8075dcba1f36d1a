-- ===== src/Relay/Server/Serving.antt =====
-- relay/relay.go: calls of `newMessage` end, as long as the goroutines of their channels run.
use mulsigo.Prelude.{
  All, ◌≡◌, ◌≢◌, ◌≤◌, refl, sym, subst, ◌∙◌, none, some, List, [], ◌∷◌, ◌++◌, Bytes, length, Map,
  lookup, insert, arith, list_eq, nat_eq, Entries-lookup, Option-cases, inl, inr, lookup-insert,
  ==_refl, ==_ne,
}
use mulsigo.Relay.Message.{
  Address, RelayMessage, Sent, MessageType, join, join_response, leave, ingress, egress,
}
use mulsigo.Relay.Channel.{
  MessageInfo, Channel, Case, running, new_message, process_round, join_case, leave_case,
  incoming_case, select_case, on_leave, on_incoming, add_client, enqueue, channel_queue_size,
}
use mulsigo.Relay.Channel.Laws.{IsBounded}
use mathlib.Core.Option.{some-injective}
use mulsigo.Relay.Server.{
  Reach, next, Relay, Delivery, deliver_next, Action, delivers, rounds, round_of, act, run,
}
use mulsigo.Relay.Server.Invariant.{ChannelOk, IsSafe, act-IsSafe}

-- After its first entry is taken, a queue takes another.
enqueue_room :
    {A : Type 0} (a : A) (q : List A)
    → length (a ∷ q) ≤ channel_queue_size
    → (b : A) → enqueue q b ≡ some (q ++ b ∷ [])
unfolding enqueue
enqueue_room a q few b = ground (arith, few)

enqueue_full :
    {A : Type 0} (q : List A) (b : A)
    → enqueue q b ≡ none
    → (a : A) × (rest : List A) × (q ≡ a ∷ rest)
unfolding enqueue
enqueue_full [] b h = ground (arith, h)
enqueue_full (a ∷ rest) b h = (a, rest, refl)

add_client_queues : (ch : Channel) (a : Address) → (add_client ch a).0.joins ≡ ch.joins
unfolding add_client
add_client_queues ch a = ground arith

on_leave_queues : (ch : Channel) (a : Address) → (on_leave ch a).leaves ≡ ch.leaves
unfolding on_leave
on_leave_queues ch a = ground arith

-- A channel takes a message, after a round of its goroutine.
abbrev RoundLetsIn : Channel → Address → RelayMessage → Type 0
RoundLetsIn ch from m =
    (c : Case) × (ch1 : Channel) × (out : List Sent) × (ch2 : Channel) × (process_round ch c
      ≡ some (ch1, out))
    × (new_message ch1 from m ≡ some ch2)

module _ (ch : Channel) (from : Address) (m : RelayMessage) (v : IsBounded ch)
    (runs : ch.phase ≡ running) (blocked : new_message ch from m ≡ none) where
  join_lets_in : m.kind ≡ join → RoundLetsIn ch from m
  unfolding new_message process_round select_case
  join_lets_in k =
      let full : enqueue ch.joins from ≡ none =
        ground (arith, k, blocked, Option-cases (enqueue ch.joins from)) in
      let (a, rest, e) = enqueue_full ch.joins from full in
      let (ch1, out) = add_client (record ch { joins = rest }) a in
      (
        join_case,
        ch1,
        out,
        record ch1 { joins = rest ++ from ∷ [] },
        ground (arith, runs, e),
        ground (
          arith,
          k,
          add_client_queues (record ch { joins = rest }) a,
          enqueue_room a rest (subst (λ q. length q ≤ channel_queue_size) e v.few_joins) from,
        ),
      )

  leave_lets_in : m.kind ≡ leave → RoundLetsIn ch from m
  unfolding new_message process_round select_case
  leave_lets_in k =
      let full : enqueue ch.leaves from ≡ none =
        ground (arith, k, blocked, Option-cases (enqueue ch.leaves from)) in
      let (a, rest, e) = enqueue_full ch.leaves from full in
      let ch1 = on_leave (record ch { leaves = rest }) a in
      (
        leave_case,
        ch1,
        [],
        record ch1 { leaves = rest ++ from ∷ [] },
        ground (arith, runs, e),
        ground (
          arith,
          k,
          on_leave_queues (record ch { leaves = rest }) a,
          enqueue_room a rest (subst (λ q. length q ≤ channel_queue_size) e v.few_leaves) from,
        ),
      )

  ingress_lets_in : m.kind ≡ ingress → RoundLetsIn ch from m
  unfolding new_message process_round select_case
  ingress_lets_in k =
      let info : MessageInfo = record { address = from; msg = m.payload } in
      let full : enqueue ch.incoming info ≡ none =
        ground (arith, k, blocked, Option-cases (enqueue ch.incoming info)) in
      let (a, rest, e) = enqueue_full ch.incoming info full in
      let ch1 = record ch { incoming = rest } in
      (
        incoming_case,
        ch1,
        on_incoming ch1 a,
        record ch1 { incoming = rest ++ info ∷ [] },
        ground (arith, runs, e),
        ground (
          arith,
          k,
          enqueue_room a rest (subst (λ q. length q ≤ channel_queue_size) e v.few_incoming) info,
        ),
      )

round_makes_room :
    (ch : Channel) (from : Address) (m : RelayMessage) (k : MessageType)
    → IsBounded ch
    → ch.phase ≡ running
    → new_message ch from m ≡ none
    → m.kind ≡ k
    → RoundLetsIn ch from m
unfolding new_message
round_makes_room ch from m join v runs blocked k = join_lets_in ch from m v runs blocked k
round_makes_room ch from m leave v runs blocked k = leave_lets_in ch from m v runs blocked k
round_makes_room ch from m ingress v runs blocked k = ingress_lets_in ch from m v runs blocked k
round_makes_room ch from m join_response v runs blocked k = ground (arith, k, blocked)
round_makes_room ch from m egress v runs blocked k = ground (arith, k, blocked)

-- A schedule after which the holder has made one call more, and the other channels are as before.
record Serves (d : Delivery) (ps : List Delivery) (r : Relay) : Type 0 where
  acts : List Action
  after : Relay
  ran : run r acts ≡ some after
  left : after.pending ≡ ps
  safe : IsSafe after
  others : (k : Bytes) → k ≢ d.target → lookup k after.channels ≡ lookup k r.channels

module _ (d : Delivery) (ps : List Delivery) (r : Relay) (v : IsSafe r)
    (held : r.pending ≡ d ∷ ps) where
  deliver_missing :
      lookup d.target r.channels ≡ none → act r delivers ≡ some (record r { pending = ps }, [])
  unfolding act deliver_next
  deliver_missing missing = ground (arith, held, missing)

  deliver_taken :
      (ch ch' : Channel)
      → lookup d.target r.channels ≡ some ch
      → new_message ch d.from d.message ≡ some ch'
      → act r delivers
        ≡ some (record { channels = insert d.target ch' r.channels; pending = ps }, [])
  unfolding act deliver_next
  deliver_taken ch ch' found taken = ground (arith, held, found, taken)

  serve_no_channel : lookup d.target r.channels ≡ none → Serves d ps r
  unfolding run
  serve_no_channel missing =
      let step = deliver_missing missing in
      record {
        acts = delivers ∷ [];
        after = record r { pending = ps };
        ran = ground (arith, step);
        left = refl;
        safe = act-IsSafe r delivers step v;
        others = λ k ne. refl;
      }

  serve_with_room :
      (ch ch' : Channel)
      → lookup d.target r.channels ≡ some ch
      → new_message ch d.from d.message ≡ some ch'
      → Serves d ps r
  unfolding run
  serve_with_room ch ch' found taken =
      let step = deliver_taken ch ch' found taken in
      record {
        acts = delivers ∷ [];
        after = record { channels = insert d.target ch' r.channels; pending = ps };
        ran = ground (arith, step);
        left = refl;
        safe = act-IsSafe r delivers step v;
        others = λ k ne.
            ground
              (arith, lookup-insert d.target k ch' r.channels, ==_ne d.target k (λ e. ne (sym e)));
      }

  round_first :
      (ch ch1 : Channel) (c : Case) (out : List Sent)
      → lookup d.target r.channels ≡ some ch
      → process_round ch c ≡ some (ch1, out)
      → act r (rounds d.target c)
        ≡ some (record r { channels = insert d.target ch1 r.channels }, out)
  unfolding act round_of
  round_first ch ch1 c out found goes = ground (arith, found, goes)

serve_without_room :
    (d : Delivery) (ps : List Delivery) (r : Relay) (ch : Channel)
    → IsSafe r
    → r.pending ≡ d ∷ ps
    → lookup d.target r.channels ≡ some ch
    → RoundLetsIn ch d.from d.message
    → Serves d ps r
unfolding run
serve_without_room d ps r ch v held found (c, ch1, out, ch2, goes, taken) =
    let r1 = record r { channels = insert d.target ch1 r.channels } in
    let step = round_first d ps r v held ch ch1 c out found goes in
    let there : lookup d.target r1.channels ≡ some ch1 =
      ground (arith, lookup-insert d.target d.target ch1 r.channels, ==_refl d.target) in
    let served =
      serve_with_room d ps r1 (act-IsSafe r (rounds d.target c) step v) held ch1 ch2 there taken in
    record {
      acts = rounds d.target c ∷ served.acts;
      after = served.after;
      ran = ground (arith, step, served.ran);
      left = served.left;
      safe = served.safe;
      others = λ k ne.
          served.others k ne
          ∙ ground
              (arith, lookup-insert d.target k ch1 r.channels, ==_ne d.target k (λ e. ne (sym e)));
    }

-- The goroutine of the channel of that id is in its loop, if there is one.
abbrev pub Runs : Map Bytes Channel → Bytes → Type 0
Runs m id = (ch : Channel) → lookup id m ≡ some ch → ch.phase ≡ running

serve_one :
    (d : Delivery) (ps : List Delivery) (r : Relay)
    → IsSafe r
    → r.pending ≡ d ∷ ps
    → Runs r.channels d.target
    → Serves d ps r
serve_one d ps r v held runs = elim (Option-cases (lookup d.target r.channels)) [
  | inl missing ↦ serve_no_channel d ps r v held missing
  | inr (ch, found) ↦ elim (Option-cases (new_message ch d.from d.message)) [
    | inl blocked ↦ serve_without_room d ps r ch v held found (
        round_makes_room ch d.from d.message d.message.kind
          (Entries-lookup ChannelOk d.target r.channels v.bounded_channels found) (runs ch found)
          blocked refl)
    | inr (ch', taken) ↦ serve_with_room d ps r v held ch ch' found taken
  ]
]

-- The calls are for different channels, all of which run.
abbrev pub Ready : Map Bytes Channel → List Delivery → Type 0
Ready m [] = Unit
Ready m (d ∷ ps) = Runs m d.target × All (λ (e : Delivery). e.target ≢ d.target) ps × Ready m ps

other_channels_kept :
    (m m' : Map Bytes Channel) (id : Bytes) (ps : List Delivery)
    → All (λ (e : Delivery). e.target ≢ id) ps
    → ((k : Bytes) → k ≢ id → lookup k m' ≡ lookup k m)
    → Ready m ps
    → Ready m' ps
other_channels_kept m m' id [] ne same h = h
other_channels_kept m m' id (d ∷ ps) ne same h = (
  λ ch found. h.0 ch (sym (same d.target ne.0) ∙ found),
  h.1,
  other_channels_kept m m' id ps ne.1 same h.2,
)

run-append : (r s : Relay) (xs ys : List Action) → run r xs ≡ some s → run r (xs ++ ys) ≡ run s ys
unfolding run
run-append r s [] ys e = ground (arith, e)
run-append r s (a ∷ xs) ys e = elim (Option-cases (act r a)) [
  | inl refused ↦ ground (arith, refused, e)
  | inr ((r', out), goes) ↦ ground (arith, goes, e, run-append r' s xs ys)
]

pub serve_all :
    (ps : List Delivery) (r : Relay)
    → IsSafe r
    → r.pending ≡ ps
    → Ready r.channels ps
    → (acts : List Action) × (t : Relay) × (run r acts ≡ some t) × (t.pending ≡ [])
unfolding run
serve_all [] r v held h = ([], r, refl, held)
serve_all (d ∷ ps) r v held h =
    let s = serve_one d ps r v held h.0 in
    let (acts, t, ran, free) =
      serve_all ps s.after s.safe s.left
        (other_channels_kept r.channels s.after.channels d.target ps h.1 s.others h.2) in
    (s.acts ++ acts, t, run-append r s.after s.acts acts s.ran ∙ ran, free)

-- A schedule that runs leads to a state that is reached.
pub run-Reach : {r s t : Relay} (acts : List Action) → Reach r s → run s acts ≡ some t → Reach r t
unfolding run
run-Reach {r} [] past e = subst (Reach r) (some-injective _ _ e) past
run-Reach {s = s} (a ∷ acts) past e = elim (Option-cases (act s a)) [
  | inl refused ↦ ground (arith, refused, e)
  | inr ((s', out), goes) ↦ run-Reach acts (next a past goes) (ground (arith, goes, e))
]
