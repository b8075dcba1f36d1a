-- ===== src/Relay/Multiplexer/Blocking/Held.antt =====
-- relay/channel.go: a channel that is not read keeps the multiplexer's lock taken.
use mulsigo.Prelude.{
  ◌<◌, ◌++◌, List-cases, subst, ap, sym, ◌∙◌, ◌+◌, drop-drop, ◌⊎◌, ℕ, drop, ◌≡◌, ◌≢◌, refl, Option,
  none, some, List, [], ◌∷◌, Bytes, length, lookup, insert, list_eq, nat_eq, arith, lookup-insert,
  ==_ne, ==_refl, Option-cases, Bool-cases, ==_iff, Result, ◌==◌, inl, inr,
}
use mulsigo.Relay.Message.{RelayMessage}
use mulsigo.Relay.Multiplexer.{
  read_message, ClientChannel, Multiplexer, Error, routine_round, enter_channel, finish_channel,
  channel_done, receive_queue, queue_size,
}
use mulsigo.Relay.Multiplexer.Blocking.{
  Shared, Action, hears, resumes, enters, fails_join, closes, reads, resume, read_channel, entered,
  locked, act, Ignoring, here, next, IsHeld, waiting_in, left,
}

locked_waits :
    (s : Shared) (rm : RelayMessage) (m : Option Multiplexer) → s.held ≡ some rm → locked s m ≡ none
unfolding locked
locked_waits s rm m h = ground (arith, h)

resume_waits :
    (m : Multiplexer) (rm : RelayMessage) (ch : ClientChannel)
    → lookup rm.channel m.channels ≡ some ch
    → length ch.egress_queue ≡ queue_size
    → resume m rm ≡ none
unfolding resume routine_round
resume_waits m rm ch found full = ground (arith, found, full)

read_other :
    (m m' : Multiplexer) (k id : Bytes)
    → read_channel m k ≡ some m'
    → k ≢ id
    → lookup id m'.channels ≡ lookup id m.channels
unfolding read_channel
read_other m m' k id e other = elim (Option-cases (lookup k m.channels)) [
  | inl missing ↦ ground (arith, missing, e)
  | inr (ch, found) ↦ elim (Option-cases (receive_queue ch)) [
    | inl empty ↦ ground (arith, found, empty, e)
    | inr ((r, ch'), got) ↦
        ground (arith, found, got, e, ==_ne k id other, lookup-insert k id ch' m.channels)
  ]
]

drop_0 : (q : Option (List RelayMessage)) → left 0 q ≡ q
drop_0 none = refl
drop_0 (some q) = refl

receive_takes :
    (ch ch' : ClientChannel) (r : Result Error (Bytes × Bytes))
    → receive_queue ch ≡ some (r, ch')
    → ch'.egress_queue ≡ drop 1 ch.egress_queue
unfolding receive_queue
receive_takes ch ch' r got = ground (arith, got)

read_leaves :
    (m m' : Multiplexer) (k j : Bytes)
    → read_channel m k ≡ some m'
    → (n : ℕ) × (waiting_in j m' ≡ left n (waiting_in j m))
unfolding waiting_in read_channel
read_leaves m m' k j e = elim (Option-cases (lookup k m.channels)) [
  | inl missing ↦ ground (arith, missing, e)
  | inr (ch, found) ↦ elim (Option-cases (receive_queue ch)) [
    | inl empty ↦ ground (arith, found, empty, e)
    | inr ((r, ch'), got) ↦ elim (Bool-cases (k == j)) [
      | inl same ↦ (
        1,
        ground (
          arith,
          found,
          got,
          e,
          same,
          (==_iff k j).0 same,
          lookup-insert k j ch' m.channels,
          receive_takes ch ch' r got,
        ),
      )
      | inr other ↦ (
        0,
        ground (
          arith,
          found,
          got,
          e,
          other,
          lookup-insert k j ch' m.channels,
          drop_0 (waiting_in j m),
        ),
      )
    ]
  ]
]

-- While the routine waits, nothing but a read goes on.
act_held :
    (id : Bytes) (s : Shared) (a : Action)
    → IsHeld id s
    → ((k : Bytes) × (a ≡ reads k)) ⊎ (act s a ≡ none)
unfolding act
act_held id s (hears i) v = inr (ground (arith, v.waits.1))
act_held id s resumes v =
    let (rm, holds, to) = v.waits in
    let (ch, found, full) = v.full in
    inr (
      ground (
        arith,
        holds,
        resume_waits s.mux rm ch (subst (λ k. lookup k s.mux.channels ≡ some ch) (sym to) found)
            full,
      ))
act_held id s (enters j) v =
    inr (locked_waits s v.waits.0 (entered s.mux (enter_channel s.mux j)) v.waits.1)
act_held id s (fails_join j x) v =
    inr (locked_waits s v.waits.0 (some (finish_channel s.mux j (some x)).0) v.waits.1)
act_held id s (closes j) v = inr (locked_waits s v.waits.0 (some (channel_done s.mux j)) v.waits.1)
act_held id s (reads k) v = inl (k, refl)

act_reads :
    (s : Shared) (k : Bytes) {u : Shared}
    → act s (reads k) ≡ some u
    → (m' : Multiplexer) × (read_channel s.mux k ≡ some m') × (u ≡ record s { mux = m' })
unfolding act
act_reads s k {u} e = elim (Option-cases (read_channel s.mux k)) [
  | inl empty ↦ ground (arith, empty, e)
  | inr (m', got) ↦ (m', got, ground (arith, got, e))
]

left-left : (a b : ℕ) (q : Option (List RelayMessage)) → left b (left a q) ≡ left (a + b) q
left-left a b none = refl
left-left a b (some q) = ap some (drop-drop a b q)

queue_still_full :
    (id k : Bytes) (s : Shared) (m' : Multiplexer)
    → IsHeld id s
    → k ≢ id
    → read_channel s.mux k ≡ some m'
    → IsHeld id (record s { mux = m' })
queue_still_full id k s m' v other got =
    let (ch, found, full) = v.full in
    record { waits = v.waits; full = (ch, read_other s.mux m' k id got other ∙ found, full) }

-- What holds of the states that are reached while the channel goes unread.
record Waits (id : Bytes) (s t : Shared) : Type 0 where
  is_held : IsHeld id t
  keeps : t.held ≡ s.held
  only_reads : (j : Bytes) → (n : ℕ) × (waiting_in j t.mux ≡ left n (waiting_in j s.mux))

still_waiting :
    (id k : Bytes) (s t : Shared) {u : Shared}
    → Waits id s t
    → k ≢ id
    → act t (reads k) ≡ some u
    → Waits id s u
still_waiting id k s t w ne e =
    let (m', got, is_u) = act_reads t k e in
    subst (λ x. Waits id s x) (sym is_u)
      record {
        is_held = queue_still_full id k t m' w.is_held ne got;
        keeps = w.keeps;
        only_reads = λ j.
            let (n, before) = w.only_reads j in
            let (n', after) = read_leaves t.mux m' k j got in
            (n + n', after ∙ ap (left n') before ∙ left-left n n' (waiting_in j s.mux));
      }

Ignoring-Waits :
    (id : Bytes) (s : Shared) {t : Shared} → IsHeld id s → Ignoring id s t → Waits id s t
Ignoring-Waits id s v here = record {
  is_held = v;
  keeps = refl;
  only_reads = λ j. (0, sym (drop_0 (waiting_in j s.mux)));
}
Ignoring-Waits id s v (next {t} {u} a steps other e) =
    let w = Ignoring-Waits id s v steps in
    elim (act_held id t a w.is_held) [
      | inl (k, is_read) ↦
          still_waiting id k s t w (λ p. other (is_read ∙ ap reads p))
            (subst (λ x. act t x ≡ some u) is_read e)
      | inr blocked ↦ ground (arith, blocked, e)
    ]

receive_full :
    (ch : ClientChannel)
    → length ch.egress_queue ≡ queue_size
    → (r : Result Error (Bytes × Bytes)) × (ch' : ClientChannel) × (receive_queue ch
        ≡ some (r, ch'))
      × (length ch'.egress_queue < queue_size)
unfolding receive_queue
receive_full ch full = elim (List-cases ch.egress_queue) [
  | inl empty ↦ ground (arith, empty, full)
  | inr (rm, rest, is_cons) ↦ (
    read_message rm,
    record ch { egress_queue = rest },
    ground (arith, is_cons),
    ground (arith, is_cons, full),
  )
]

resume_goes :
    (m : Multiplexer) (rm : RelayMessage) (ch : ClientChannel)
    → lookup rm.channel m.channels ≡ some ch
    → length ch.egress_queue < queue_size
    → (u : Shared) × (resume m rm ≡ some u) × (u.held ≡ none)
unfolding resume routine_round
resume_goes m rm ch found room = (
  record {
    mux = record m {
      channels =
          insert rm.channel (record ch { egress_queue = ch.egress_queue ++ rm ∷ [] }) m.channels;
    };
    held = none;
  },
  ground (arith, found, room),
  refl,
)

read_resumes :
    (id : Bytes) (s : Shared)
    → IsHeld id s
    → (t : Shared) × (u : Shared) × (act s (reads id) ≡ some t)
      × (act t resumes ≡ some u)
      × (u.held ≡ none)
unfolding act read_channel
read_resumes id s v =
    let (rm, holds, to) = v.waits in
    let (ch, found, full) = v.full in
    let (r, ch', got, room) = receive_full ch full in
    let m' = record s.mux { channels = insert id ch' s.mux.channels } in
    let there : lookup rm.channel m'.channels ≡ some ch' =
      ground (arith, lookup-insert id rm.channel ch' s.mux.channels, to, ==_refl id) in
    let (u, goes, free) = resume_goes m' rm ch' there room in
    (record s { mux = m' }, u, ground (arith, found, got), ground (arith, holds, goes), free)

-- While the routine waits with a message for a channel that nobody reads, it goes on waiting, and
-- nothing but a read can be done: no message comes off the connection, and `Channel`, the end of a
-- failed join and `channelDone` wait, for every channel. So the queue of each channel only loses
-- messages from its front. A read of that channel lets the routine go on and give the lock up.
pub unread_channel_blocks :
    (id : Bytes) (s t : Shared) (a : Action) (j : Bytes)
    → IsHeld id s
    → Ignoring id s t
    → (t.held ≡ s.held)
      × (((k : Bytes) × (a ≡ reads k)) ⊎ (act t a ≡ none))
      × ((n : ℕ) × (waiting_in j t.mux ≡ left n (waiting_in j s.mux)))
      × ((r : Shared) × (u : Shared) × (act t (reads id) ≡ some r)
          × (act r resumes ≡ some u)
          × (u.held ≡ none))
unread_channel_blocks id s t a j v steps =
    let w = Ignoring-Waits id s v steps in
    (w.keeps, act_held id t a w.is_held, w.only_reads j, read_resumes id t w.is_held)
