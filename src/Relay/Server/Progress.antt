-- ===== src/Relay/Server/Progress.antt =====
-- relay/relay.go: the lock of the relay is given back.
use mulsigo.Prelude.{
  has, ltb, map, Bool-cases, ◌==◌, ==_iff, Distinct, All, ◌≡◌, ◌≢◌, refl, sym, subst, none, some,
  List, [], ◌∷◌, Bytes, length, Map, lookup, insert, arith, list_eq, nat_eq, Option-cases, inl, inr,
  lookup-insert,
}
use mulsigo.Relay.Message.{leave_message, Address, RelayMessage, Sent}
use mulsigo.Relay.Channel.{new_channel, Channel}
use mulsigo.Relay.Server.{
  Relay, Delivery, max_channel, delete_of, new_relay, process, receive_down, deliver_next, Action,
  deletes, stops, requests, downs, delivers, rounds, act, run, Reach,
}
use mulsigo.Relay.Server.Invariant.{IsSafe, act-IsSafe, Reach-IsSafe}
use mulsigo.Relay.Server.Serving.{Runs, Ready, serve_all}

insert-Runs :
    (m : Map Bytes Channel) (id : Bytes) (k : Bytes)
    → Runs m k
    → Runs (insert id (new_channel id) m) k
unfolding new_channel
insert-Runs m id k h ch found = ground (arith, lookup-insert id k (new_channel id) m, h ch, found)

-- The calls that `Receive` makes for a list of channels.
abbrev leaves_for : Address → Map Bytes Channel → List Delivery
leaves_for addr m =
    map (λ (p : Bytes × Channel). record { target = p.0; from = addr; message = leave_message p.0 })
      m

leaves_for-All :
    (addr : Address) (id : Bytes) (m : Map Bytes Channel)
    → lookup id m ≡ none
    → All (λ (e : Delivery). e.target ≢ id) (leaves_for addr m)
unfolding lookup
leaves_for-All addr id [] missing = tt
leaves_for-All addr id ((j, ch) ∷ m) missing = elim (Bool-cases (j == id)) [
  | inl same ↦ ground (arith, same, missing)
  | inr other ↦ (
    λ e. ground (arith, other, ==_iff j id, e),
    leaves_for-All addr id m (ground (arith, other, missing)),
  )
]

leaves_for-Ready :
    (addr : Address) (m held : Map Bytes Channel)
    → Distinct m
    → ((k : Bytes) → Runs held k)
    → Ready held (leaves_for addr m)
leaves_for-Ready addr [] held d runs = tt
leaves_for-Ready addr ((j, ch) ∷ m) held d runs =
    (runs j, leaves_for-All addr j m d.0, leaves_for-Ready addr m held d.1 runs)

abbrev IsReady : Relay → Type 0
IsReady r = Ready r.channels r.pending

no_calls_left : (r : Relay) → r.pending ≡ [] → IsReady r
no_calls_left r free = subst (Ready r.channels) (sym free) tt

process-IsReady :
    (r : Relay) (from : Address) (m : RelayMessage)
    → r.pending ≡ []
    → ((k : Bytes) → Runs r.channels k)
    → IsReady (process r from m).0
unfolding process
process-IsReady r from m free runs = elim (Bool-cases (m.channel == [])) [
  | inl unnamed ↦ rw unnamed (no_calls_left r free)
  | inr named ↦ rw named (elim (Bool-cases (has m.channel r.channels)) [
    | inl held ↦ rw held (runs m.channel, tt, tt)
    | inr new ↦ rw new (elim (Bool-cases (ltb max_channel (length r.channels))) [
      | inl many ↦ rw many (no_calls_left r free)
      | inr few ↦ rw few (insert-Runs r.channels m.channel m.channel (runs m.channel), tt, tt)
    ])
  ])
]

receive_down-IsReady :
    (r : Relay) (addr : Address)
    → IsSafe r
    → ((k : Bytes) → Runs r.channels k)
    → IsReady (receive_down r addr)
unfolding receive_down
receive_down-IsReady r addr v runs =
    leaves_for-Ready addr r.channels r.channels v.distinct_channels runs

no_calls : (r : Relay) → r.pending ≡ [] → deliver_next r ≡ none
unfolding deliver_next
no_calls r free = ground (arith, free)

delete_keeps :
    (r : Relay) (id : Bytes) {s : Relay} {out : List Sent}
    → delete_of r id ≡ some (s, out)
    → r.pending ≡ []
    → s.pending ≡ []
unfolding delete_of
delete_keeps r id e free = ground (arith, free, e, Option-cases (lookup id r.channels))

act-IsReady :
    (r : Relay) (a : Action) {s : Relay} {out : List Sent}
    → IsSafe r
    → r.pending ≡ []
    → ((k : Bytes) → Runs r.channels k)
    → act r a ≡ some (s, out)
    → IsReady s
unfolding act
act-IsReady r (requests from m) {s} {out} v free runs e =
    subst IsReady (ground (arith, free, e)) (process-IsReady r from m free runs)
act-IsReady r (downs addr) {s} {out} v free runs e =
    subst IsReady (ground (arith, free, e)) (receive_down-IsReady r addr v runs)
act-IsReady r delivers {s} {out} v free runs e = ground (arith, no_calls r free, e)
act-IsReady r (rounds id c) {s} {out} v free runs e = no_calls_left s (ground (arith, free, e))
act-IsReady r (deletes id) {s} {out} v free runs e =
    no_calls_left s (delete_keeps r id {s = s} {out = out} (ground (arith, free, e)) free)
act-IsReady r stops {s} {out} v free runs e = no_calls_left s (ground (arith, free, e))

-- In each state that a schedule leads to in which the lock is free and every channel's goroutine is
-- in its loop: whatever action comes next, there is a schedule after it that gives the lock back,
-- however full the queues are.
pub lock_comes_back :
    {r s : Relay} {out : List Sent} (a : Action)
    → Reach new_relay r
    → r.pending ≡ []
    → ((k : Bytes) → Runs r.channels k)
    → act r a ≡ some (s, out)
    → (acts : List Action) × (t : Relay) × (run s acts ≡ some t) × (t.pending ≡ [])
lock_comes_back {r} {s} a past free runs e =
    let v = Reach-IsSafe past in
    serve_all s.pending s (act-IsSafe r a e v) refl (act-IsReady r a v free runs e)
