-- ===== src/Client/Dkg/Casting.antt =====
-- client/dkg.go: a handler that broadcasts a justification whose sends all succeed.
use mathlib.Core.Option.{some-injective}
use mulsigo.Prelude.{
  ℕ, sym, subst, ◌<◌, ◌≡◌, refl, false, Option, none, some, List, All, Bool, arith, ◌∙◌,
}
use mulsigo.Client.Router.{Error}
use mulsigo.Client.Router.Laws.{collect_waits}
use mulsigo.Client.Dkg.{
  Generator, Packet, Effect, process, on_response, share_effects, await_nodes, Wakeup, Outcome,
  confirmed, too_few, waiting,
}
use mulsigo.Client.Dkg.Share.{
  Phase, sending, taking, failed, returned, casting, Node, Event, message, sends_end, deals_out,
  take_share, run_on, after_effects, broadcast_ends, step,
}
use mulsigo.Client.Dkg.Handover.{responds}

module _ (g : Generator) where
  open g use {State, Response, Justification, Share, process_response}

  -- No result of a send is an error.
  abbrev pub AllSent : Event g → Type 0
  AllSent (message b p) = Unit
  AllSent (sends_end rs) = All (λ r. r ≡ none) rs
  AllSent (deals_out t ws) = Unit

  -- What can happen while every send succeeds.
  pub data Later (n : Node g) : Node g → Type 0 where
    here : Later n n
    next : {m k : Node g} (e : Event g) → Later n m → AllSent e → step g m e ≡ some k → Later n k

  -- The participant in the broadcast of the justification that the response has led to.
  abbrev pub in_broadcast : Node g → Response → Node g
  in_broadcast n x =
      let (d, out) =
        share_effects g (record (n.dkg) { state = (process_response n.dkg.state x).0 }) in
      record n { dkg = d; held = some (casting out) }

  cast_step :
      (n : Node g) (x : Response) (y : Justification)
      → n.held ≡ none
      → n.ended ≡ false
      → (process_response n.dkg.state x).1 ≡ some y
      → step g n (responds g x) ≡ some (in_broadcast n x)
  unfolding step process on_response after_effects
  cast_step n x y h e j = ground (arith, h, e, j)

  -- `Run` has not got a share.
  abbrev pub NoShare : Phase Share → Type 0
  NoShare sending = Unit
  NoShare taking = Unit
  NoShare failed = Unit
  NoShare (returned s) = ⊥

  record IsCasting (out : List (Effect g)) (n m : Node g) : Type 0 where
    casts : m.held ≡ some (casting out)
    same_peers : m.peers ≡ n.peers
    no_share : NoShare m.phase

  module _ (out : List (Effect g)) (n : Node g) where
    take_casting :
        (m : Node g) → IsCasting out n m → take_share g m m.held ≡ record m { phase = taking }
    unfolding take_share
    take_casting m c = ground (arith, c.casts)

    run_keeps :
        (m : Node g) (ph : Phase Share) (o : Outcome) {k : Node g}
        → IsCasting out n m
        → run_on g m ph o ≡ some k
        → IsCasting out n k
    unfolding run_on
    run_keeps m sending confirmed {k} c e =
        subst (IsCasting out n)
          (sym (take_casting m c) ∙ some-injective (take_share g m m.held) k e)
          (record { casts = c.casts; same_peers = c.same_peers; no_share = tt })
    run_keeps m sending too_few {k} c e =
        subst (IsCasting out n) (some-injective (record m { phase = failed }) k e)
          (record { casts = c.casts; same_peers = c.same_peers; no_share = tt })
    run_keeps m sending waiting {k} c e = ground (arith, e)
    run_keeps m taking o {k} c e = ground (arith, e)
    run_keeps m failed o {k} c e = ground (arith, e)
    run_keeps m (returned s) o {k} c e = ground (arith, e)

    message_waits :
        (m : Node g) (b : Bool) (p : Option (Packet g))
        → IsCasting out n m
        → step g m (message b p) ≡ none
    unfolding step
    message_waits m b p c = ground (arith, c.casts)

    sends_wait :
        (m : Node g) (rs : List (Option Error))
        → 0 < n.peers
        → IsCasting out n m
        → All (λ r. r ≡ none) rs
        → step g m (sends_end rs) ≡ none
    unfolding step broadcast_ends
    sends_wait m rs some_peer c sent =
        ground
          (arith, c.casts, collect_waits m.peers rs (omega (arith, some_peer, c.same_peers)) sent)

    deals_run :
        (m : Node g) (t : ℕ) (ws : List Wakeup) {k : Node g}
        → step g m (deals_out t ws) ≡ some k
        → run_on g m m.phase (await_nodes t 0 ws) ≡ some k
    unfolding step
    deals_run m t ws h = ground (arith, h)

    step_keeps :
        (m : Node g) (e : Event g) {k : Node g}
        → 0 < n.peers
        → IsCasting out n m
        → AllSent e
        → step g m e ≡ some k
        → IsCasting out n k
    step_keeps m (message b p) some_peer c sent h = ground (arith, message_waits m b p c, h)
    step_keeps m (sends_end rs) some_peer c sent h =
        ground (arith, sends_wait m rs some_peer c sent, h)
    step_keeps m (deals_out t ws) some_peer c sent h =
        run_keeps m m.phase (await_nodes t 0 ws) c (deals_run m t ws h)

  Later-IsCasting :
      (out : List (Effect g)) (n : Node g) {m : Node g}
      → 0 < n.peers
      → IsCasting out n n
      → Later n m
      → IsCasting out n m
  Later-IsCasting out n some_peer c here = c
  Later-IsCasting out n some_peer c (next {m} e past sent h) =
      step_keeps out n m e some_peer (Later-IsCasting out n some_peer c past) sent h

  -- A response that yields a justification comes before `Run` has got a share, while no handler waits,
  -- and there is someone to broadcast to. If all sends of the broadcast succeed, its handler never
  -- goes on: it has the lock, so that no further message is handled, and `Run` gets no share.
  pub justification_blocks :
      (n : Node g) (x : Response) (y : Justification) (b : Bool) (p : Option (Packet g))
      {m : Node g}
      → n.held ≡ none
      → n.ended ≡ false
      → 0 < n.peers
      → NoShare n.phase
      → (process_response n.dkg.state x).1 ≡ some y
      → Later (in_broadcast n x) m
      → (step g n (responds g x) ≡ some (in_broadcast n x))
        × (m.held ≡ (in_broadcast n x).held)
        × (step g m (message b p) ≡ none)
        × NoShare m.phase
  justification_blocks n x y b p h e some_peer waits j later =
      let start = in_broadcast n x in
      let out =
        (share_effects g (record (n.dkg) { state = (process_response n.dkg.state x).0 })).1 in
      let c =
        Later-IsCasting out start some_peer
          (record { casts = refl; same_peers = refl; no_share = waits }) later in
      (cast_step n x y h e j, c.casts, message_waits out start _ b p c, c.no_share)
