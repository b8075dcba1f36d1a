-- ===== src/Client/Dkg/Share.antt =====
-- client/dkg.go: the handlers and `Run` of one participant, which meet at the Go channel `shareCh`. It
-- has no buffer: a handler that sends on it keeps the lock until `Run` takes the share.
use mulsigo.Prelude.{ℕ, Bool, true, Option, none, some, List, [], ◌∷◌, if◌then◌else◌, get_elem?}
use mulsigo.Client.Router
use mulsigo.Client.Router.{Error, collect}
use mulsigo.Client.Dkg.{
  Generator, Dkg, Packet, Effect, answers, justifies, hands, fatal, panics, process, Wakeup,
  Outcome, confirmed, too_few, waiting, await_nodes,
}

-- The loop of `sendDeals` over the deals by index: who is sent which one. `none` is the panic on an
-- index out of range.
unfoldable pub deal_sends : {A D : Type 0} → List A → List (ℕ × D) → Option (List (A × D))
deal_sends participants [] = some []
deal_sends participants ((i, deal) ∷ deals) = elim (get_elem? participants i) [
  | none ↦ none
  | some p ↦ elim (deal_sends participants deals) [
    | none ↦ none
    | some out ↦ some ((p, deal) ∷ out)
  ]
]

-- `Run` sends the deals, waits for the share, or has returned.
pub data Phase {ℓ} (S : Type ℓ) : Type ℓ where
  sending taking failed : Phase S
  returned : S → Phase S

module _ (g : Generator) where
  open g use {
    State, Deal, Response, Justification, Share, process_deal, process_response, certified,
    dist_key_share,
  }

  -- What a handler that has the lock does next: it waits in `Broadcast` with more to do after it, or it
  -- waits to hand over a share.
  pub data Held : Type 0 where
    casting : List (Effect g) → Held
    handing : Share → Held

  -- `peers` is how many participants a broadcast goes to; `ended`: the program is over.
  pub record Node : Type 0 where
    pub dkg : Dkg g
    pub peers : ℕ
    pub phase : Phase Share
    pub held : Option Held
    pub ended : Bool

  unfoldable pub hand_over : Node → Phase Share → Share → Node
  hand_over n taking s = record n { phase = returned s; held = none }
  hand_over n sending s = record n { held = some (handing s) }
  hand_over n failed s = record n { held = some (handing s) }
  hand_over n (returned r) s = record n { held = some (handing s) }

  -- The handler up to where it waits, or its end. A share is the last thing that it hands over.
  unfoldable pub after_effects : Node → List (Effect g) → Node
  unfolding hand_over
  after_effects n [] = record n { held = none }
  after_effects n (answers r ∷ out) = record n { held = some (casting out) }
  after_effects n (justifies j ∷ out) = record n { held = some (casting out) }
  after_effects n (hands s ∷ out) = hand_over n n.phase s
  after_effects n (fatal ∷ out) = record n { ended = true }
  after_effects n (panics ∷ out) = record n { ended = true }

  -- A message arrives for the handlers, the sends of a broadcast give these results, in order, or
  -- `Run` gets on with these wakeups of its wait for the deals.
  pub data Event : Type 0 where
    message : Bool → Option (Packet g) → Event
    sends_end : List (Option Error) → Event
    deals_out : ℕ → List Wakeup → Event

  -- `Broadcast` returns, with an error or without, and the handler goes on; `none` if it does not.
  unfoldable pub broadcast_ends : Node → List (Effect g) → Router.Outcome → Option Node
  unfolding after_effects
  broadcast_ends n out (Router.returned e) = some (after_effects n out)
  broadcast_ends n out Router.waiting = none

  -- `Run` after its loop: it takes the share that a handler holds, or waits for one.
  unfoldable pub take_share : Node → Option Held → Node
  take_share n none = record n { phase = taking }
  take_share n (some (casting out)) = record n { phase = taking }
  take_share n (some (handing s)) = record n { phase = returned s; held = none }

  unfoldable pub run_on : Node → Phase Share → Outcome → Option Node
  unfolding take_share
  run_on n sending confirmed = some (take_share n n.held)
  run_on n sending too_few = some (record n { phase = failed })
  run_on n sending waiting = none
  run_on n taking o = none
  run_on n failed o = none
  run_on n (returned s) o = none

  -- One step; `none` if it has to wait.
  unfoldable pub step : Node → Event → Option Node
  unfolding process after_effects run_on await_nodes collect broadcast_ends
  step n (message pdkg p) = if n.ended then none else elim n.held [
    | some h ↦ none
    | none ↦
        let (d, out) = process g n.dkg pdkg p in some (after_effects (record n { dkg = d }) out)
  ]
  step n (sends_end rs) = if n.ended then none else elim n.held [
    | none ↦ none
    | some (handing s) ↦ none
    | some (casting out) ↦ broadcast_ends n out (collect 0 n.peers rs)
  ]
  step n (deals_out t ws) = if n.ended then none else run_on n n.phase (await_nodes t 0 ws)
