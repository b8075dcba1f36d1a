-- ===== src/Client/Dkg.antt =====
-- client/dkg.go: one participant of the distributed key generation. The generator itself is the
-- kyber library's, a parameter; what the code asks of the router is its result.
pub mod Laws
pub mod Share
pub mod Handover
pub mod Casting
use mulsigo.Prelude.{
  ℕ, zero, suc, ◌+◌, ◌/◌, Bool, true, false, Option, none, some, List, [], ◌∷◌, ◌++◌, Bytes, length,
  Result, ok, err, ltb, ◌==◌, ◌&&◌, if◌then◌else◌, list_eq, nat_eq,
}

-- The code's `dkg.DistKeyGenerator`: its state and the calls that the code makes of it.
pub record Generator : Type 1 where
  pub State : Type 0
  pub Deal : Type 0
  pub Response : Type 0
  pub Justification : Type 0
  pub Share : Type 0
  pub process_deal : State → Deal → State × Option Response
  pub process_response : State → Response → State × Option Justification
  pub certified : State → Bool
  pub dist_key_share : State → Option Share

-- The default threshold.
unfoldable pub threshold : ℕ → ℕ
threshold n = n / 2 + 1

-- The loop of `NewDKG` over the participants: the first whose identifier is `id`. `none` is -1.
unfoldable pub index_from : ℕ → List Bytes → Bytes → Option ℕ
index_from i [] id = none
index_from i (p ∷ ps) id = if p == id then some i else index_from (suc i) ps id

pub record Setup : Type 0 where
  pub n : ℕ
  pub t : ℕ
  pub i : ℕ

-- `NewDKG`: `none` is the error that the own key is not among the participants.
unfoldable pub new_dkg : List Bytes → Bytes → Option Setup
unfolding index_from threshold
new_dkg participants id = elim (index_from 0 participants id) [
  | none ↦ none
  | some idx ↦
      some (record { n = length participants; t = threshold (length participants); i = idx })
]

-- What wakes the loop of `sendDeals`: the result of one send, or the timer.
pub data Wakeup : Type 0 where
  sent : Option ℕ → Wakeup
  timed_out : Wakeup

pub data Outcome : Type 0 where
  confirmed : Outcome
  too_few : Outcome
  waiting : Outcome

-- The loop of `sendDeals` from `nbConfirmedNodes` on: the error of a send is not looked at.
unfoldable pub await_nodes : ℕ → ℕ → List Wakeup → Outcome
await_nodes t k [] = if ltb k t then waiting else confirmed
await_nodes t k (w ∷ ws) =
    let rest = await_nodes t (k + 1) ws in
    if ltb k t then elim w [ sent e ↦ rest | timed_out ↦ too_few ] else confirmed

module _ (g : Generator) where
  open g use {
    State, Deal, Response, Justification, Share, process_deal, process_response, certified,
    dist_key_share,
  }

  -- A `ClientMessage`: whether its type is PROTOCOL_PDKG, and its `PDkg` part with its three fields.
  pub record Packet : Type 0 where
    pub deal : Option Deal
    pub response : Option Response
    pub justification : Option Justification

  -- What a call does besides: a broadcast to the participants, handing the share to `Run` (which
  -- takes one), and the ends of the process.
  pub data Effect : Type 0 where
    answers : Response → Effect
    justifies : Justification → Effect
    hands : Share → Effect
    fatal : Effect
    panics : Effect

  -- `done` is the field of the same name; no code reads it.
  pub record Dkg : Type 0 where
    pub state : State
    pub done : Bool

  unfoldable pub on_deal : Dkg → Deal → Dkg × List Effect
  on_deal d x =
      let (s, resp) = process_deal d.state x in
      (record d { state = s }, elim resp [ none ↦ fatal ∷ [] | some r ↦ answers r ∷ [] ])

  unfoldable pub share_effects : Dkg → Dkg × List Effect
  share_effects d =
      if certified d.state
      then elim (dist_key_share d.state) [
        | none ↦ (d, panics ∷ [])
        | some s ↦ (record d { done = true }, hands s ∷ [])
      ]
      else (d, [])

  unfoldable pub on_response : Dkg → Response → Dkg × List Effect
  unfolding share_effects
  on_response d x =
      let (s, j) = process_response d.state x in
      let (d', out) = share_effects (record d { state = s }) in
      (d', elim j [ none ↦ out | some y ↦ justifies y ∷ out ])

  -- `Process`: `pdkg` says that the message is of the protocol's type.
  unfoldable pub process : Dkg → Bool → Option Packet → Dkg × List Effect
  unfolding on_deal on_response
  process d false p = (d, [])
  process d true none = (d, [])
  process d true (some p) = elim p.deal [
    | some x ↦ on_deal d x
    | none ↦ elim p.response [ some x ↦ on_response d x | none ↦ (d, []) ]
  ]
