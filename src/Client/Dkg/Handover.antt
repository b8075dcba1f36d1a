-- ===== src/Client/Dkg/Handover.antt =====
-- client/dkg.go: who gets the share, and what a second one does.
use mulsigo.Prelude.{
  ℕ, ◌≤◌, ◌≡◌, refl, true, false, Option, none, some, List, ◌++◌, length, arith, ◌∙◌, ap,
}
use mulsigo.Client.Dkg.{
  Generator, Dkg, process, on_response, share_effects, Wakeup, Outcome, await_nodes,
}
use mulsigo.Client.Dkg.Laws.{results, await_nodes_from}
use mulsigo.Client.Dkg.Share.{
  handing, sends_end, Phase, sending, taking, failed, returned, Node, hand_over, after_effects,
  Event, message, deals_out, take_share, run_on, step,
}

module _ (g : Generator) where
  open g use {State, Response, Share, process_response, certified, dist_key_share}

  -- A message with this response only.
  abbrev pub responds : Response → Event g
  responds x = message true (some (record { deal = none; response = some x; justification = none }))

  -- `Run` has returned.
  pub data IsOver : Phase Share → Type 0 where
    has_failed : IsOver failed
    has_returned : (s : Share) → IsOver (returned s)

  -- The state of a participant that has taken a response with which the key is certified.
  abbrev pub after : Node g → Response → Dkg g
  after n x = record { state = (process_response n.dkg.state x).0; done = true }

  response_step :
      (n : Node g) (x : Response) (s : Share)
      → n.held ≡ none
      → n.ended ≡ false
      → (process_response n.dkg.state x).1 ≡ none
      → certified (process_response n.dkg.state x).0 ≡ true
      → dist_key_share (process_response n.dkg.state x).0 ≡ some s
      → step g n (responds x) ≡ some (hand_over g (record n { dkg = after n x }) n.phase s)
  unfolding step process on_response share_effects after_effects hand_over
  response_step n x s h e j c k = ground (arith, h, e, j, c, k)

  -- What the node is once `Run` has returned the share.
  abbrev pub finished : Node g → Response → Share → Node g
  finished n x s = record n { dkg = after n x; phase = returned s; held = none }

  deals_first :
      (n : Node g) (t : ℕ) (rs : List (Option ℕ)) (ws : List Wakeup)
      → n.ended ≡ false
      → n.phase ≡ sending
      → t ≤ length rs
      → step g n (deals_out t (results rs ++ ws)) ≡ some (take_share g n n.held)
  unfolding step run_on
  deals_first n t rs ws e p h = ground (arith, e, p, await_nodes_from t 0 rs ws (omega arith))

  taken_none :
      (n : Node g)
      → n.held ≡ none
      → some (take_share g n n.held) ≡ some (record n { phase = taking })
  unfolding take_share
  taken_none n h = ground (arith, h)

  finished_taking :
      (n : Node g) (x : Response) (s : Share)
      → n.held ≡ none
      → some (hand_over g (record n { dkg = after n x; phase = taking }) taking s)
        ≡ some (finished n x s)
  unfolding hand_over
  finished_taking n x s h = ground (arith, h)

  held_sending :
      (n : Node g) (x : Response) (s : Share)
      → n.phase ≡ sending
      → some (hand_over g (record n { dkg = after n x }) n.phase s)
        ≡ some (record n { dkg = after n x; held = some (handing s) })
  unfolding hand_over
  held_sending n x s p = ground (arith, p)

  finished_held :
      (n : Node g) (x : Response) (s : Share)
      → some
          (take_share g (record n { dkg = after n x; held = some (handing s) }) (some (handing s)))
        ≡ some (finished n x s)
  unfolding take_share
  finished_held n x s = refl

  over_holds :
      (n : Node g) (ph : Phase Share) (s : Share)
      → IsOver ph
      → hand_over g n ph s ≡ record n { held = some (handing s) }
  unfolding hand_over
  over_holds n ph s has_failed = refl
  over_holds n ph s (has_returned r) = refl

  over_rests : (n : Node g) (ph : Phase Share) (o : Outcome) → IsOver ph → run_on g n ph o ≡ none
  unfolding run_on
  over_rests n ph o has_failed = refl
  over_rests n ph o (has_returned r) = refl

  held_over :
      (n : Node g) (x : Response) (s : Share)
      → IsOver n.phase
      → some (hand_over g (record n { dkg = after n x }) n.phase s)
        ≡ some (record n { dkg = after n x; held = some (handing s) })
  unfolding hand_over
  held_over n x s over = ap some (over_holds (record n { dkg = after n x }) n.phase s over)

  held_blocks :
      (n : Node g) (s : Share)
      → IsOver n.phase
      → n.held ≡ some (handing s)
      → (e : Event g) → step g n e ≡ none
  unfolding step run_on
  held_blocks n s over h (message b p) = ground (arith, h)
  held_blocks n s over h (sends_end rs) = ground (arith, h)
  held_blocks n s over h (deals_out t ws) =
      ground (arith, over_rests n n.phase (await_nodes t 0 ws) over)

  -- While `Run` sends its deals and no handler waits, two things can come in either order: a response
  -- that yields no justification and certifies the key, with a share, and the results of at least as
  -- many sends as the threshold, failed ones too. Both ways `Run` returns the share, and no handler
  -- waits.
  pub share_either_order :
      (n : Node g) (x : Response) (s : Share) (t : ℕ) (rs : List (Option ℕ)) (ws : List Wakeup)
      → n.phase ≡ sending
      → n.held ≡ none
      → n.ended ≡ false
      → (process_response n.dkg.state x).1 ≡ none
      → certified (process_response n.dkg.state x).0 ≡ true
      → dist_key_share (process_response n.dkg.state x).0 ≡ some s
      → t ≤ length rs
      → (a : Node g) × (b : Node g) × (step g n (deals_out t (results rs ++ ws)) ≡ some a)
        × (step g a (responds x) ≡ some (finished n x s))
        × (step g n (responds x) ≡ some b)
        × (step g b (deals_out t (results rs ++ ws)) ≡ some (finished n x s))
  share_either_order n x s t rs ws p h e j c k enough =
      let a : Node g = record n { phase = taking } in
      let b : Node g = record n { dkg = after n x; held = some (handing s) } in
      (
        a,
        b,
        deals_first n t rs ws e p enough ∙ taken_none n h,
        response_step a x s h e j c k ∙ finished_taking n x s h,
        response_step n x s h e j c k ∙ held_sending n x s p,
        deals_first b t rs ws e p enough ∙ finished_held n x s,
      )

  -- If a response that yields no justification and leaves the key certified, with a share, comes when
  -- `Run` has returned and no handler waits, then its handler waits for ever: it holds the share and
  -- the lock, and neither a message nor `Run` can take a step.
  pub late_response_blocks :
      (n : Node g) (x : Response) (s : Share)
      → IsOver n.phase
      → n.held ≡ none
      → n.ended ≡ false
      → (process_response n.dkg.state x).1 ≡ none
      → certified (process_response n.dkg.state x).0 ≡ true
      → dist_key_share (process_response n.dkg.state x).0 ≡ some s
      → (n' : Node g) × (step g n (responds x) ≡ some n')
        × (n'.held ≡ some (handing s))
        × ((e : Event g) → step g n' e ≡ none)
  late_response_blocks n x s over h e j c k =
      let n' : Node g = record n { dkg = after n x; held = some (handing s) } in
      (n', response_step n x s h e j c k ∙ held_over n x s over, refl, held_blocks n' s over refl)
