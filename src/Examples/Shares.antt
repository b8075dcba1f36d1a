-- ===== src/Examples/Shares.antt =====
-- client/dkg.go over a generator that is certified by its first response.
use mulsigo.Prelude.{ℕ, ◌+◌, ◌≡◌, refl, true, false, none, some, [], ◌∷◌, ◌++◌, ltb, arith}
use mulsigo.Client.Dkg.{Generator, await_nodes, share_effects, timed_out}
use mulsigo.Client.Dkg.Laws.{results}
use mulsigo.Client.Dkg.Share.{
  handing, Node, sending, taking, returned, Event, deals_out, run_on, take_share, step,
}
use mulsigo.Client.Dkg.Casting.{NoShare, Later, here, next, in_broadcast, justification_blocks}
use mulsigo.Client.Dkg.Handover.{
  has_returned, responds, finished, share_either_order, late_response_blocks,
}

abbrev counting : Generator
counting = record {
  State = ℕ;
  Deal = ℕ;
  Response = ℕ;
  Justification = ℕ;
  Share = ℕ;
  process_deal = λ s d. (s, none);
  process_response = λ s r. (s + r, none);
  certified = λ s. ltb 0 s;
  dist_key_share = λ s. some s;
}

abbrev start : Node counting
start = record {
  dkg = record { state = 0; done = false };
  peers = 2;
  phase = sending;
  held = none;
  ended = false;
}

share_either_order_example :
    (a : Node counting) × (b : Node counting) × (step counting start
        (deals_out 1 (results (some 4 ∷ []) ++ timed_out ∷ []))
      ≡ some a)
    × (step counting a (responds counting 5) ≡ some (finished counting start 5 5))
    × (step counting start (responds counting 5) ≡ some b)
    × (step counting b (deals_out 1 (results (some 4 ∷ []) ++ timed_out ∷ []))
        ≡ some (finished counting start 5 5))
share_either_order_example =
    share_either_order counting start 5 5 1 (some 4 ∷ []) (timed_out ∷ []) refl refl refl refl refl
      refl (omega arith)

abbrev late : Node counting
late = record {
  dkg = record { state = 5; done = true };
  peers = 2;
  phase = returned 5;
  held = none;
  ended = false;
}

late_response_blocks_example :
    (n' : Node counting) × (step counting late (responds counting 1) ≡ some n')
    × (n'.held ≡ some (handing 6))
    × ((e : Event counting) → step counting n' e ≡ none)
late_response_blocks_example =
    late_response_blocks counting late 1 6 (has_returned 5) refl refl refl refl refl

-- The same, where a response yields the justification 9.
abbrev justifying : Generator
justifying = record counting { process_response = λ s r. (s + r, some 9) }

abbrev not_yet : Node justifying
not_yet = record {
  dkg = record { state = 0; done = false };
  peers = 2;
  phase = sending;
  held = none;
  ended = false;
}

-- The handler broadcasts, and then the sends of the deals end.
abbrev casts_on : Node justifying
casts_on = record (in_broadcast justifying not_yet 5) { phase = taking }

deals_after : Later justifying (in_broadcast justifying not_yet 5) casts_on
unfolding step run_on take_share await_nodes share_effects
deals_after = next (deals_out 1 (results (some 4 ∷ []) ++ timed_out ∷ [])) here tt refl

justification_blocks_example :
    (step justifying not_yet (responds justifying 5) ≡ some (in_broadcast justifying not_yet 5))
    × (casts_on.held ≡ (in_broadcast justifying not_yet 5).held)
    × (step justifying casts_on (responds justifying 3) ≡ none)
    × NoShare justifying taking
justification_blocks_example =
    justification_blocks justifying not_yet 5 9 true
      (some (record { deal = none; response = some 3; justification = none })) refl refl
      (omega arith) tt refl deals_after
