-- ===== src/Examples/Events.antt =====
-- event/event.go at concrete inputs.
use mulsigo.Prelude.{ℕ, ◌≡◌, nat_eq, pair_eq, lookup, insert, refl, List, [], ◌∷◌, count}
use mulsigo.Event.{register, unregister, new_simple_dispatcher, publish}
use mulsigo.Event.Laws.{Op, registers, unregisters, run, spec, publish-run}

abbrev history : List (Op ℕ ℕ)
history = registers 0 7 ∷ registers 0 8 ∷ registers 1 7 ∷ registers 0 9 ∷ unregisters 0 7 ∷ []

history_published : publish (run new_simple_dispatcher history) 0 ≡ (9, 0) ∷ (8, 0) ∷ []
unfolding publish run register unregister new_simple_dispatcher lookup insert
history_published = refl

publish-run_example : count {A = ℕ × ℕ} (8, 0) (publish (run new_simple_dispatcher history) 0) ≡ 1
unfolding spec
publish-run_example = publish-run history 0 8
