-- ===== src/Event/Laws.antt =====
-- event/event.go: the dispatcher against its specification, a set of pairs of a name and a receiver.
use mulsigo.Prelude.{
  ◌-◌, ◌≡◌, refl, Bool, true, false, ◌&&◌, List, [], ◌∷◌, ◌++◌, map, count, count-append, pair_eq,
  lookup, lookup-insert, Eq, ◌==◌, if◌then◌else◌, arith, ==_iff, Option-cases, inl, inr, ◌∙◌,
}
use mulsigo.Event.{
  SimpleDispatcher, new_simple_dispatcher, receivers, contains, register, index_of, swap_remove,
  unregister, publish,
}
use mulsigo.Event.SwapRemove.{count-swap_remove, count-absent, contains-count, count-not_contains}

pub data Op (N R : Type 0) : Type 0 where
  registers unregisters : N → R → Op N R

module _ {N R : Type 0} ⦃n : Eq N⦄ ⦃r : Eq R⦄ where
  unfoldable pub apply : SimpleDispatcher N R → Op N R → SimpleDispatcher N R
  apply s (registers e p) = register s e p
  apply s (unregisters e p) = unregister s e p

  unfoldable pub run : SimpleDispatcher N R → List (Op N R) → SimpleDispatcher N R
  unfolding apply
  run s [] = s
  run s (o ∷ os) = run (apply s o) os

  -- The specification: whether a receiver is registered for a name is what the last call about the two said.
  abbrev pub spec_apply : (N → R → Bool) → Op N R → N → R → Bool
  spec_apply a (registers e p) f q = if e == f && p == q then true else a f q
  spec_apply a (unregisters e p) f q = if e == f && p == q then false else a f q

  unfoldable pub spec : (N → R → Bool) → List (Op N R) → N → R → Bool
  spec a [] = a
  spec a (o ∷ os) = spec (spec_apply a o) os

  abbrev Refines : SimpleDispatcher N R → (N → R → Bool) → Type 0
  Refines s a = (f : N) (q : R) → count q (receivers s f) ≡ (if a f q then 1 else 0)

  receivers-register :
      (s : SimpleDispatcher N R) (e f : N) (p : R)
      → receivers (register s e p) f ≡ (
          if e == f
          then (if contains (receivers s e) p then receivers s e else receivers s e ++ p ∷ [])
          else receivers s f)
  unfolding register receivers
  receivers-register s e f p =
      ground (arith, lookup-insert e f (receivers s e ++ p ∷ []) s.registered, ==_iff e f)

  count-register :
      (s : SimpleDispatcher N R) (a : N → R → Bool) (e f : N) (p q : R)
      → Refines s a
      → count q (receivers (register s e p) f) ≡ (if spec_apply a (registers e p) f q then 1 else 0)
  unfolding count
  count-register s a e f p q h = ground (
    arith,
    receivers-register s e f p,
    ==_iff e f,
    ==_iff p q,
    h f q,
    h e p,
    contains-count (receivers s e) p,
    count-not_contains (receivers s e) p,
    count-append q (receivers s e) (p ∷ []),
  )

  receivers-unregister :
      (s : SimpleDispatcher N R) (e f : N) (p q : R)
      → count q (receivers (unregister s e p) f)
        ≡ (if e == f && p == q then count q (receivers s f) - 1 else count q (receivers s f))
  unfolding unregister receivers count
  receivers-unregister s e f p q = elim (Option-cases (lookup e s.registered)) [
    | inl missing ↦ ground (arith, ==_iff e f)
    | inr (arr, found) ↦ elim (Option-cases (index_of arr p)) [
      | inl absent ↦ ground (arith, ==_iff e f, ==_iff p q, count-absent arr p)
      | inr (i, at) ↦ ground (
        arith,
        ==_iff e f,
        ==_iff p q,
        lookup-insert e f (swap_remove arr i) s.registered,
        count-swap_remove arr p q i,
      )
    ]
  ]

  count-unregister :
      (s : SimpleDispatcher N R) (a : N → R → Bool) (e f : N) (p q : R)
      → Refines s a
      → count q (receivers (unregister s e p) f)
        ≡ (if spec_apply a (unregisters e p) f q then 1 else 0)
  count-unregister s a e f p q h = ground (arith, receivers-unregister s e f p q, h f q)

  Refines-apply :
      (s : SimpleDispatcher N R) (a : N → R → Bool) (o : Op N R)
      → Refines s a
      → Refines (apply s o) (spec_apply a o)
  unfolding apply
  Refines-apply s a (registers e p) h f q = count-register s a e f p q h
  Refines-apply s a (unregisters e p) h f q = count-unregister s a e f p q h

  Refines-run :
      (s : SimpleDispatcher N R) (a : N → R → Bool) (os : List (Op N R))
      → Refines s a
      → Refines (run s os) (spec a os)
  unfolding run spec
  Refines-run s a [] h = h
  Refines-run s a (o ∷ os) h = Refines-run (apply s o) (spec_apply a o) os (Refines-apply s a o h)

  count-publish :
      (xs : List R) (f : N) (q : R) → count {A = R × N} (q, f) (map (λ p. (p, f)) xs) ≡ count q xs
  unfolding count
  count-publish [] f q = refl
  count-publish (x ∷ xs) f q = ground (arith, count-publish xs f q, ==_iff f f)

  -- After any history of registrations and removals, publishing an event calls each receiver once
  -- if the last call about it and that event's name registered it, and not at all otherwise.
  pub publish-run :
      (os : List (Op N R)) (f : N) (q : R)
      → count {A = R × N} (q, f) (publish (run new_simple_dispatcher os) f)
        ≡ (if spec (λ _ _. false) os f q then 1 else 0)
  unfolding publish
  publish-run os f q =
      count-publish _ f q
      ∙ Refines-run new_simple_dispatcher (λ _ _. false) os
          (λ _ _. unfold new_simple_dispatcher receivers lookup count in refl) f q
