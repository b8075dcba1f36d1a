-- ===== src/Network/Dispatch/Calls.antt =====
-- network/dispatch.go: which calls of `Process` the two dispatchers make.
use mathlib.Core.List.{Perm, perm_middle}
use mathlib.Core.List.Perm
use mulsigo.Prelude.{
  subst, ◌≡◌, refl, sym, ap, ◌∙◌, ◌⊎◌, inl, inr, Option, none, some, List, [], ◌∷◌, ◌++◌, Map,
  lookup, Eq, ◌==◌, if◌then◌else◌, arith, append-nil, append_assoc, Option-cases,
}
use mulsigo.Network.Dispatch.{among, dispatch, lookup-register_processor}
use mulsigo.Network.Dispatch.Locked.{
  Processor, default_processor, Run, Dispatcher, RoutineDispatcher, Action, registers,
  registers_func, dispatches, ends, new_dispatcher, new_routine_dispatcher, at_most_one, process,
  register_processor_func, processors_after, call_of, blocking_step, routine_step,
}

module _ {T P F A M : Type 0} ⦃e : Eq T⦄ (type_of : M → T) where
  -- The actions at a blocking dispatcher, newest first, and the state they lead to.
  pub data Blocking : List (Action T P F A M) → Dispatcher T P F A M → Type 0 where
    begins : Blocking [] new_dispatcher
    acts :
        {past : List (Action T P F A M)} {d d' : Dispatcher T P F A M} (a : Action T P F A M)
        → Blocking past d
        → blocking_step type_of d a ≡ some d'
        → Blocking (a ∷ past) d'

  -- The same for a routine dispatcher, while any of the goroutines that were started makes its call.
  pub data Routine : List (Action T P F A M) → RoutineDispatcher T P F A M → Type 0 where
    is_new : Routine [] new_routine_dispatcher
    is_called :
        {past : List (Action T P F A M)} {d : RoutineDispatcher T P F A M} (a : Action T P F A M)
        → Routine past d
        → Routine (a ∷ past) (routine_step type_of d a)
    makes :
        {past : List (Action T P F A M)} {d : RoutineDispatcher T P F A M}
        (before after : List (Run P F A M)) (c : Run P F A M)
        → Routine past d
        → d.started ≡ before ++ c ∷ after
        → Routine past (record d { started = before ++ after; made = d.made ++ c ∷ [] })

  -- The processor that was registered last for a type.
  pub last_for : List (Action T P F A M) → T → Option (Processor P F)
  last_for [] t = none
  last_for (registers p ts ∷ past) t = if among t ts then some p else last_for past t
  last_for (registers_func m f ∷ past) t =
      if type_of m == t then some (default_processor f) else last_for past t
  last_for (dispatches from m ∷ past) t = last_for past t
  last_for (ends ∷ past) t = last_for past t

  -- One call for each message, in order, of the processor that was registered last for its type; a
  -- message of a type without one leads to no call.
  pub expected : List (Action T P F A M) → List (Run P F A M)
  expected [] = []
  expected (registers p ts ∷ past) = expected past
  expected (registers_func m f ∷ past) = expected past
  expected (dispatches from m ∷ past) = elim (last_for past (type_of m)) [
    | none ↦ expected past
    | some p ↦ expected past ++ process p from m ∷ []
  ]
  expected (ends ∷ past) = expected past

  -- The calls of a dispatcher, with the one that goes on.
  abbrev pub all_calls : Dispatcher T P F A M → List (Run P F A M)
  all_calls d = d.made ++ at_most_one d.current

  -- The processors are those that were registered last.
  abbrev Knows : Map T (Processor P F) → List (Action T P F A M) → Type 0
  Knows procs past = (t : T) → lookup t procs ≡ last_for past t

  processors_after-Knows :
      (procs : Map T (Processor P F)) (past : List (Action T P F A M)) (a : Action T P F A M)
      → Knows procs past
      → Knows (processors_after type_of procs a) (a ∷ past)
  unfolding processors_after last_for register_processor_func among
  processors_after-Knows procs past (registers p ts) h t =
      ground (arith, lookup-register_processor procs p ts t, h t)
  processors_after-Knows procs past (registers_func m f) h t =
      ground (arith, lookup-register_processor procs (default_processor f) (type_of m ∷ []) t, h t)
  processors_after-Knows procs past (dispatches from m) h t = h t
  processors_after-Knows procs past ends h t = h t

  expected_after :
      (procs : Map T (Processor P F)) (past : List (Action T P F A M)) (a : Action T P F A M)
      → Knows procs past
      → expected (a ∷ past) ≡ expected past ++ at_most_one (call_of type_of procs a)
  unfolding expected call_of dispatch
  expected_after procs past (registers p ts) h = sym (append-nil (expected past))
  expected_after procs past (registers_func m f) h = sym (append-nil (expected past))
  expected_after procs past (dispatches from m) h =
      elim (Option-cases (last_for past (type_of m))) [
        | inl unknown ↦ ground (arith, unknown, h (type_of m), append-nil (expected past))
        | inr (p, known) ↦ ground (arith, known, h (type_of m))
      ]
  expected_after procs past ends h = sym (append-nil (expected past))

  -- Both parts of what a blocking dispatcher keeps true.
  abbrev Obeys : Dispatcher T P F A M → List (Action T P F A M) → Type 0
  Obeys d past = Knows d.procs past × (all_calls d ≡ expected past)

  blocking_step_lem :
      (d : Dispatcher T P F A M) (a : Action T P F A M) {d' : Dispatcher T P F A M}
      → blocking_step type_of d a ≡ some d'
      → (d'.procs ≡ processors_after type_of d.procs a)
        × (all_calls d' ≡ all_calls d ++ at_most_one (call_of type_of d.procs a))
  unfolding blocking_step processors_after call_of
  blocking_step_lem d (registers p ts) e = elim (Option-cases d.current) [
    | inl free ↦ (ground (arith, free, e), ground (arith, free, e, append-nil d.made))
    | inr (c, busy) ↦ ground (arith, busy, e)
  ]
  blocking_step_lem d (registers_func m f) e = elim (Option-cases d.current) [
    | inl free ↦ (ground (arith, free, e), ground (arith, free, e, append-nil d.made))
    | inr (c, busy) ↦ ground (arith, busy, e)
  ]
  blocking_step_lem d (dispatches from m) e = elim (Option-cases d.current) [
    | inl free ↦ (ground (arith, free, e), ground (arith, free, e, append-nil d.made))
    | inr (c, busy) ↦ ground (arith, busy, e)
  ]
  blocking_step_lem d ends e = elim (Option-cases d.current) [
    | inl free ↦ ground (arith, free, e)
    | inr (c, busy) ↦
        (ground (arith, busy, e), ground (arith, busy, e, append-nil (d.made ++ c ∷ [])))
  ]

  Blocking-Obeys :
      {past : List (Action T P F A M)} {d : Dispatcher T P F A M} → Blocking past d → Obeys d past
  unfolding new_dispatcher expected last_for lookup
  Blocking-Obeys begins = (λ t. refl, refl)
  Blocking-Obeys (acts {past} {d} {d'} a h e) =
      let (knows, calls) = Blocking-Obeys h in
      let (procs, more) = blocking_step_lem d a e in
      (
        subst (λ x. Knows x (a ∷ past)) (sym procs) (processors_after-Knows d.procs past a knows),
        more
            ∙ ap (λ x. x ++ at_most_one (call_of type_of d.procs a)) calls
            ∙ sym (expected_after d.procs past a knows),
      )

  Routine-Knows :
      {past : List (Action T P F A M)} {r : RoutineDispatcher T P F A M}
      → Routine past r
      → Knows r.procs past
  unfolding new_routine_dispatcher last_for routine_step lookup
  Routine-Knows is_new = λ t. refl
  Routine-Knows (is_called {past} {d} a h) = processors_after-Knows d.procs past a (Routine-Knows h)
  Routine-Knows (makes before after c h e) = Routine-Knows h

  Routine-calls :
      {past : List (Action T P F A M)} {r : RoutineDispatcher T P F A M}
      → Routine past r
      → Perm (r.made ++ r.started) (expected past)
  unfolding new_routine_dispatcher expected routine_step
  Routine-calls is_new = Perm.refl []
  Routine-calls (is_called {past} {d} a h) =
      let more = at_most_one (call_of type_of d.procs a) in
      subst (λ x. Perm x (expected (a ∷ past))) (append_assoc d.made d.started more)
        (subst (Perm ((d.made ++ d.started) ++ more))
          (sym (expected_after d.procs past a (Routine-Knows h)))
          (Perm.append_right more (Routine-calls h)))
  Routine-calls (makes {d = d} before after c h e) =
      Perm.trans
        (subst (λ x. Perm x (d.made ++ d.started))
          (sym (append_assoc d.made (c ∷ []) (before ++ after)))
          (subst (λ x. Perm (d.made ++ c ∷ (before ++ after)) (d.made ++ x)) (sym e)
            (Perm.append_left d.made (Perm.symm (perm_middle before after)))))
        (Routine-calls h)

  busy_waits :
      (d : Dispatcher T P F A M) (a : Action T P F A M)
      → (d.current ≡ none) ⊎ (a ≡ ends) ⊎ (blocking_step type_of d a ≡ none)
  unfolding blocking_step
  busy_waits d ends = inr (inl refl)
  busy_waits d (registers p ts) = elim (Option-cases d.current) [
    | inl free ↦ inl free
    | inr (c, busy) ↦ inr (inr (ground (arith, busy)))
  ]
  busy_waits d (registers_func m f) = elim (Option-cases d.current) [
    | inl free ↦ inl free
    | inr (c, busy) ↦ inr (inr (ground (arith, busy)))
  ]
  busy_waits d (dispatches from m) = elim (Option-cases d.current) [
    | inl free ↦ inl free
    | inr (c, busy) ↦ inr (inr (ground (arith, busy)))
  ]

  -- The blocking dispatcher makes one call for each message, in the order of the messages, of the
  -- processor that was registered last for its type, where the last call may still go on; while it
  -- does, no registration and no other message gets the lock, not even from that call itself. The
  -- routine dispatcher makes the same calls for its messages, none twice, in any order: those that
  -- are missing are in goroutines that have started and not run yet.
  pub dispatchers_agree :
      {past past' : List (Action T P F A M)} {d : Dispatcher T P F A M}
      {r : RoutineDispatcher T P F A M} (a : Action T P F A M)
      → Blocking past d
      → Routine past' r
      → (all_calls d ≡ expected past)
        × ((d.current ≡ none) ⊎ (a ≡ ends) ⊎ (blocking_step type_of d a ≡ none))
        × Perm (r.made ++ r.started) (expected past')
  dispatchers_agree {d = d} a h h' = ((Blocking-Obeys h).1, busy_waits d a, Routine-calls h')
