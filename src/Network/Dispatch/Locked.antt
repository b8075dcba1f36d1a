-- ===== src/Network/Dispatch/Locked.antt =====
-- network/dispatch.go: both dispatchers by steps, at their lock. The blocking one keeps it while the
-- processor works; the other starts a goroutine for each call, and goroutines run in any order.
use mulsigo.Prelude.{◌⊎◌, inl, inr, Option, none, some, List, [], ◌∷◌, ◌++◌, Map, Eq}
use mulsigo.Network.Dispatch.{register_processor, dispatch}

-- A processor of the user's, or the `defaultProcessor` around a function.
pub data Processor (P F : Type 0) : Type 0 where
  object : P → Processor P F
  default_processor : F → Processor P F

-- A call of `Process`: what it runs, the sender and the message.
abbrev pub Run : Type 0 → Type 0 → Type 0 → Type 0 → Type 0
Run P F A M = (P ⊎ F) × A × M

-- `current` is the call of `Process` during which the lock is held, and `made` holds the calls that
-- were made before, in order.
pub record Dispatcher (T P F A M : Type 0) : Type 0 where
  pub procs : Map T (Processor P F)
  pub current : Option (Run P F A M)
  pub made : List (Run P F A M)

-- `started` holds the calls whose goroutine was started and has not run yet.
pub record RoutineDispatcher (T P F A M : Type 0) : Type 0 where
  pub procs : Map T (Processor P F)
  pub started : List (Run P F A M)
  pub made : List (Run P F A M)

-- A call of a user, or the end of the call of `Process`.
pub data Action (T P F A M : Type 0) : Type 0 where
  registers : Processor P F → List T → Action T P F A M
  registers_func : M → F → Action T P F A M
  dispatches : A → M → Action T P F A M
  ends : Action T P F A M

unfoldable pub new_dispatcher : {T P F A M : Type 0} → Dispatcher T P F A M
new_dispatcher = record { procs = []; current = none; made = [] }

unfoldable pub new_routine_dispatcher : {T P F A M : Type 0} → RoutineDispatcher T P F A M
new_routine_dispatcher = record { procs = []; started = []; made = [] }

-- No call or one.
abbrev pub at_most_one : {A : Type 0} → Option A → List A
at_most_one none = []
at_most_one (some c) = c ∷ []

-- What `Process` of a processor runs: the user's method, or the function.
unfoldable pub process : {P F A M : Type 0} → Processor P F → A → M → Run P F A M
process (object p) from m = (inl p, from, m)
process (default_processor f) from m = (inr f, from, m)

unfoldable pub register_processor_func :
    {T P F M : Type 0} ⦃e : Eq T⦄ → (M → T) → Map T (Processor P F) → M → F → Map T (Processor P F)
register_processor_func type_of procs m f =
    register_processor procs (default_processor f) (type_of m ∷ [])

module _ {T P F A M : Type 0} ⦃e : Eq T⦄ (type_of : M → T) where
  -- The types' processors after a call.
  unfoldable pub processors_after : Map T (Processor P F) → Action T P F A M → Map T (Processor P F)
  unfolding register_processor_func
  processors_after procs (registers p ts) = register_processor procs p ts
  processors_after procs (registers_func m f) = register_processor_func type_of procs m f
  processors_after procs (dispatches from m) = procs
  processors_after procs ends = procs

  -- The call of `Process` that an action leads to, if any.
  unfoldable pub call_of : Map T (Processor P F) → Action T P F A M → Option (Run P F A M)
  unfolding process
  call_of procs (registers p ts) = none
  call_of procs (registers_func m f) = none
  call_of procs (dispatches from m) = elim (dispatch type_of procs from m) [
    | none ↦ none
    | some (p, a, b) ↦ some (process p a b)
  ]
  call_of procs ends = none

  -- A step with the blocking dispatcher; `none` if it waits for the lock.
  unfoldable pub blocking_step :
      Dispatcher T P F A M → Action T P F A M → Option (Dispatcher T P F A M)
  blocking_step d a = elim d.current [
    | some c ↦ elim a [
      | ends ↦ some (record d { current = none; made = d.made ++ c ∷ [] })
      | registers p ts ↦ none
      | registers_func m f ↦ none
      | dispatches from m ↦ none
    ]
    | none ↦ elim a [
      | ends ↦ none
      | registers p ts ↦ some (record d { procs = processors_after d.procs (registers p ts) })
      | registers_func m f ↦
          some (record d { procs = processors_after d.procs (registers_func m f) })
      | dispatches from m ↦ some (record d { current = call_of d.procs (dispatches from m) })
    ]
  ]

  -- A call of a user at the routine dispatcher, which never waits: the goroutine is started.
  unfoldable pub routine_step :
      RoutineDispatcher T P F A M → Action T P F A M → RoutineDispatcher T P F A M
  routine_step d a = record d {
    procs = processors_after d.procs a;
    started = d.started ++ at_most_one (call_of d.procs a);
  }
