-- ===== src/Network/Dispatch.antt =====
-- network/dispatch.go: the dispatchers, which hold one processor for each type of message.
pub mod Locked
pub mod Calls
use mulsigo.Prelude.{
  ◌≡◌, refl, Bool, false, ◌||◌, Option, none, some, List, [], ◌∷◌, Map, lookup, insert,
  lookup-insert, Eq, ◌==◌, if◌then◌else◌, arith,
}

-- Whether a type is among those given.
module _ {T : Type 0} ⦃e : Eq T⦄ where
  unfoldable pub among : T → List T → Bool
  among t [] = false
  among t (u ∷ us) = u == t || among t us

-- Types of messages and processors.
module _ {T P : Type 0} ⦃e : Eq T⦄ where
  -- `RegisterProcessor`, on the types of the given messages.
  unfoldable pub register_processor : Map T P → P → List T → Map T P
  register_processor procs p [] = procs
  register_processor procs p (t ∷ ts) = register_processor (insert t p procs) p ts

  -- `Dispatch`: the call of `Process` that it makes, or the error that there is no processor. The
  -- routine dispatcher makes the same call in a goroutine of its own.
  unfoldable pub dispatch : {A M : Type 0} → (M → T) → Map T P → A → M → Option (P × A × M)
  dispatch type_of procs from m = elim (lookup (type_of m) procs) [
    | none ↦ none
    | some p ↦ some (p, from, m)
  ]

  pub lookup-register_processor :
      (procs : Map T P) (p : P) (ts : List T) (t : T)
      → lookup t (register_processor procs p ts) ≡ (if among t ts then some p else lookup t procs)
  unfolding register_processor among
  lookup-register_processor procs p [] t = refl
  lookup-register_processor procs p (u ∷ ts) t =
      ground (arith, lookup-register_processor (insert u p procs) p ts t, lookup-insert u t p procs)

  -- After a registration, a message of one of its types goes to the new processor and to no other,
  -- and a message of any other type goes where it went before.
  pub dispatch-register_processor :
      {A M : Type 0} (type_of : M → T) (procs : Map T P) (p : P) (ts : List T) (from : A) (m : M)
      → dispatch type_of (register_processor procs p ts) from m
        ≡ (if among (type_of m) ts then some (p, from, m) else dispatch type_of procs from m)
  unfolding dispatch
  dispatch-register_processor type_of procs p ts from m =
      ground (arith, lookup-register_processor procs p ts (type_of m))
