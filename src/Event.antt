-- ===== src/Event.antt =====
-- event/event.go: the simple dispatcher of events to registered receivers.
pub mod SwapRemove
pub mod Laws
use mulsigo.Prelude.{
  ℕ, suc, ◌-◌, Bool, true, false, Option, none, some, List, [], ◌∷◌, ◌++◌, map, length, take, set,
  get_last?, Map, lookup, insert, Eq, ◌==◌, if◌then◌else◌,
}

-- `registered` holds, for each event name, the receivers in the order of the slice.
pub record SimpleDispatcher (N R : Type 0) : Type 0 where
  pub registered : Map N (List R)

module _ {R : Type 0} ⦃r : Eq R⦄ where
  unfoldable pub contains : List R → R → Bool
  contains [] p = false
  contains (q ∷ arr) p = if q == p then true else contains arr p

  -- The first index at which `p` stands; `none` is the code's -1.
  unfoldable pub index_of : List R → R → Option ℕ
  index_of [] p = none
  index_of (q ∷ arr) p =
      if q == p then some 0 else elim (index_of arr p) [ none ↦ none | some i ↦ some (suc i) ]

  -- `arr[idx] = arr[len(arr)-1]`, then `arr[:len(arr)-1]`.
  unfoldable pub swap_remove : List R → ℕ → List R
  swap_remove arr idx = elim (get_last? arr) [
    | none ↦ arr
    | some last ↦ take (length arr - 1) (set arr idx last)
  ]

module _ {N R : Type 0} ⦃n : Eq N⦄ ⦃r : Eq R⦄ where
  unfoldable pub new_simple_dispatcher : SimpleDispatcher N R
  new_simple_dispatcher = record { registered = [] }

  -- Reading a missing key of the map gives the empty slice.
  unfoldable pub receivers : SimpleDispatcher N R → N → List R
  receivers s e = elim (lookup e s.registered) [ none ↦ [] | some arr ↦ arr ]

  unfoldable pub register : SimpleDispatcher N R → N → R → SimpleDispatcher N R
  unfolding contains receivers
  register s e p =
      if contains (receivers s e) p
      then s
      else record s { registered = insert e (receivers s e ++ p ∷ []) s.registered }

  unfoldable pub unregister : SimpleDispatcher N R → N → R → SimpleDispatcher N R
  unfolding index_of swap_remove
  unregister s e p = elim (lookup e s.registered) [
    | none ↦ s
    | some arr ↦ elim (index_of arr p) [
      | none ↦ s
      | some idx ↦ record s { registered = insert e (swap_remove arr idx) s.registered }
    ]
  ]

  -- The calls `p.Receive(e)` that a publication of an event of that name makes, in order.
  unfoldable pub publish : SimpleDispatcher N R → N → List (R × N)
  unfolding receivers
  publish s e = map (λ p. (p, e)) (receivers s e)
