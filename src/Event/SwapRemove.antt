-- ===== src/Event/SwapRemove.antt =====
-- event/event.go: what the removal by swapping with the last element does to a slice of receivers.
use mulsigo.Prelude.{
  ℕ, zero, suc, ◌+◌, ◌-◌, ◌≡◌, refl, none, some, List, [], ◌∷◌, length, take, set, get_elem?,
  get_last?, count, Eq, ◌==◌, if◌then◌else◌, arith, ==_iff, false, ◌≤◌,
}
use mulsigo.Event.{index_of, swap_remove, contains}

module _ {A : Type 0} where
  get_last?-set :
      (xs : List A) (i : ℕ) {l : A} → get_last? xs ≡ some l → get_last? (set xs i l) ≡ some l
  get_last?-set [] i h = h
  get_last?-set (x ∷ []) zero h = refl
  get_last?-set (x ∷ []) (suc i) h = h
  get_last?-set (x ∷ y ∷ xs) zero h = h
  get_last?-set (x ∷ y ∷ xs) (suc zero) h = get_last?-set (y ∷ xs) zero h
  get_last?-set (x ∷ y ∷ xs) (suc (suc i)) h = get_last?-set (y ∷ xs) (suc i) h

  length-set : (xs : List A) (i : ℕ) (v : A) → length (set xs i v) ≡ length xs
  length-set [] i v = refl
  length-set (x ∷ xs) zero v = refl
  length-set (x ∷ xs) (suc i) v = omega (arith, length-set xs i v)

module _ {A : Type 0} ⦃e : Eq A⦄ where
  count-set :
      (xs : List A) (i : ℕ) (v r : A) {w : A}
      → get_elem? xs i ≡ some w
      → count r (set xs i v) + (if w == r then 1 else 0) ≡ count r xs + (if v == r then 1 else 0)
  unfolding count
  count-set [] i v r h = ground arith
  count-set (x ∷ xs) zero v r h = ground arith
  count-set (x ∷ xs) (suc i) v r h = omega (arith, count-set xs i v r h)

  count-take_init :
      (n : ℕ) (xs : List A) (r : A) {l : A}
      → length xs ≡ suc n
      → get_last? xs ≡ some l
      → count r (take n xs) + (if l == r then 1 else 0) ≡ count r xs
  unfolding count
  count-take_init n [] r q h = absurd (omega arith)
  count-take_init zero (x ∷ []) r q h = ground arith
  count-take_init (suc n) (x ∷ []) r q h = absurd (omega arith)
  count-take_init zero (x ∷ y ∷ xs) r q h = absurd (omega arith)
  count-take_init (suc n) (x ∷ y ∷ xs) r q h =
      omega (arith, count-take_init n (y ∷ xs) r (omega arith) h)

  get_elem?-index_of :
      (xs : List A) (p : A) (i : ℕ) → index_of xs p ≡ some i → get_elem? xs i ≡ some p
  unfolding index_of
  get_elem?-index_of [] p i h = cc
  get_elem?-index_of (x ∷ xs) p zero h = ground (arith, ==_iff x p)
  get_elem?-index_of (x ∷ xs) p (suc i) h = ground (arith, get_elem?-index_of xs p i)

  pub count-absent : (xs : List A) (p : A) → index_of xs p ≡ none → count p xs ≡ 0
  unfolding index_of count
  count-absent [] p h = refl
  count-absent (x ∷ xs) p h = ground (arith, count-absent xs p)

  get_last?_pos : (xs : List A) {l : A} → get_last? xs ≡ some l → 1 ≤ length xs
  get_last?_pos [] h = ground arith
  get_last?_pos (x ∷ xs) h = omega arith

  get_last?_of_get_elem? :
      (xs : List A) (i : ℕ) {w : A} → get_elem? xs i ≡ some w → (l : A) × (get_last? xs ≡ some l)
  get_last?_of_get_elem? [] i h = cc
  get_last?_of_get_elem? (x ∷ []) i h = (x, refl)
  get_last?_of_get_elem? (x ∷ y ∷ xs) i h = get_last?_of_get_elem? (y ∷ xs) 0 {w = y} refl

  -- One occurrence of the found receiver goes, and all other receivers keep their number.
  pub count-swap_remove :
      (xs : List A) (p r : A) (i : ℕ)
      → index_of xs p ≡ some i
      → count r (swap_remove xs i) + (if p == r then 1 else 0) ≡ count r xs
  unfolding swap_remove
  count-swap_remove xs p r i h =
      let at = get_elem?-index_of xs p i h in
      let (l, last) = get_last?_of_get_elem? xs i at in
      rw (last, swap_remove)
        (omega (
          arith,
          count-set xs i l r at,
          count-take_init (length xs - 1) (set xs i l) r
              (omega (arith, length-set xs i l, get_last?_pos xs last)) (get_last?-set xs i last),
        ))

  pub contains-count : (xs : List A) (p : A) → (if contains xs p then 1 else 0) ≤ count p xs
  unfolding contains count
  contains-count [] p = omega arith
  contains-count (x ∷ xs) p = ground (arith, contains-count xs p)

  pub count-not_contains : (xs : List A) (p : A) → contains xs p ≡ false → count p xs ≡ 0
  unfolding contains count
  count-not_contains [] p h = refl
  count-not_contains (x ∷ xs) p h = ground (arith, count-not_contains xs p)
