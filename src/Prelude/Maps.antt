-- ===== src/Prelude/Maps.antt =====
-- Go's maps as association lists. An entry is overwritten in place, a deletion takes every entry of
-- the key, and `Distinct` says that no key stands twice, as in a Go map.
use Prim.Native.Nat.{suc, ◌+◌, ◌≤◌}
use mathlib.Core.Path.{◌≡◌, refl, subst}
use mathlib.Core.Logic.{inl, inr}
use mathlib.Core.Bool.{Bool, true, false}
use mathlib.Core.Option.{Option, none, some, some-injective}
use mathlib.Core.List.{List, [], ◌∷◌, map}
use native.Mathlib.Omega.{arith}
use mulsigo.Prelude.Tests.{if◌then◌else◌, Eq, ◌==◌, ==_iff, Bool-cases}
use mulsigo.Prelude.Lists.{length}

abbrev pub Map {ℓ κ} : Type ℓ → Type κ → Type (ℓ ⊔ κ)
Map K V = List (K × V)

abbrev pub is_some {ℓ} : {A : Type ℓ} → Option A → Bool
is_some none = false
is_some (some a) = true

module _ {ℓ κ} {K : Type ℓ} {V : Type κ} where
  abbrev pub keys : Map K V → List K
  keys = map (λ p. p.0)

module _ {ℓ κ} {K : Type ℓ} {V : Type κ} ⦃e : Eq K⦄ where
  unfoldable pub lookup : K → Map K V → Option V
  lookup key [] = none
  lookup key ((j, w) ∷ rest) = if j == key then some w else lookup key rest

  unfoldable pub delete : K → Map K V → Map K V
  delete key [] = []
  delete key ((j, w) ∷ rest) = if j == key then delete key rest else (j, w) ∷ delete key rest

  unfoldable pub insert : K → V → Map K V → Map K V
  insert key new [] = (key, new) ∷ []
  insert key new ((j, w) ∷ rest) =
      if j == key then (key, new) ∷ rest else (j, w) ∷ insert key new rest

  abbrev pub has : K → Map K V → Bool
  has k m = is_some (lookup k m)

  abbrev pub Distinct : Map K V → Type κ
  Distinct [] = Unit
  Distinct ((k, v) ∷ m) = (lookup k m ≡ none) × Distinct m

  pub lookup-insert :
      (k j : K) (v : V) (m : Map K V)
      → lookup j (insert k v m) ≡ (if k == j then some v else lookup j m)
  unfolding lookup insert
  lookup-insert k j v [] = refl
  lookup-insert k j v ((i, w) ∷ rest) =
      ground (arith, lookup-insert k j v rest, ==_iff i j, ==_iff k j, ==_iff i k)

  pub lookup-delete :
      (k j : K) (m : Map K V) → lookup j (delete k m) ≡ (if k == j then none else lookup j m)
  unfolding lookup delete
  lookup-delete k j [] = ground arith
  lookup-delete k j ((i, w) ∷ m) =
      ground (arith, ==_iff k j, ==_iff i k, ==_iff i j, lookup-delete k j m)

  pub insert-Distinct : (k : K) (v : V) (m : Map K V) → Distinct m → Distinct (insert k v m)
  unfolding insert lookup
  insert-Distinct k v [] d = ground arith
  insert-Distinct k v ((i, w) ∷ m) d =
      ground (arith, ==_iff i k, ==_iff k i, lookup-insert k i v m, insert-Distinct k v m d.1)

  pub delete-Distinct : (k : K) (m : Map K V) → Distinct m → Distinct (delete k m)
  unfolding delete
  delete-Distinct k [] d = d
  delete-Distinct k ((i, w) ∷ m) d =
      ground (arith, ==_iff i k, lookup-delete k i m, delete-Distinct k m d.1)

  pub length-insert :
      (k : K) (v : V) (m : Map K V)
      → length (insert k v m) ≡ (if has k m then length m else suc (length m))
  unfolding insert lookup
  length-insert k v [] = refl
  length-insert k v ((i, w) ∷ m) = ground (arith, length-insert k v m)

  pub delete_absent : (k : K) (m : Map K V) → lookup k m ≡ none → delete k m ≡ m
  unfolding delete lookup
  delete_absent k [] h = refl
  delete_absent k ((i, w) ∷ m) h = ground (arith, delete_absent k m)

  pub length-delete-le : (k : K) (m : Map K V) → length (delete k m) ≤ length m
  unfolding delete
  length-delete-le k [] = omega arith
  length-delete-le k ((i, w) ∷ m) = ground (arith, length-delete-le k m)

  pub length-delete :
      (k : K) (m : Map K V)
      → Distinct m
      → length (delete k m) + (if has k m then 1 else 0) ≡ length m
  unfolding delete lookup
  length-delete k [] d = refl
  length-delete k ((i, w) ∷ m) d =
      ground (arith, ==_iff i k, length-delete k m d.1, delete_absent k m)

-- What holds of every entry is kept by the operations, and holds of an entry that is found.
module _ {ℓ κ μ} {K : Type ℓ} {V : Type κ} ⦃e : Eq K⦄ (P : K → V → Type μ) where
  abbrev pub Entries : Map K V → Type μ
  Entries [] = Unit
  Entries ((k, v) ∷ m) = P k v × Entries m

  pub Entries-insert : (k : K) (v : V) (m : Map K V) → P k v → Entries m → Entries (insert k v m)
  unfolding insert
  Entries-insert k v [] p h = (p, tt)
  Entries-insert k v ((j, w) ∷ m) p h = elim (Bool-cases (j == k)) [
    | inl same ↦ rw same (p, h.1)
    | inr other ↦ rw other (h.0, Entries-insert k v m p h.1)
  ]

  pub Entries-delete : (k : K) (m : Map K V) → Entries m → Entries (delete k m)
  unfolding delete
  Entries-delete k [] h = h
  Entries-delete k ((j, w) ∷ m) h = elim (Bool-cases (j == k)) [
    | inl same ↦ rw same (Entries-delete k m h.1)
    | inr other ↦ rw other (h.0, Entries-delete k m h.1)
  ]

  pub Entries-lookup : (k : K) (m : Map K V) {v : V} → Entries m → lookup k m ≡ some v → P k v
  unfolding lookup
  Entries-lookup k [] h q = cc
  Entries-lookup k ((j, w) ∷ m) {v = v} h q = elim (Bool-cases (j == k)) [
    | inl same ↦
        subst (λ x. P x v) ((==_iff j k).0 same)
          (subst (P j) (some-injective w v (rw (same, lookup) at q)) h.0)
    | inr other ↦ Entries-lookup k m h.1 (rw (other, lookup) at q)
  ]
