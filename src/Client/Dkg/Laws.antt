-- ===== src/Client/Dkg/Laws.antt =====
-- client/dkg.go: the threshold, the wait for the deals, and the hand-over of the share.
use mulsigo.Prelude.{
  ℕ, suc, ◌+◌, ◌-◌, ◌*◌, ◌≤◌, ◌<◌, ◌≡◌, Option, some, List, [], ◌∷◌, ◌++◌, Bytes, length, arith,
  map, list_eq, nat_eq, ◌==◌, get_elem?, ==_iff, Bool-cases, Option-cases, inl, inr, Bool-cases,
  Option-cases, inl, inr,
}
use mulsigo.Client.Dkg.{
  Setup, index_from, new_dkg, Wakeup, sent, timed_out, confirmed, too_few, await_nodes,
}

index_from_lem :
    (i : ℕ) (ps : List Bytes) (id : Bytes) (k : ℕ)
    → index_from i ps id ≡ some k
    → (j : ℕ) × (k ≡ i + j) × (j < length ps) × (get_elem? ps j ≡ some id)
unfolding index_from
index_from_lem i [] id k h = cc
index_from_lem i (p ∷ ps) id k h = elim (Bool-cases (p == id)) [
  | inl same ↦ (0, ground arith, omega arith, ground (arith, ==_iff p id))
  | inr other ↦
      let (j, e, small, at) = index_from_lem (suc i) ps id k (rw (other, index_from) at h) in
      (suc j, omega arith, omega arith, at)
]

-- A participant's own index is that of its identifier in the list, and the threshold is the
-- smallest majority of the participants.
pub new_dkg_lem :
    (ps : List Bytes) (id : Bytes) {s : Setup}
    → new_dkg ps id ≡ some s
    → (s.n ≡ length ps)
      × (get_elem? ps s.i ≡ some id)
      × (s.n < 2 * s.t)
      × (2 * (s.t - 1) ≤ s.n)
      × (s.t ≤ s.n)
unfolding new_dkg
new_dkg_lem ps id {s} h = elim (Option-cases (index_from 0 ps id)) [
  | inl missing ↦ ground arith
  | inr (k, found) ↦
      let (j, e, small, at) = index_from_lem 0 ps id k found in
      let same : j ≡ s.i = ground arith in
      (ground arith, rw (← same) at, ground arith, ground arith, ground arith)
]

-- The results of a list of sends.
abbrev pub results : List (Option ℕ) → List Wakeup
results = map sent

pub await_nodes_from :
    (t k : ℕ) (rs : List (Option ℕ)) (ws : List Wakeup)
    → t ≤ k + length rs
    → await_nodes t k (results rs ++ ws) ≡ confirmed
unfolding await_nodes
await_nodes_from t k [] [] h = ground arith
await_nodes_from t k [] (w ∷ ws) h = ground arith
await_nodes_from t k (r ∷ rs) ws h = ground (arith, await_nodes_from t (k + 1) rs ws)

await_nodes_timer :
    (t k : ℕ) (rs : List (Option ℕ)) (ws : List Wakeup)
    → k + length rs < t
    → await_nodes t k (results rs ++ timed_out ∷ ws) ≡ too_few
unfolding await_nodes
await_nodes_timer t k [] ws h = ground arith
await_nodes_timer t k (r ∷ rs) ws h = ground (arith, await_nodes_timer t (k + 1) rs ws)

-- The wait for the deals ends well as soon as `t` sends have returned, also if all of them failed,
-- and ends with the error if the timer comes before that.
await_nodes_counts :
    (t : ℕ) (rs : List (Option ℕ)) (ws : List Wakeup)
    → (t ≤ length rs → await_nodes t 0 (results rs ++ ws) ≡ confirmed)
      × (length rs < t → await_nodes t 0 (results rs ++ timed_out ∷ ws) ≡ too_few)
await_nodes_counts t rs ws =
    (λ h. await_nodes_from t 0 rs ws (omega arith), λ h. await_nodes_timer t 0 rs ws (omega arith))
