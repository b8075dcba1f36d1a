-- ===== src/Network/Host/Retries.antt =====
-- network/local.go: when a local host gets its connection.
use mulsigo.Prelude.{
  ℕ, zero, suc, ◌+◌, ◌≤◌, ◌≡◌, refl, true, false, Option, none, some, Result, ok, err, ◌==◌,
  ==_refl, Bool-cases, if◌then◌else◌, list_eq, nat_eq, arith, ap, sym, subst, ◌*◌, ◌∙◌, has,
  Result-cases, Option-cases, ◌⊎◌, inl, inr,
}
use mulsigo.Relay.Message.{Address}
use mulsigo.Network.Frame.{max_retry_connect}
use mulsigo.Network.Address.{conn_type, local_type}
use mulsigo.Network.Local
use mulsigo.Network.Local.{LocalManager, connect, not_listening}
use mulsigo.Network.Host.{
  wrong_type, retry_loop, Connected, local_attempt, new_local_conn_with, host_loop, host_result,
  local_host_connect,
}

-- The first of `n` tries from `i` on at which the address is listened at.
unfoldable pub first_up : (ℕ → LocalManager) → Address → ℕ → ℕ → Option ℕ
first_up lms addr zero i = none
first_up lms addr (suc n) i =
    let later = first_up lms addr n (suc i) in if has addr (lms i).listening then some i else later

-- What connecting at that try gives.
unfoldable pub connect_at :
    (ℕ → LocalManager)
    → Address
    → Address
    → ℕ
    → Option ℕ
    → Result (Option Local.Error) Connected × ℕ
connect_at lms local addr end none = (err (some not_listening), end)
connect_at lms local addr end (some k) = elim (local_attempt (lms k) local addr) [
  | ok c ↦ (ok c, suc k)
  | err e ↦ (err (some e), suc k)
]

local_attempt-down :
    (lm : LocalManager) (local addr : Address)
    → has addr lm.listening ≡ false
    → local_attempt lm local addr ≡ err not_listening
unfolding local_attempt connect
local_attempt-down lm local addr h = ground arith

attempt_cases :
    (lm : LocalManager) (local addr : Address)
    → ((has addr lm.listening ≡ true) × ((c : Connected) × (local_attempt lm local addr ≡ ok c)))
      ⊎ ((has addr lm.listening ≡ false) × (local_attempt lm local addr ≡ err not_listening))
unfolding local_attempt connect
attempt_cases lm local addr = elim (Result-cases (local_attempt lm local addr)) [
  | inl (c, e) ↦ inl (ground (arith, e), (c, e))
  | inr (x, e) ↦ inr (ground (arith, e), ground (arith, e))
]

retry_loop_lem :
    (lms : ℕ → LocalManager) (local addr : Address) (left i : ℕ)
    → retry_loop (suc left) i (λ j. local_attempt (lms j) local addr)
      ≡ connect_at lms local addr (i + suc left) (first_up lms addr (suc left) i)
unfolding retry_loop first_up connect_at
retry_loop_lem lms local addr zero i = elim (attempt_cases (lms i) local addr) [
  | inl (up, (c, e)) ↦ ground (arith, up, e)
  | inr (down, e) ↦ ground (arith, down, e)
]
retry_loop_lem lms local addr (suc left) i = elim (attempt_cases (lms i) local addr) [
  | inl (up, (c, e)) ↦ ground (arith, up, e)
  | inr (down, e) ↦ ground (arith, down, e, retry_loop_lem lms local addr left (suc i))
]

first_up-up :
    (lms : ℕ → LocalManager) (addr : Address) (n i k : ℕ)
    → first_up lms addr n i ≡ some k
    → has addr (lms k).listening ≡ true
unfolding first_up
first_up-up lms addr zero i k e = ground (arith, e)
first_up-up lms addr (suc n) i k e = elim (Bool-cases (has addr (lms i).listening)) [
  | inl up ↦
      let here : i ≡ k = ground (arith, up, e) in
      subst (λ j. has addr (lms j).listening ≡ true) here up
  | inr down ↦ first_up-up lms addr n (suc i) k (ground (arith, down, e))
]

first_up_later :
    (lms : ℕ → LocalManager) (addr : Address) (m n i : ℕ)
    → first_up lms addr m i ≡ none
    → first_up lms addr (m + n) i ≡ first_up lms addr n (i + m)
unfolding first_up
first_up_later lms addr zero n i e =
    ap (λ j. first_up lms addr j i) (omega arith) ∙ ap (first_up lms addr n) (omega arith)
first_up_later lms addr (suc m) n i e =
    let sum : suc m + n ≡ suc (m + n) = omega arith in
    let next : suc i + m ≡ i + suc m = omega arith in
    rw sum (ground (arith, e, next, first_up_later lms addr m n (suc i)))

first_up_sooner :
    (lms : ℕ → LocalManager) (addr : Address) (m n i k : ℕ)
    → first_up lms addr m i ≡ some k
    → first_up lms addr (m + n) i ≡ some k
unfolding first_up
first_up_sooner lms addr zero n i k e = ground (arith, e)
first_up_sooner lms addr (suc m) n i k e =
    let sum : suc m + n ≡ suc (m + n) = omega arith in
    rw sum (ground (arith, e, first_up_sooner lms addr m n (suc i) k))

connected_at :
    (lms : ℕ → LocalManager) (local addr : Address) (n i k : ℕ)
    → first_up lms addr n i ≡ some k
    → (c : Connected) × ((end : ℕ) → connect_at lms local addr end (some k) ≡ (ok c, suc k))
unfolding connect_at
connected_at lms local addr n i k e = elim (attempt_cases (lms k) local addr) [
  | inl (up, (c, good)) ↦ (c, λ end. ground (arith, good))
  | inr (down, bad) ↦ absurd (ground (arith, down, first_up-up lms addr n i k e))
]

never_connected :
    (lms : ℕ → LocalManager) (local addr : Address) (end : ℕ)
    → connect_at lms local addr end none ≡ (err (some not_listening), end)
unfolding connect_at
never_connected lms local addr end = refl

tries_lem :
    (lms : ℕ → LocalManager) (local addr : Address) (start : ℕ)
    → new_local_conn_with lms local addr start
      ≡ connect_at lms local addr (start + 5) (first_up lms addr 5 start)
unfolding new_local_conn_with
tries_lem lms local addr start = retry_loop_lem lms local addr 4 start

round_ends :
    (lms : ℕ → LocalManager) (local addr : Address) (left start n : ℕ) (final : Option Local.Error)
    (c : Connected)
    → new_local_conn_with lms local addr start ≡ (ok c, n)
    → host_loop (suc left) lms local addr start final ≡ (ok c, n)
unfolding host_loop
round_ends lms local addr left start n final c e = ground (arith, e)

round_goes_on :
    (lms : ℕ → LocalManager) (local addr : Address) (left start n : ℕ)
    (final e : Option Local.Error)
    → new_local_conn_with lms local addr start ≡ (err e, n)
    → host_loop (suc left) lms local addr start final ≡ host_loop left lms local addr n e
unfolding host_loop
round_goes_on lms local addr left start n final e h = ground (arith, h)

host_loop_lem :
    (lms : ℕ → LocalManager) (local addr : Address) (left start : ℕ) (final : Option Local.Error)
    → final ≡ some not_listening ⊎ 1 ≤ left
    → host_loop left lms local addr start final
      ≡ connect_at lms local addr (start + 5 * left) (first_up lms addr (5 * left) start)
host_loop_lem lms local addr zero start final h =
    unfold host_loop first_up connect_at in ground (arith, h)
host_loop_lem lms local addr (suc left) start final h =
    let end = start + 5 * suc left in
    let at = connect_at lms local addr in
    let all : 5 * suc left ≡ 5 + 5 * left = omega arith in
    let more : first_up lms addr (5 * suc left) start ≡ first_up lms addr (5 + 5 * left) start =
      ap (λ m. first_up lms addr m start) all in
    let tries = tries_lem lms local addr start in
    elim (Option-cases (first_up lms addr 5 start)) [
      | inl never ↦
          let ends : start + 5 + 5 * left ≡ end = omega arith in
          let later = more ∙ first_up_later lms addr 5 (5 * left) start never in
          round_goes_on lms local addr left start (start + 5) final (some not_listening)
            (tries ∙ ap (at (start + 5)) never ∙ never_connected lms local addr (start + 5))
          ∙ host_loop_lem lms local addr left (start + 5) (some not_listening) (inl refl)
          ∙ ap (λ n. at n (first_up lms addr (5 * left) (start + 5))) ends
          ∙ ap (at end) (sym later)
      | inr (k, found) ↦
          let (c, good) = connected_at lms local addr 5 start k found in
          let sooner = more ∙ first_up_sooner lms addr 5 (5 * left) start k found in
          round_ends lms local addr left start (suc k) final c
            (tries ∙ ap (at (start + 5)) found ∙ good (start + 5))
          ∙ sym (ap (at end) sooner ∙ good end)
    ]

-- A local host connects at the first of its 25 tries at which somebody listens at the address, and
-- makes no more; if nobody does at any of them, it returns the error of the last.
local_host_connect_lem :
    (lms : ℕ → LocalManager) (local addr : Address)
    → conn_type addr ≡ local_type
    → local_host_connect lms local addr
      ≡ host_result (connect_at lms local addr 25 (first_up lms addr 25 0))
unfolding local_host_connect
local_host_connect_lem lms local addr t =
    let local_type_in : (conn_type addr == local_type) ≡ true =
      ap (λ c. c == local_type) t ∙ ==_refl local_type in
    let loop = host_loop_lem lms local addr 5 0 none (inr (omega arith)) in
    ap
      (λ b.
        if b
        then host_result (host_loop max_retry_connect lms local addr 0 none)
        else (err wrong_type, 0))
      local_type_in
    ∙ ap host_result loop
