-- ===== src/Client/Router/Laws.antt =====
-- client/router.go: what the router keeps over any history of sends, and when a broadcast returns.
use mulsigo.Prelude.{
  ℕ, ◌+◌, ◌<◌, ◌≡◌, ◌≢◌, refl, Bool, true, false, Option, none, some, List, [], ◌∷◌, ◌++◌, Bytes,
  length, lookup, Result, if◌then◌else◌, list_eq, nat_eq, arith, All, ap, ◌∙◌,
}
use mulsigo.Client.Router.{
  Error, Router, new_router, Call, opens, send, close, returned, waiting, collect,
}

-- One call of `Send` with what it meets.
pub record Attempt : Type 0 where
  pub remote : Bytes
  pub opened : Result Error ℕ
  pub encoded : Result Error Bytes
  pub sent : Option Error

unfoldable pub send_all : Router → List Attempt → Router × List Call
send_all r [] = (r, [])
send_all r (a ∷ rest) =
    let (r', e, calls) = send r a.remote a.opened a.encoded a.sent in
    let (r'', more) = send_all r' rest in (r'', calls ++ more)

unfoldable pub is_open : Call → Bool
is_open (opens id) = true
is_open _ = false

unfoldable pub count_opens : List Call → ℕ
unfolding is_open
count_opens [] = 0
count_opens (c ∷ cs) = (if is_open c then 1 else 0) + count_opens cs

count_opens-append : (xs ys : List Call) → count_opens (xs ++ ys) ≡ count_opens xs + count_opens ys
unfolding count_opens
count_opens-append [] ys = omega arith
count_opens-append (x ∷ xs) ys = omega (arith, count_opens-append xs ys)

send_unchanged : (r : Router) (a : Attempt) → (send r a.remote a.opened a.encoded a.sent).0 ≡ r
unfolding send
send_unchanged r a = ground arith

send_opens :
    (r : Router) (a : Attempt)
    → r.streams ≡ []
    → r.done ≡ false
    → count_opens (send r a.remote a.opened a.encoded a.sent).2 ≡ 1
unfolding send count_opens lookup
send_opens r a s d = ground arith

send_all_unchanged : (r : Router) (rest : List Attempt) → (send_all r rest).0 ≡ r
unfolding send_all
send_all_unchanged r [] = refl
send_all_unchanged r (a ∷ rest) =
    let r' = (send r a.remote a.opened a.encoded a.sent).0 in
    send_all_unchanged r' rest ∙ send_unchanged r a

send_all_opens :
    (r : Router) (rest : List Attempt)
    → r.streams ≡ []
    → r.done ≡ false
    → count_opens (send_all r rest).1 ≡ length rest
unfolding send_all
send_all_opens r [] s d = unfold count_opens in refl
send_all_opens r (a ∷ rest) s d =
    let step = send r a.remote a.opened a.encoded a.sent in
    let same = send_unchanged r a in
    omega (
      arith,
      count_opens-append step.2 (send_all step.0 rest).1,
      send_opens r a s d,
      send_all_opens step.0 rest (ap (λ (x : Router). x.streams) same ∙ s)
          (ap (λ (x : Router). x.done) same ∙ d),
    )

-- No stream is ever kept: on a router that is not closed every call of `Send` opens a new one, also
-- to a peer that was sent to before, and closing the router closes none of them.
pub send_all-opens :
    (rest : List Attempt)
    → (count_opens (send_all new_router rest).1 ≡ length rest)
      × ((close (send_all new_router rest).0).1 ≡ [])
unfolding close
send_all-opens rest = (
  send_all_opens new_router rest (unfold new_router in refl) (unfold new_router in refl),
  ap (λ (r : Router). (close r).1) (send_all_unchanged new_router rest) ∙ unfold new_router in refl,
)

pub collect_waits :
    (ids : ℕ) (rs : List (Option Error))
    → 0 < ids
    → All (λ r. r ≡ none) rs
    → collect 0 ids rs ≡ waiting
unfolding collect
collect_waits ids [] h a = ground arith
collect_waits ids (none ∷ rs) h a = ground (arith, collect_waits ids rs h a.1)
collect_waits ids (some e ∷ rs) h a = ground arith

collect-ne-nil : (ids : ℕ) (rs : List (Option Error)) → 0 < ids → collect 0 ids rs ≢ returned none
unfolding collect
collect-ne-nil ids [] h = ground arith
collect-ne-nil ids (none ∷ rs) h = ground (arith, collect-ne-nil ids rs h)
collect-ne-nil ids (some e ∷ rs) h = ground arith

-- A broadcast to at least one peer never returns nil: after any number of successful sends it waits
-- for one more.
collect_never_nil :
    (ids : ℕ) (rs : List (Option Error))
    → 0 < ids
    → (collect 0 ids rs ≢ returned none) × (All (λ r. r ≡ none) rs → collect 0 ids rs ≡ waiting)
collect_never_nil ids rs h = (collect-ne-nil ids rs h, collect_waits ids rs h)
