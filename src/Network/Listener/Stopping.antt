-- ===== src/Network/Listener/Stopping.antt =====
-- network/tcp.go: a listener with several listening goroutines, and what is left of them after `Stop`.
use mulsigo.Prelude.{
  Bool, ◌≢◌, ℕ, zero, suc, ◌+◌, ◌-◌, ◌≤◌, ◌≡◌, refl, ◌∙◌, true, false, Option, none, some, nat_eq,
  arith,
}
use mulsigo.Network.Frame.{NetError}
use mulsigo.Network.Listener.{
  TcpListener, listen, accept_fails, stop, wait_quit, finish_stop, waits, done, fails, confirm,
}

-- That many goroutines fail to accept, one after the other.
unfoldable pub fail_times : ℕ → TcpListener → Option TcpListener
fail_times zero t = some t
fail_times (suc k) t = elim (accept_fails t) [ none ↦ none | some t' ↦ fail_times k t' ]

-- What can happen: calls of `Listen`, failures of `Accept`, calls of `Stop`, which end, fail or wait,
-- and the handshake with one that waits.
pub data Later (t : TcpListener) : TcpListener → Type 0 where
  here : Later t t
  listens : {u v : TcpListener} {b : Bool} → Later t u → listen u ≡ some (v, b) → Later t v
  refuses : {u v : TcpListener} → Later t u → accept_fails u ≡ some v → Later t v
  stops :
      {u v : TcpListener} (e : Option NetError) → Later t u → stop u e ≡ some (done v) → Later t v
  stops_badly :
      {u v : TcpListener} {x : NetError} (e : Option NetError)
      → Later t u
      → stop u e ≡ some (fails v x)
      → Later t v
  stops_later :
      {u v : TcpListener} (e : Option NetError) → Later t u → stop u e ≡ some (waits v) → Later t v
  confirms : {u v : TcpListener} → Later t u → confirm u ≡ some v → Later t v

-- A closed listener with `n` goroutines that have not returned, of which at least `k` wait on
-- `quitListener`.
record IsAbandoned (n k : ℕ) (u : TcpListener) : Type 0 where
  shut : u.is_closed ≡ true
  idle : u.listening ≡ false
  free : u.stopping ≡ false
  all_there : u.accepting + u.leaving ≡ n
  stuck : k ≤ u.leaving

module _ (n k : ℕ) where
  listen-IsAbandoned :
      (u v : TcpListener) (b : Bool)
      → IsAbandoned n k u
      → listen u ≡ some (v, b)
      → IsAbandoned n k v
  unfolding listen
  listen-IsAbandoned u v b a e = record {
    shut = ground (arith, a.shut, a.free, e);
    idle = ground (arith, a.idle, a.shut, a.free, e);
    free = ground (arith, a.shut, a.free, e);
    all_there = ground (arith, a.all_there, a.shut, a.free, e);
    stuck = ground (arith, a.stuck, a.shut, a.free, e);
  }

  accept_fails-IsAbandoned :
      (u v : TcpListener) → IsAbandoned n k u → accept_fails u ≡ some v → IsAbandoned n k v
  unfolding accept_fails
  accept_fails-IsAbandoned u v a e = record {
    shut = ground (arith, a.shut, e);
    idle = ground (arith, a.idle, e);
    free = ground (arith, a.free, e);
    all_there = ground (arith, a.all_there, e);
    stuck = ground (arith, a.stuck, e);
  }

  stop-IsAbandoned :
      (u v : TcpListener) (e : Option NetError)
      → IsAbandoned n k u
      → stop u e ≡ some (done v)
      → IsAbandoned n k v
  unfolding stop wait_quit finish_stop
  stop-IsAbandoned u v e a h = record {
    shut = ground (arith, a.idle, a.free, h);
    idle = ground (arith, a.idle, a.free, h);
    free = ground (arith, a.idle, a.free, h);
    all_there = ground (arith, a.all_there, a.idle, a.free, h);
    stuck = ground (arith, a.stuck, a.idle, a.free, h);
  }

  failed_stop-IsAbandoned :
      (u v : TcpListener) (e : Option NetError) (x : NetError)
      → IsAbandoned n k u
      → stop u e ≡ some (fails v x)
      → IsAbandoned n k v
  unfolding stop wait_quit
  failed_stop-IsAbandoned u v e x a h = record {
    shut = ground (arith, a.shut, a.idle, a.free, h);
    idle = ground (arith, a.idle, a.free, h);
    free = ground (arith, a.idle, a.free, h);
    all_there = ground (arith, a.all_there, a.idle, a.free, h);
    stuck = ground (arith, a.stuck, a.idle, a.free, h);
  }

  never_waits :
      (u v : TcpListener) (e : Option NetError) → IsAbandoned n k u → stop u e ≢ some (waits v)
  unfolding stop wait_quit
  never_waits u v e a h = ground (arith, a.idle, a.free, h)

  no_handshake : (u : TcpListener) → IsAbandoned n k u → confirm u ≡ none
  unfolding confirm
  no_handshake u a = ground (arith, a.free)

  Later-IsAbandoned : {t u : TcpListener} → IsAbandoned n k t → Later t u → IsAbandoned n k u
  Later-IsAbandoned a here = a
  Later-IsAbandoned a (listens {u} {v} {b} past e) =
      listen-IsAbandoned u v b (Later-IsAbandoned a past) e
  Later-IsAbandoned a (refuses {u} {v} past e) =
      accept_fails-IsAbandoned u v (Later-IsAbandoned a past) e
  Later-IsAbandoned a (stops {u} {v} x past e) = stop-IsAbandoned u v x (Later-IsAbandoned a past) e
  Later-IsAbandoned a (stops_badly {u} {v} {x = y} x past e) =
      failed_stop-IsAbandoned u v x y (Later-IsAbandoned a past) e
  Later-IsAbandoned a (stops_later {u} {v} x past e) =
      absurd (never_waits u v x (Later-IsAbandoned a past) e)
  Later-IsAbandoned a (confirms {u} {v} past e) =
      ground (arith, no_handshake u (Later-IsAbandoned a past), e)

fail_times_lem :
    (j : ℕ) (t : TcpListener)
    → t.quit ≡ true
    → j ≤ t.accepting
    → fail_times j t ≡ some (record t { accepting = t.accepting - j; leaving = t.leaving + j })
unfolding fail_times accept_fails
fail_times_lem zero t q few = ground arith
fail_times_lem (suc j) t q few =
    let t' = record t { accepting = t.accepting - 1; leaving = suc t.leaving } in
    ground (arith, q, few, fail_times_lem j t')

-- The listener after a `Stop` before whose end `k + 1` goroutines have failed to accept.
abbrev pub stopped : TcpListener → ℕ → ℕ → TcpListener
stopped t n k = record t {
  quit = false;
  listening = false;
  is_closed = true;
  stopping = false;
  accepting = n - k;
  leaving = k;
}

-- Stopping a listener at which `n + 1` goroutines accept, of which any `k + 1` fail to accept before
-- one of these confirms: then `Stop` ends, and further calls of `Listen` return at once. The other
-- `n` goroutines never return, whatever happens later: no handshake takes place any more, each of
-- them is still at `Accept` or waits on `quitListener`, and at least `k` wait there.
pub stop_lem :
    (t : TcpListener) (n k : ℕ) {u : TcpListener}
    → t.accepting ≡ suc n
    → t.leaving ≡ 0
    → t.listening ≡ true
    → t.stopping ≡ false
    → t.quit ≡ false
    → k ≤ n
    → Later (stopped t n k) u
    → ((t1 : TcpListener) × (t2 : TcpListener) × (stop t none ≡ some (waits t1))
        × (fail_times (suc k) t1 ≡ some t2)
        × (confirm t2 ≡ some (stopped t n k)))
      × (listen u ≡ some (u, false))
      × (confirm u ≡ none)
      × (u.accepting + u.leaving ≡ n)
      × (k ≤ u.leaving)
unfolding stop wait_quit confirm finish_stop listen
stop_lem t n k {u} a l i s q few later =
    let t1 = record t { quit = true; stopping = true } in
    let t2 = record t1 { accepting = n - k; leaving = suc k } in
    let v =
      Later-IsAbandoned n k
        (record {
          shut = refl;
          idle = refl;
          free = refl;
          all_there = omega (arith, few);
          stuck = omega arith;
        })
        later in
    (
      (
        t1,
        t2,
        ground (arith, i, s, q),
        fail_times_lem (suc k) t1 refl (omega (arith, a, few)) ∙ ground (arith, a, l),
        ground (arith, s),
      ),
      ground (arith, v.shut, v.free),
      no_handshake n k u v,
      v.all_there,
      v.stuck,
    )
