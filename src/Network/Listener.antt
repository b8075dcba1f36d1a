-- ===== src/Network/Listener.antt =====
-- network/tcp.go: the TCP listener, its listening goroutines and `Stop`, which holds the lock until
-- one of them has confirmed that it quits.
pub mod Stopping
use mulsigo.Prelude.{
  ℕ, suc, ◌-◌, ◌≡◌, refl, Bool, true, false, ◌&&◌, Option, none, some, ltb, ◌==◌, if◌then◌else◌,
  nat_eq, arith,
}
use mulsigo.Network.Frame.{NetError, closed}

-- `quit` says that the Go channel of that name is closed; `stopping`, that a `Stop` holds the lock
-- and waits on `quitListener`. `accepting` counts the goroutines in `listen` that are at `Accept`, and
-- `leaving` those that want to send on `quitListener`.
pub record TcpListener : Type 0 where
  pub quit : Bool
  pub listening : Bool
  pub is_closed : Bool
  pub stopping : Bool
  pub accepting : ℕ
  pub leaving : ℕ

unfoldable pub new_tcp_listener : TcpListener
new_tcp_listener = record {
  quit = false;
  listening = false;
  is_closed = false;
  stopping = false;
  accepting = 0;
  leaving = 0;
}

-- `listen`, up to its loop, and whether it goes into it; `none` while the lock is held.
unfoldable pub listen : TcpListener → Option (TcpListener × Bool)
listen t =
    if t.stopping
    then none
    else if t.is_closed
    then some (t, false)
    else some (record t { listening = true; accepting = suc t.accepting }, true)

-- One goroutine's `Accept` fails; `none` if none is there.
unfoldable pub accept_fails : TcpListener → Option TcpListener
accept_fails t =
    if t.accepting == 0
    then none
    else if t.quit
    then some (record t { accepting = t.accepting - 1; leaving = suc t.leaving })
    else some t

-- How a call of `Stop` begins: it panics on closing `quit` twice, returns the error of closing the
-- listener, waits, or is done.
pub data Stopped : Type 0 where
  panics : Stopped
  fails : TcpListener → NetError → Stopped
  waits : TcpListener → Stopped
  done : TcpListener → Stopped

-- The end of `Stop`.
unfoldable pub finish_stop : TcpListener → TcpListener
finish_stop t = record t { quit = false; listening = false; is_closed = true; stopping = false }

unfoldable pub is_closed_error : NetError → Bool
is_closed_error closed = true
is_closed_error _ = false

-- `Stop` after closing the listener: it waits for a goroutine if `listening` is set.
unfoldable pub wait_quit : TcpListener → Stopped
unfolding finish_stop
wait_quit t = if t.listening then waits (record t { stopping = true }) else done (finish_stop t)

-- `close_error` is the error of closing the listener; `none` while the lock is held.
unfoldable pub stop : TcpListener → Option NetError → Option Stopped
unfolding wait_quit is_closed_error
stop t close_error =
    if t.stopping
    then none
    else if t.quit
    then some panics
    else (let t' = record t { quit = true } in
        elim close_error [
          | none ↦ some (wait_quit t')
          | some e ↦ if is_closed_error e then some (wait_quit t') else some (fails t' e)
        ])

-- A goroutine that leaves and the waiting `Stop` meet on `quitListener`.
unfoldable pub confirm : TcpListener → Option TcpListener
unfolding finish_stop
confirm t =
    if t.stopping && ltb 0 t.leaving
    then some (record (finish_stop t) { leaving = t.leaving - 1 })
    else none

-- If closing the listener fails, `quit` stays closed: the next call of `Stop` panics.
stop_again :
    (t : TcpListener) (e : NetError)
    → is_closed_error e ≡ false
    → t.stopping ≡ false
    → t.quit ≡ false
    → (t1 : TcpListener) × (stop t (some e) ≡ some (fails t1 e))
      × ((c : Option NetError) → stop t1 c ≡ some panics)
unfolding stop
stop_again t e h s q = (record t { quit = true }, ground arith, λ c. ground arith)
