-- ===== src/Examples/Listeners.antt =====
-- network/tcp.go: the listener at concrete inputs.
use mulsigo.Prelude.{◌+◌, ◌≤◌, arith, ◌≡◌, refl, true, false, none, some}
use mulsigo.Network.Listener.Stopping.{Later, here, listens, stops, fail_times, stopped, stop_lem}
use mulsigo.Network.Listener.{
  TcpListener, new_tcp_listener, stop, waits, listen, confirm, wait_quit, finish_stop,
}

-- Two calls of `Listen`.
abbrev twice : TcpListener
twice = record new_tcp_listener { listening = true; accepting = 2 }

-- Both fail to accept before the first confirms; then `Listen` and `Stop` are called again.
afterwards : Later (stopped twice 1 1) (stopped twice 1 1)
unfolding listen stop wait_quit finish_stop new_tcp_listener
afterwards = stops none (listens {b = false} here refl) refl

stop_lem_example :
    ((t1 : TcpListener) × (t2 : TcpListener) × (stop twice none ≡ some (waits t1))
      × (fail_times 2 t1 ≡ some t2)
      × (confirm t2 ≡ some (stopped twice 1 1)))
    × (listen (stopped twice 1 1) ≡ some (stopped twice 1 1, false))
    × (confirm (stopped twice 1 1) ≡ none)
    × (0 + 1 ≡ 1)
    × (1 ≤ 1)
unfolding new_tcp_listener
stop_lem_example = stop_lem twice 1 1 refl refl refl refl refl (omega arith) afterwards
