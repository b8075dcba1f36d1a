-- ===== src/Network/Conn.antt =====
-- network/tcp.go, network/local.go and network/struct.go: sending and receiving messages on a
-- connection, with its encoder and its counters of bytes. The encoder is a parameter.
pub mod Traffic
use mulsigo.Prelude.{
  ℕ, ◌+◌, ◌%◌, ◌^◌, Bool, if◌then◌else◌, Option, none, some, List, [], ◌∷◌, ◌++◌, Bytes, length,
  Result, ok, err,
}
use mulsigo.Network.Frame
use mulsigo.Network.Frame.{RawError, CallError, Moved, send_raw, receive_raw}
use mulsigo.Network.Local
use mulsigo.Network.Local.{Endpoint, LocalManager, LocalConn}

-- `counterSafe`: two numbers of type uint64.
pub record CounterSafe : Type 0 where
  pub tx : ℕ
  pub rx : ℕ

unfoldable pub update_tx : CounterSafe → ℕ → CounterSafe
update_tx c delta = record c { tx = (c.tx + delta) % 2 ^ 64 }

unfoldable pub update_rx : CounterSafe → ℕ → CounterSafe
update_rx c delta = record c { rx = (c.rx + delta) % 2 ^ 64 }

-- The encoder fails, panics on what it is given, or the connection fails.
pub data Error {ℓ} (E : Type ℓ) : Type ℓ where
  encoding : E → Error E
  network : CallError → Error E
  not_open : Error E

-- A call has returned, or waits for the network.
pub data Outcome {ℓ κ} (E : Type ℓ) (A : Type κ) : Type (ℓ ⊔ κ) where
  returned : Result (Error E) A → Outcome E A
  waiting : Outcome E A

module _ {E M : Type 0} (marshal : M → Result E Bytes) (unmarshal : Bytes → Result E M) where
  -- `Send` of a TCP connection: its counters, and what it has put on the wire, if it returns nil.
  unfoldable pub tcp_send :
      CounterSafe → M → Option RawError → List Moved → CounterSafe × Outcome E Bytes
  unfolding send_raw update_tx
  tcp_send c msg size_error ws = elim (marshal msg) [
    | err e ↦ (c, returned (err (encoding e)))
    | ok buff ↦ elim (send_raw buff size_error ws) [
      | Frame.waiting ↦ (c, waiting)
      | Frame.returned (err e) ↦ (c, returned (err (network e)))
      | Frame.returned (ok out) ↦ (update_tx c (length buff % 2 ^ 32), returned (ok out))
    ]
  ]

  -- `Receive` of a TCP connection: the counters, and the message with the rest of the wire. As many
  -- bytes have been read as stand in the buffer.
  unfoldable pub tcp_receive :
      CounterSafe → Bytes → Option RawError → List Moved → CounterSafe × Outcome E (M × Bytes)
  unfolding receive_raw update_rx
  tcp_receive c wire size_error rs = elim (receive_raw wire size_error rs) [
    | Frame.waiting ↦ (c, waiting)
    | Frame.returned (err e) ↦ (c, returned (err (network e)))
    | Frame.returned (ok (buff, rest)) ↦ elim (unmarshal buff) [
      | err e ↦ (update_rx c (length buff), returned (err (encoding e)))
      | ok m ↦ (update_rx c (length buff), returned (ok (m, rest)))
    ]
  ]

  -- `Send` of a local connection: its error, and the manager; `none` while the queue is full.
  unfoldable pub local_send :
      LocalManager
      → Endpoint
      → CounterSafe
      → M
      → Option (LocalManager × CounterSafe × Option (Error E))
  unfolding update_tx Local.send
  local_send lm remote c msg = elim (marshal msg) [
    | err e ↦ some (lm, c, some (encoding e))
    | ok buff ↦
        let c' = update_tx c (length buff) in
        elim (Local.send lm remote buff) [
          | none ↦ none
          | some (lm', e) ↦ some (lm', c', elim e [ none ↦ none | some x ↦ some not_open ])
        ]
  ]

  -- `Receive` of a local connection: `none` while it waits.
  unfoldable pub local_receive :
      LocalConn → CounterSafe → Option (LocalConn × CounterSafe × Result (Error E) M)
  unfolding update_rx Local.receive
  local_receive lc c = elim (Local.receive lc) [
    | none ↦ none
    | some (err e, lc') ↦ some (lc', c, err not_open)
    | some (ok buff, lc') ↦ elim (unmarshal buff) [
      | err e ↦ some (lc', update_rx c (length buff), err (encoding e))
      | ok m ↦ some (lc', update_rx c (length buff), ok m)
    ]
  ]

-- `Close` of a local connection: it fails at once if `closeCh` is closed already; `none` while it
-- waits.
unfoldable pub local_close : LocalManager → LocalConn → Option (LocalManager × Option Local.Error)
unfolding Local.close
local_close lm lc =
    if lc.is_closed then some (lm, some Local.closed) else Local.close lm lc.local lc.remote
