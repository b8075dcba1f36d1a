-- ===== src/Network/Router.antt =====
-- network/router.go: the router's table of connections. What the host and the connections answer is
-- an argument.
pub mod Laws
use Prim.Native.Nat.{pred}
use mulsigo.Prelude.{
  ℕ, suc, ◌+◌, ◌%◌, ◌^◌, Bool, true, false, Option, none, some, List, [], ◌∷◌, ◌++◌, Bytes, Map,
  lookup, insert, delete, has, list_eq, nat_eq, Result, ok, err, if◌then◌else◌,
}
use mulsigo.Relay.Message.{Address}

pub data Error : Type 0 where
  closed eof timeout : Error
  nil_packet : Error
  other : ℕ → Error

-- A connection is known by a handle; `tx` and `rx` are its counters.
pub record Conn : Type 0 where
  pub handle : ℕ
  pub remote : Address
  pub tx : ℕ
  pub rx : ℕ

-- `handlers` counts the wait group; the traffic is that of closed connections, of type uint64.
pub record Router : Type 0 where
  pub connections : Map Address Conn
  pub is_closed : Bool
  pub handlers : ℕ
  pub traffic_tx : ℕ
  pub traffic_rx : ℕ

unfoldable pub new_router : Router
new_router = record {
  connections = [];
  is_closed = false;
  handlers = 0;
  traffic_tx = 0;
  traffic_rx = 0;
}

abbrev pub u64 : ℕ → ℕ
u64 n = n % 2 ^ 64

-- `registerConnection`, with the addresses of the EventUp that it publishes.
unfoldable pub register_connection : Router → Conn → Router × Option Error × List Address
register_connection r c =
    if r.is_closed
    then (r, some closed, [])
    else if has c.remote r.connections
    then (r, none, [])
    else (record r { connections = insert c.remote c r.connections }, none, c.remote ∷ [])

unfoldable pub launch_handle_routine : Router → Router × Option Error
launch_handle_routine r =
    if r.is_closed then (r, some closed) else (record r { handlers = suc r.handlers }, none)

-- The rest of `connect`, once the host has connected.
unfoldable pub adopt : Router → Conn → Router × Result Error Conn
unfolding register_connection launch_handle_routine
adopt r c =
    let (r1, e1, ups) = register_connection r c in
    elim e1 [
      | some e ↦ (r1, err e)
      | none ↦
          let (r2, e2) = launch_handle_routine r1 in (r2, elim e2 [ some e ↦ err e | none ↦ ok c ])
    ]

-- `connect`, by the host's answer.
unfoldable pub connect : Router → Result Error Conn → Router × Result Error Conn
connect r (err e) = (r, err e)
connect r (ok c) = adopt r c

-- The second attempt of `Send`: on a new connection.
unfoldable pub send_again : Router → Result Error Conn → Option Error → Router × Option Error
send_again r dialed sent =
    let (r', c) = connect r dialed in (r', elim c [ err e ↦ some e | ok _ ↦ sent ])

-- The attempts of `Send` on a connection: `first` is the error of sending on it.
unfoldable pub send_on :
    Router → Option Error → Result Error Conn → Option Error → Router × Option Error
unfolding send_again
send_on r none redialed second = (r, none)
send_on r (some e) redialed second = send_again r redialed second

-- `Send` to an address: the host's answers to the two connects, the errors of the two sends.
unfoldable pub send :
    Router
    → Address
    → Bool
    → Result Error Conn
    → Option Error
    → Result Error Conn
    → Option Error
    → Router × Option Error
unfolding send_on
send r to is_nil dialed first redialed second =
    if is_nil then (r, some nil_packet) else elim (lookup to r.connections) [
      | some c ↦ send_on r first redialed second
      | none ↦
          let (r', c) = connect r dialed in
          elim c [ err e ↦ (r', some e) | ok _ ↦ send_on r' first redialed second ]
    ]

unfoldable pub remove_connection : Router → Conn → Router
remove_connection r c = record r { connections = delete c.remote r.connections }

-- What the loop of `handleConn` receives, with whether the router is closed by then.
pub data Received : Type 0 where
  when_closed : Received
  message : Bytes → Received
  broken : Error → Received

-- The loop: the messages that it dispatches before it returns, or before it waits for more.
unfoldable pub handle_loop : List Received → List Bytes
handle_loop [] = []
handle_loop (when_closed ∷ rs) = []
handle_loop (message m ∷ rs) = m ∷ handle_loop rs
handle_loop (broken closed ∷ rs) = []
handle_loop (broken eof ∷ rs) = []
handle_loop (broken timeout ∷ rs) = []
handle_loop (broken nil_packet ∷ rs) = handle_loop rs
handle_loop (broken (other n) ∷ rs) = handle_loop rs

-- The deferred end of `handleConn`: `handlers` falls only from above 0, since it was launched.
unfoldable pub end_handler : Router → Conn → Router
unfolding remove_connection
end_handler r c =
    remove_connection
      (record r {
        traffic_rx = u64 (r.traffic_rx + c.rx);
        traffic_tx = u64 (r.traffic_tx + c.tx);
        handlers = pred r.handlers;
      })
      c

-- `Stop`, up to waiting for the handlers: the handles that it closes, each of them twice.
unfoldable pub close_handles : Map Address Conn → List ℕ
close_handles [] = []
close_handles ((a, c) ∷ m) = c.handle ∷ c.handle ∷ close_handles m

unfoldable pub stop : Router → Router × List ℕ
unfolding close_handles
stop r = (record r { is_closed = true }, close_handles r.connections)

-- The loops of `Tx` and `Rx` over the connections.
unfoldable pub tx_loop : Map Address Conn → ℕ → ℕ
tx_loop [] tx = tx
tx_loop ((a, c) ∷ m) tx = tx_loop m (u64 (tx + c.tx))

unfoldable pub rx_loop : Map Address Conn → ℕ → ℕ
rx_loop [] rx = rx
rx_loop ((a, c) ∷ m) rx = rx_loop m (u64 (rx + c.rx))

unfoldable pub total_tx : Router → ℕ
total_tx r = u64 (tx_loop r.connections 0 + r.traffic_tx)

unfoldable pub total_rx : Router → ℕ
total_rx r = u64 (rx_loop r.connections 0 + r.traffic_rx)
