-- ===== src/Network/Router/Laws.antt =====
-- network/router.go: one connection for each address, the traffic, and the second attempt of `Send`.
use mulsigo.Prelude.{
  ℕ, ◌+◌, ◌≡◌, true, false, none, some, [], ◌∷◌, Map, lookup, delete, has, list_eq, nat_eq, Result,
  ok, if◌then◌else◌, arith, lookup-insert, lookup-delete, delete_absent, Distinct, ◌==◌, ==_refl,
  ==_iff,
}
use mulsigo.Relay.Message.{Address}
use mulsigo.Network.Router.{
  Error, closed, Conn, Router, u64, register_connection, adopt, connect, send, end_handler, tx_loop,
  rx_loop, total_tx, total_rx,
}

-- A registration on a closed router fails and changes nothing. On an open one it keeps the
-- connection that an address has already, and otherwise stores the new one and publishes it.
pub register_connection_lem :
    (r : Router) (c : Conn) (a : Address)
    → let (r', e, ups) = register_connection r c in
      (r.is_closed ≡ true → (r' ≡ r) × (e ≡ some closed) × (ups ≡ []))
      × (r.is_closed ≡ false
          → (e ≡ none)
            × (lookup a r'.connections ≡ (
                if has c.remote r.connections
                then lookup a r.connections
                else if c.remote == a
                then some c
                else lookup a r.connections))
            × (ups ≡ (if has c.remote r.connections then [] else c.remote ∷ [])))
unfolding register_connection
register_connection_lem r c a = (
  λ h. (ground arith, ground arith, ground arith),
  λ h. (ground arith, ground (arith, lookup-insert c.remote a c r.connections), ground arith),
)

-- The plain sum of the counters.
sum_tx : Map Address Conn → ℕ
sum_tx [] = 0
sum_tx ((a, c) ∷ m) = c.tx + sum_tx m

sum_rx : Map Address Conn → ℕ
sum_rx [] = 0
sum_rx ((a, c) ∷ m) = c.rx + sum_rx m

tx_loop_lem : (m : Map Address Conn) (tx : ℕ) → u64 (tx_loop m tx) ≡ u64 (tx + sum_tx m)
unfolding tx_loop sum_tx
tx_loop_lem [] tx = omega arith
tx_loop_lem ((a, c) ∷ m) tx = omega (arith, tx_loop_lem m (u64 (tx + c.tx)))

rx_loop_lem : (m : Map Address Conn) (rx : ℕ) → u64 (rx_loop m rx) ≡ u64 (rx + sum_rx m)
unfolding rx_loop sum_rx
rx_loop_lem [] rx = omega arith
rx_loop_lem ((a, c) ∷ m) rx = omega (arith, rx_loop_lem m (u64 (rx + c.rx)))

sum-delete :
    (k : Address) (m : Map Address Conn) (c : Conn)
    → Distinct m
    → lookup k m ≡ some c
    → (sum_tx (delete k m) + c.tx ≡ sum_tx m) × (sum_rx (delete k m) + c.rx ≡ sum_rx m)
unfolding sum_tx sum_rx delete lookup
sum-delete k [] c d h = ground arith
sum-delete k ((j, w) ∷ m) c d h =
    ground (arith, ==_iff j k, delete_absent k m, sum-delete k m c d.1)

-- When the handler of a registered connection ends, its traffic goes over to that of the closed
-- ones: the totals of the router stay as they were.
pub end_handler_traffic :
    (r : Router) (c : Conn)
    → Distinct r.connections
    → lookup c.remote r.connections ≡ some c
    → (total_tx (end_handler r c) ≡ total_tx r) × (total_rx (end_handler r c) ≡ total_rx r)
unfolding end_handler total_tx total_rx
end_handler_traffic r c d h =
    let m = delete c.remote r.connections in
    let sums = sum-delete c.remote r.connections c d h in
    (
      omega (arith, sums, tx_loop_lem m 0, tx_loop_lem r.connections 0),
      omega (arith, sums, rx_loop_lem m 0, rx_loop_lem r.connections 0),
    )

-- If sending on the stored connection fails and a second one to the same address succeeds, `Send`
-- returns nil but the broken connection stays the stored one; and when the handler of the second
-- connection ends it is the entry of the first that goes.
send_again_unstored :
    (r : Router) (old new : Conn) (dialed : Result Error Conn) (e : Error)
    → lookup new.remote r.connections ≡ some old
    → r.is_closed ≡ false
    → let (r', out) = send r new.remote false dialed (some e) (ok new) none in
      (out ≡ none)
      × (lookup new.remote r'.connections ≡ some old)
      × (lookup new.remote (end_handler r' new).connections ≡ none)
unfolding send connect adopt end_handler
send_again_unstored r old new dialed e h open_still = (
  ground arith,
  ground arith,
  ground (arith, lookup-delete new.remote new.remote r.connections, ==_refl new.remote),
)
