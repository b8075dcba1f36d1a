-- ===== src/Network/Local.antt =====
-- network/local.go: connections within one process. A connection object is known by its local
-- endpoint, whose number is unique; `heap` holds the objects and `conns` the map of the open ones.
pub mod Order
use mulsigo.Prelude.{
  ℕ, zero, suc, ◌+◌, ◌%◌, ◌^◌, Bool, true, false, not, Option, none, some, List, [], ◌∷◌, ◌++◌,
  Bytes, length, Map, lookup, insert, delete, has, ltb, ◌==◌, list_eq, nat_eq, pair_eq, Result, ok,
  err, if◌then◌else◌,
}
use mulsigo.Relay.Message.{Address}

abbrev pub local_max_buffer : ℕ
local_max_buffer = 200

abbrev pub max_retry_connect : ℕ
max_retry_connect = 5

-- An address and a number of type uint64.
abbrev pub Endpoint : Type 0
Endpoint = Address × ℕ

pub data Error : Type 0 where
  closed : Error
  not_listening : Error
  already_listening : Error
  wrong_type : Error

-- `incoming` and `outgoing` are the two queues, oldest first, and `in_hand` is what the goroutine has
-- taken from the one and not yet pushed to the other; `is_closed`: `closeCh` is closed.
pub record LocalConn : Type 0 where
  pub local : Endpoint
  pub remote : Endpoint
  pub incoming : List Bytes
  pub in_hand : Option Bytes
  pub outgoing : List Bytes
  pub is_closed : Bool

pub record LocalManager : Type 0 where
  pub heap : Map Endpoint LocalConn
  pub conns : Map Endpoint Bool
  pub listening : Map Address ℕ
  pub counter : ℕ

unfoldable pub new_local_manager : LocalManager
new_local_manager = record { heap = []; conns = []; listening = []; counter = 0 }

unfoldable pub is_listening : LocalManager → Address → Bool
is_listening lm addr = has addr lm.listening

unfoldable pub set_listening : LocalManager → Address → ℕ → LocalManager
set_listening lm addr fn = record lm { listening = insert addr fn lm.listening }

unfoldable pub unset_listening : LocalManager → Address → LocalManager
unset_listening lm addr = record lm { listening = delete addr lm.listening }

unfoldable pub new_local_conn : Endpoint → Endpoint → LocalConn
new_local_conn local remote = record {
  local = local;
  remote = remote;
  incoming = [];
  in_hand = none;
  outgoing = [];
  is_closed = false;
}

abbrev pub u64 : ℕ → ℕ
u64 n = n % 2 ^ 64

-- `connect`: the outgoing connection, and the listener's function with the incoming one.
unfoldable pub connect :
    LocalManager → Address → Address → LocalManager × Result Error (Endpoint × ℕ × Endpoint)
unfolding new_local_conn
connect lm local remote = elim (lookup remote lm.listening) [
  | none ↦ (lm, err not_listening)
  | some fn ↦
      let out : Endpoint = (local, lm.counter) in
      let inc : Endpoint = (remote, u64 (lm.counter + 1)) in
      (
        record lm {
          heap = insert inc (new_local_conn inc out) (insert out (new_local_conn out inc) lm.heap);
          conns = insert inc true (insert out true lm.conns);
          counter = u64 (u64 (lm.counter + 1) + 1);
        },
        ok (out, fn, inc),
      )
]

-- `send`; `none` while the queue is full.
unfoldable pub send : LocalManager → Endpoint → Bytes → Option (LocalManager × Option Error)
send lm e msg =
    if has e lm.conns
    then elim (lookup e lm.heap) [
      | none ↦ some (lm, some closed)
      | some q ↦
          if ltb (length q.incoming) local_max_buffer
          then some (
            record lm { heap = insert e (record q { incoming = q.incoming ++ msg ∷ [] }) lm.heap },
            none,
          )
          else none
    ]
    else some (lm, some closed)

-- `closeChannels`, on the object of an endpoint: its goroutine confirms and returns once it is in its
-- select. `none` while it has a message in hand, which it first has to push.
unfoldable pub close_channels : Map Endpoint LocalConn → Endpoint → Option (Map Endpoint LocalConn)
close_channels heap e = elim (lookup e heap) [
  | none ↦ some heap
  | some c ↦ elim c.in_hand [
    | some m ↦ none
    | none ↦ some (insert e (record c { is_closed = true }) heap)
  ]
]

-- `close` of the manager, for the connection with these endpoints; `none` while it waits for one of
-- the two goroutines, with the manager's lock held.
unfoldable pub close : LocalManager → Endpoint → Endpoint → Option (LocalManager × Option Error)
unfolding close_channels
close lm local remote =
    if has local lm.conns
    then (let conns = delete local lm.conns in
        elim (close_channels lm.heap local) [
          | none ↦ none
          | some heap ↦
              if has remote conns
              then elim (close_channels heap remote) [
                | none ↦ none
                | some heap' ↦ some (record lm { conns = delete remote conns; heap = heap' }, none)
              ]
              else some (record lm { conns = conns; heap = heap }, none)
        ])
    else some (lm, some closed)

-- One step of the goroutine of a connection: it takes a message from the one queue, or pushes the
-- message in its hand to the other, which waits while that is full. Once `closeCh` is closed the
-- goroutine has returned.
unfoldable pub start_round : LocalConn → Option LocalConn
start_round c = if c.is_closed then none else elim c.in_hand [
  | none ↦ elim c.incoming [
    | [] ↦ none
    | m ∷ rest ↦ some (record c { incoming = rest; in_hand = some m })
  ]
  | some m ↦
      if ltb (length c.outgoing) local_max_buffer
      then some (record c { in_hand = none; outgoing = c.outgoing ++ m ∷ [] })
      else none
]

-- `Receive`, up to the decoding: `none` while it waits.
unfoldable pub receive : LocalConn → Option (Result Error Bytes × LocalConn)
receive c = elim c.outgoing [
  | m ∷ rest ↦ some (ok m, record c { outgoing = rest })
  | [] ↦ if c.is_closed then some (err closed, c) else none
]

-- The same two on the object of an endpoint.
unfoldable pub round_at : LocalManager → Endpoint → Option LocalManager
round_at lm e = elim (lookup e lm.heap) [
  | none ↦ none
  | some c ↦ elim (start_round c) [
    | none ↦ none
    | some c' ↦ some (record lm { heap = insert e c' lm.heap })
  ]
]

unfoldable pub receive_at : LocalManager → Endpoint → Option (Result Error Bytes × LocalManager)
receive_at lm e = elim (lookup e lm.heap) [
  | none ↦ none
  | some c ↦ elim (receive c) [
    | none ↦ none
    | some (m, c') ↦ some (m, record lm { heap = insert e c' lm.heap })
  ]
]

-- The listener of one address; `type_is_local` says that the address is of the local type.
pub record LocalListener : Type 0 where
  pub addr : Address
  pub listening : Bool

unfoldable pub new_local_listener : LocalManager → Address → Bool → Result Error LocalListener
new_local_listener lm addr type_is_local =
    if not type_is_local
    then err wrong_type
    else if is_listening lm addr
    then err already_listening
    else ok (record { addr = addr; listening = false })

unfoldable pub listen :
    LocalManager → LocalListener → ℕ → LocalManager × LocalListener × Option Error
unfolding set_listening
listen lm ll fn =
    if ll.listening
    then (lm, ll, some already_listening)
    else (set_listening lm ll.addr fn, record ll { listening = true }, none)

unfoldable pub stop : LocalManager → LocalListener → LocalManager × LocalListener
unfolding unset_listening
stop lm ll =
    if ll.listening then (unset_listening lm ll.addr, record ll { listening = false }) else (lm, ll)
