-- ===== src/Examples/Networks.antt =====
-- network/ at concrete inputs.
use mulsigo.Network.Dispatch.{register_processor, dispatch}
use mathlib.Core.List.{Perm}
use mulsigo.Network.Dispatch.Locked.{
  Action, Dispatcher, RoutineDispatcher, registers, registers_func, dispatches, ends, object,
  default_processor, new_dispatcher, new_routine_dispatcher, blocking_step, routine_step,
  processors_after, register_processor_func, call_of, process,
}
use mulsigo.Network.Dispatch.Calls.{
  Blocking, begins, acts, Routine, is_new, is_called, makes, all_calls, expected, dispatchers_agree,
}
use mulsigo.Prelude.{
  List, inl, inr, ◌⊎◌, ℕ, ◌≡◌, refl, none, some, [], ◌∷◌, ◌++◌, arith, ok, ◌>>=◌, Map, lookup,
  insert, list_beq, list_eq, nat_eq, pair_eq,
}
use mulsigo.Relay.Message.{Address}
use mulsigo.Network.Encoding.{Registry, get, get_id, multi_marshal, multi_unmarshal}
use mulsigo.Network.Encoding.RoundTrip.{multi_unmarshal-marshal}
use mulsigo.Network.Router
use mulsigo.Network.Router.{Conn, eof, new_router, register_connection, end_handler, total_tx}
use mulsigo.Network.Router.Laws.{end_handler_traffic}
use mulsigo.Network.Local.{
  Endpoint, LocalManager, new_local_manager, set_listening, connect, new_local_conn,
}
use mulsigo.Network.Local.{LocalConn, send, round_at, receive_at, start_round, receive}
use mulsigo.Network.Local.Order.{Traffic, starts, sends, moves, receives, queue_at, Traffic-order}

abbrev peer : Address
peer = b'p' ∷ []

abbrev procs : Map ℕ ℕ
procs = (3, 70) ∷ []

-- Types are numbers here, and a value is encoded as itself.
abbrev registry : Registry ℕ
registry = record { types = (5, 40) ∷ []; inv = (40, 5) ∷ [] }

multi_unmarshal-marshal_example :
    (multi_marshal (λ t v. some v) (λ t b. some b) registry (40, 8 ∷ [])
      >>= multi_unmarshal (λ t v. some v) (λ t b. some b) registry)
    ≡ ok (40, 8 ∷ [])
unfolding get get_id lookup
multi_unmarshal-marshal_example =
    multi_unmarshal-marshal (λ t v. some v) (λ t b. some b) registry 40 (8 ∷ []) 5 (8 ∷ [])
      (omega arith) refl refl refl refl

abbrev conn : Conn
conn = record { handle = 1; remote = peer; tx = 7; rx = 9 }

abbrev again : Conn
again = record { handle = 2; remote = peer; tx = 0; rx = 0 }

abbrev connected : Router.Router
connected = record new_router { connections = (peer, conn) ∷ [] }

end_handler_traffic_example : total_tx (end_handler connected conn) ≡ total_tx connected
unfolding new_router lookup list_beq
end_handler_traffic_example = (end_handler_traffic connected conn (refl, tt) refl).0

-- Two ends of one local connection.
abbrev left : Endpoint
left = (b'l' ∷ [], 0)

abbrev right : Endpoint
right = (b'r' ∷ [], 1)

abbrev linked : LocalManager
linked = (connect (set_listening new_local_manager (b'r' ∷ []) 3) (b'l' ∷ []) (b'r' ∷ [])).0

-- The same with a message that the right end has received and one that is on its way.
abbrev right_conn : LocalConn
right_conn = record (new_local_conn right left) { incoming = (2 ∷ []) ∷ [] }

abbrev in_use : LocalManager
in_use = record linked { heap = (left, new_local_conn left right) ∷ (right, right_conn) ∷ [] }

two_messages : Traffic right in_use ((1 ∷ []) ∷ (2 ∷ []) ∷ []) ((1 ∷ []) ∷ [])
unfolding connect set_listening new_local_manager new_local_conn send round_at receive_at
    start_round receive lookup insert list_beq
two_messages =
    sends right (2 ∷ [])
      (receives right
        (moves right (moves right (sends right (1 ∷ []) (starts linked refl) refl) refl) refl) refl)
      refl

Traffic-order_example : (1 ∷ []) ∷ (2 ∷ []) ∷ [] ≡ ((1 ∷ []) ∷ []) ++ queue_at in_use right
Traffic-order_example = Traffic-order two_messages

-- Two types of messages, by their first byte: processor 5 takes the type 1, and a function the type 2.
abbrev registrations : List (Action ℕ ℕ ℕ ℕ ℕ)
registrations = registers_func 2 6 ∷ registers (object 5) (1 ∷ []) ∷ []

abbrev busy_dispatcher : Dispatcher ℕ ℕ ℕ ℕ ℕ
busy_dispatcher = record {
  procs = (1, object 5) ∷ (2, default_processor 6) ∷ [];
  current = some (inl 5, 9, 1);
  made = (inr 6, 7, 2) ∷ [];
}

abbrev one_more : Action ℕ ℕ ℕ ℕ ℕ
one_more = dispatches 4 1

-- The first message is worked on, and its call ends; the second has no processor; the third's call
-- goes on.
last_goes_on :
    Blocking
      (λ m. m)
      (dispatches 9 1 ∷ dispatches 8 3 ∷ ends ∷ dispatches 7 2 ∷ registrations)
      busy_dispatcher
unfolding blocking_step new_dispatcher processors_after register_processor register_processor_func
    call_of process dispatch lookup insert
last_goes_on =
    acts (dispatches 9 1)
      (acts (dispatches 8 3)
        (acts ends
          (acts (dispatches 7 2)
            (acts (registers_func 2 6) (acts (registers (object 5) (1 ∷ [])) begins refl) refl)
            refl)
          refl)
        refl)
      refl

-- Two goroutines were started, and the second has run.
abbrev late_dispatcher : RoutineDispatcher ℕ ℕ ℕ ℕ ℕ
late_dispatcher = record {
  procs = busy_dispatcher.procs;
  started = (inr 6, 7, 2) ∷ [];
  made = (inl 5, 9, 1) ∷ [];
}

first_is_late : Routine (λ m. m) (dispatches 9 1 ∷ dispatches 7 2 ∷ registrations) late_dispatcher
unfolding routine_step new_routine_dispatcher processors_after register_processor
    register_processor_func call_of process dispatch lookup insert
first_is_late =
    makes ((inr 6, 7, 2) ∷ []) [] (inl 5, 9, 1)
      (is_called (dispatches 9 1) (
        is_called (dispatches 7 2)
          (is_called (registers_func 2 6) (is_called (registers (object 5) (1 ∷ [])) is_new))))
      refl

dispatchers_agree_example :
    (all_calls (λ m. m) busy_dispatcher
      ≡ expected (λ m. m) (dispatches 9 1 ∷ dispatches 8 3 ∷ ends ∷ dispatches 7 2 ∷ registrations))
    × ((busy_dispatcher.current ≡ none)
        ⊎ (one_more ≡ ends)
        ⊎ (blocking_step (λ m. m) busy_dispatcher one_more ≡ none))
    × Perm
        (late_dispatcher.made ++ late_dispatcher.started)
        (expected (λ m. m) (dispatches 9 1 ∷ dispatches 7 2 ∷ registrations))
dispatchers_agree_example = dispatchers_agree (λ m. m) one_more last_goes_on first_is_late
