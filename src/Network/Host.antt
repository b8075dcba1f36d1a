-- ===== src/Network/Host.antt =====
-- network/tcp.go, network/local.go and network/struct.go: how hosts bind and connect, with their
-- retries. What each try gives is an argument, since others act between two tries.
pub mod Retries
pub mod Binding
use mulsigo.Prelude.{
  ℕ, zero, suc, ◌+◌, Bool, true, false, Option, none, some, List, [], ◌∷◌, ◌++◌, Bytes, Result, ok,
  err, ◌==◌, if◌then◌else◌, list_eq, nat_eq,
}
use mulsigo.Relay.Message.{Address}
use mulsigo.Network.Frame.{max_retry_connect, new_tcp_conn}
use mulsigo.Network.Address.{ℤ, split, conn_type, network_address, plain_tcp, local_type}
use mulsigo.Network.Local
use mulsigo.Network.Local.{Endpoint, LocalManager, connect}

-- The last error of the tries, if there is one, or a type that the host cannot handle.
pub data Error {ℓ} (E : Type ℓ) : Type ℓ where
  tries_failed : Option E → Error E
  wrong_type : Error E

-- "0.0.0.0:"
abbrev pub any_host : Bytes
any_host = b'0' ∷ b'.' ∷ b'0' ∷ b'.' ∷ b'0' ∷ b'.' ∷ b'0' ∷ b':' ∷ []

unfoldable pub bound_to : List Bytes → Option Bytes
bound_to (h ∷ p ∷ []) = some (any_host ++ p)
bound_to _ = none

-- `GlobalBind`; `none` is its error, beside the empty string.
unfoldable pub global_bind : Bytes → Option Bytes
unfolding split bound_to
global_bind address = bound_to (split address (b':' ∷ []))

unfoldable pub or_empty : Option Bytes → Bytes
or_empty none = []
or_empty (some g) = g

-- The loop of `NewLocalConnWithManager` and of `NewTCPListener`, with `left` tries to go, of which the
-- next is the one of number `i`: what it gives, and the number after its last try.
unfoldable pub retry_loop : {E A : Type 0} → ℕ → ℕ → (ℕ → Result E A) → Result (Option E) A × ℕ
retry_loop zero i attempt = (err none, i)
retry_loop (suc left) i attempt = elim (attempt i) [
  | ok c ↦ (ok c, suc i)
  | err e ↦ if left == 0 then (err (some e), suc i) else retry_loop left (suc i) attempt
]

-- What a host makes of it.
unfoldable pub host_result : {E A : Type 0} → Result (Option E) A × ℕ → Result (Error E) A × ℕ
host_result (ok c, n) = (ok c, n)
host_result (err e, n) = (err (tries_failed e), n)

-- The parsers of an address, as in Network.Address.
module _ (split_host_port : Bytes → Option (Bytes × Bytes)) (atoi : Bytes → Option ℤ)
    (parse_ip : Bytes → Bool) where
  -- `NewTCPListener`, by what each try to listen at an address gives. The error of `GlobalBind` is
  -- not looked at.
  unfoldable pub bind_tcp_listener :
      {E A : Type 0} → (Bytes → ℕ → Result E A) → Address → Result (Error E) A × ℕ
  unfolding global_bind or_empty retry_loop host_result conn_type network_address
  bind_tcp_listener listen addr =
      if conn_type addr == plain_tcp
      then (let global =
            or_empty (global_bind (network_address split_host_port atoi parse_ip addr)) in
          host_result (retry_loop max_retry_connect 0 (listen global)))
      else (err wrong_type, 0)

  -- `Connect` of a TCP host.
  unfoldable pub tcp_host_connect :
      {E A : Type 0} → (Bytes → ℕ → Result E A) → Address → Result (Error E) A × ℕ
  unfolding conn_type network_address new_tcp_conn host_result
  tcp_host_connect dial addr =
      if conn_type addr == plain_tcp
      then host_result (new_tcp_conn (dial (network_address split_host_port atoi parse_ip addr)))
      else (err wrong_type, 0)

-- One try against the local manager: the connection, and the manager with it.
abbrev pub Connected : Type 0
Connected = LocalManager × Endpoint × ℕ × Endpoint

unfoldable pub local_attempt : LocalManager → Address → Address → Result Local.Error Connected
unfolding connect
local_attempt lm local remote =
    let (lm', r) = connect lm local remote in
    elim r [ ok (out, fn, inc) ↦ ok (lm', out, fn, inc) | err e ↦ err e ]

-- `NewLocalConnWithManager`, by the manager at each try; `start` tries have been made before.
unfoldable pub new_local_conn_with :
    (ℕ → LocalManager) → Address → Address → ℕ → Result (Option Local.Error) Connected × ℕ
unfolding retry_loop local_attempt
new_local_conn_with lms local remote start =
    retry_loop max_retry_connect start (λ i. local_attempt (lms i) local remote)

-- The loop of `Connect` of a local host, with `left` rounds to go.
unfoldable pub host_loop :
    ℕ
    → (ℕ → LocalManager)
    → Address
    → Address
    → ℕ
    → Option Local.Error
    → Result (Option Local.Error) Connected × ℕ
unfolding new_local_conn_with
host_loop zero lms local remote start final = (err final, start)
host_loop (suc left) lms local remote start final =
    let (r, n) = new_local_conn_with lms local remote start in
    elim r [ ok c ↦ (ok c, n) | err e ↦ host_loop left lms local remote n e ]

unfoldable pub local_host_connect :
    (ℕ → LocalManager) → Address → Address → Result (Error Local.Error) Connected × ℕ
unfolding host_loop host_result conn_type
local_host_connect lms local addr =
    if conn_type addr == local_type
    then host_result (host_loop max_retry_connect lms local addr 0 none)
    else (err wrong_type, 0)
