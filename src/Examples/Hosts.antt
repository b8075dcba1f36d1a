-- ===== src/Examples/Hosts.antt =====
-- network/: connections and hosts at concrete inputs.
use mulsigo.Prelude.{
  none, ℕ, ◌≡◌, refl, true, some, Option, [], ◌∷◌, ◌++◌, Bytes, ok, err, Result, arith, lookup,
  insert, list_beq, list_eq, nat_eq, ◌==◌, ◌^◌, ◌-◌, if◌then◌else◌,
}
use mulsigo.Relay.Message.{Address}
use mulsigo.Network.Frame.{moved, has_prefix, max_retry_connect}
use mulsigo.Network.Address.{
  pos, split, split_from, to_conn_type, conn_type, plain_tcp, local_type, network_address, valid,
  valid_pieces, is_port, second, first, new_address,
}
use mulsigo.Network.Local.{LocalManager, new_local_manager, set_listening}
use mulsigo.Network.Conn.{CounterSafe}
use mulsigo.Network.Conn.Traffic.{
  Exchange, Works, send_all, receive_all, total_bytes, receive_all-send_all,
}
use mulsigo.Network.Host.{bind_tcp_listener, host_result, retry_loop}
use mulsigo.Network.Host.Binding.{bind_tcp_listener_lem, colons}
use mulsigo.Network.Host.Retries.{first_up}

-- Numbers as messages of one byte.
abbrev print : ℕ → Result ℕ Bytes
print n = ok (n ∷ [])

abbrev parse : Bytes → Result ℕ ℕ
parse [] = err 1
parse (n ∷ s) = ok n

abbrev exchange : ℕ → Exchange ℕ
exchange n = record {
  msg = n;
  buff = n ∷ [];
  size_write = none;
  writes = moved 4 ∷ [];
  size_read = none;
  reads = moved 1 ∷ [];
}

exchange-Works : (n : ℕ) → Works print parse (exchange n)
exchange-Works n = record {
  encodes = refl;
  decodes = refl;
  small = omega arith;
  size_written = refl;
  size_comes = refl;
  write_moves = (omega arith, tt);
  read_moves = (omega arith, tt);
  enough_writes = omega arith;
  enough_reads = omega arith;
}

abbrev counters : CounterSafe
counters = record { tx = 2 ^ 64 - 1; rx = 3 }

receive_all-send_all_example :
    (wire : Bytes) × (send_all print parse counters (exchange 5 ∷ exchange 6 ∷ [])
      ≡ some (record { tx = 1; rx = 3 }, wire))
    × (receive_all print parse counters (wire ++ 9 ∷ []) (exchange 5 ∷ exchange 6 ∷ [])
        ≡ some (record { tx = 2 ^ 64 - 1; rx = 5 }, 5 ∷ 6 ∷ [], 9 ∷ []))
unfolding total_bytes
receive_all-send_all_example =
    receive_all-send_all print parse (exchange 5 ∷ exchange 6 ∷ []) counters counters (9 ∷ [])
      (exchange-Works 5, (exchange-Works 6, tt)) (omega arith) (omega arith)

-- A parser that takes each text as a host without a port.
abbrev apart : Bytes → Option (Bytes × Bytes)
apart s = some (s, [])

-- tcp://[::1]:80
abbrev host_text : Bytes
host_text = b'[' ∷ b':' ∷ b':' ∷ b'1' ∷ b']' ∷ []

abbrev ipv6 : Address
ipv6 = new_address plain_tcp (host_text ++ b':' ∷ b'8' ∷ b'0' ∷ [])

abbrev accepts : Bytes → ℕ → Result ℕ Bytes
accepts at i = if i == 3 then ok at else err i

ipv6_type : conn_type ipv6 ≡ plain_tcp
unfolding conn_type split split_from has_prefix new_address to_conn_type first list_beq
ipv6_type = refl

ipv6_network :
    network_address apart (λ p. some (pos 80)) (λ ip. true) ipv6
    ≡ host_text ++ b':' ∷ b'8' ∷ b'0' ∷ []
unfolding network_address valid valid_pieces second is_port split split_from has_prefix new_address
    to_conn_type list_beq
ipv6_network = refl

bind_tcp_listener_lem_example :
    bind_tcp_listener apart (λ p. some (pos 80)) (λ ip. true) accepts ipv6
    ≡ host_result (retry_loop max_retry_connect 0 (accepts []))
unfolding colons
bind_tcp_listener_lem_example =
    bind_tcp_listener_lem apart (λ p. some (pos 80)) (λ ip. true) accepts ipv6 host_text
      (b'8' ∷ b'0' ∷ []) ipv6_type ipv6_network refl

-- local://a, at which somebody listens at the seventh try only.
abbrev late : Address
late = new_address local_type (b'a' ∷ [])

abbrev managers : ℕ → LocalManager
managers i = if i == 6 then set_listening new_local_manager late 1 else new_local_manager

late_type : conn_type late ≡ local_type
unfolding conn_type split split_from has_prefix new_address to_conn_type first list_beq
late_type = refl

late_up : first_up managers late 25 0 ≡ some 6
unfolding first_up set_listening new_local_manager new_address lookup list_beq insert
late_up = refl
