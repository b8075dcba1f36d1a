-- ===== src/Client/Stream/Wait.antt =====
-- client/stream.go: the loop in which `send` waits for its acknowledgement.
use mulsigo.Prelude.{
  ℕ, Bytes, ◌+◌, ◌*◌, ◌≤◌, ◌≡◌, refl, ◌≢◌, ◌⊎◌, inl, inr, Option, none, some, List, [], ◌∷◌, length,
  ◌==◌, nat_eq, arith, ==_iff, Bool-cases, sym, ap,
}
use mathlib.Core.List.{Memᴰ}
use mulsigo.Client.Stream.{
  Error, max_incorrect_messages, retry_cost, Wakeup, acked, errored, stopped, timed_out, returned,
  waiting, wait_ack, ReliableStream, send, u32, begin_send, set_error,
}

wait_ack_ends_from :
    (f : Option Error) (s i : ℕ) (ws : List Wakeup)
    → max_incorrect_messages ≤ i + length ws
    → (wait_ack f s i ws).0 ≢ waiting
unfolding wait_ack
wait_ack_ends_from f s i [] h = ground arith
wait_ack_ends_from f s i (w ∷ ws) h =
    ground
      (arith, wait_ack_ends_from f s (i + 1) ws, wait_ack_ends_from f s (i + retry_cost + 1) ws)

wait_ack_resends_from :
    (f : Option Error) (s i : ℕ) (ws : List Wakeup)
    → ((wait_ack f s i ws).1 * 11 + i ≤ 110) ⊎ ((wait_ack f s i ws).1 ≡ 0)
unfolding wait_ack
wait_ack_resends_from f s i [] = ground arith
wait_ack_resends_from f s i (timed_out none ∷ ws) =
    ground (arith, wait_ack_resends_from f s (i + retry_cost + 1) ws)
wait_ack_resends_from f s i (timed_out (some e) ∷ ws) = ground arith
wait_ack_resends_from f s i (acked n ∷ ws) = ground (arith, wait_ack_resends_from f s (i + 1) ws)
wait_ack_resends_from f s i (errored ∷ ws) = ground arith
wait_ack_resends_from f s i (stopped ∷ ws) = ground arith

begin_send_sequence :
    (r : ReliableStream) (buf : Bytes)
    → ((begin_send r buf).0.sequence ≡ u32 (r.sequence + 1))
      × ((begin_send r buf).1.sequence ≡ u32 (r.sequence + 1))
unfolding begin_send
begin_send_sequence r buf = (refl, refl)

set_error_sequence : (r : ReliableStream) (e : Error) → (set_error r e).sequence ≡ r.sequence
unfolding set_error
set_error_sequence r e = ground arith

-- `send` returns within 100 rounds of its loop, whatever wakes it, has then sent its packet at most
-- eleven times, and has taken the next sequence number.
pub send_ends :
    (r : ReliableStream) (buf : Bytes) (sent failure : Option Error) (ws : List Wakeup)
    → max_incorrect_messages ≤ length ws
    → let (r', out, n) = send r buf sent failure ws in
      (out ≢ waiting) × (1 ≤ n) × (n ≤ 11) × (r'.sequence ≡ u32 (r.sequence + 1))
unfolding send
send_ends r buf sent failure ws h =
    let n = u32 (r.sequence + 1) in
    let r' = (begin_send r buf).0 in
    ground (
      arith,
      begin_send_sequence r buf,
      set_error_sequence r',
      wait_ack_ends_from failure n 0 ws,
      wait_ack_resends_from failure n 0 ws,
    )

wait_ack_nil_from :
    (f : Option Error) (s i : ℕ) (ws : List Wakeup)
    → f ≢ none
    → (wait_ack f s i ws).0 ≡ returned none
    → Memᴰ (acked s) ws
unfolding wait_ack
wait_ack_nil_from f s i [] h r = ground arith
wait_ack_nil_from f s i (timed_out none ∷ ws) h r =
    Memᴰ.tail (wait_ack_nil_from f s (i + retry_cost + 1) ws h (ground arith))
wait_ack_nil_from f s i (timed_out (some e) ∷ ws) h r = ground arith
wait_ack_nil_from f s i (acked n ∷ ws) h r = elim (Bool-cases (n == s)) [
  | inl same ↦ Memᴰ.head (ap acked (sym ((==_iff n s).0 same)))
  | inr other ↦ Memᴰ.tail (wait_ack_nil_from f s (i + 1) ws h (ground arith))
]
wait_ack_nil_from f s i (errored ∷ ws) h r = ground arith
wait_ack_nil_from f s i (stopped ∷ ws) h r = ground arith

-- `send` returns nil only if an acknowledgement of its own sequence number has woken it.
pub wait_ack_nil :
    (f : Option Error) (s : ℕ) (ws : List Wakeup)
    → f ≢ none
    → (wait_ack f s 0 ws).0 ≡ returned none
    → Memᴰ (acked s) ws
wait_ack_nil f s ws = wait_ack_nil_from f s 0 ws
