-- ===== src/Client/Stream/Wraps.antt =====
-- client/stream.go: the sequence number is a uint32, and goes back to 0 after 2 ^ 32 sends.
use mulsigo.Prelude.{◌-◌, ◌^◌, ◌≡◌, Option, none, List, [], ◌∷◌, Bytes, arith}
use mulsigo.Client.Stream.{
  ReliableStream, packet, ack_packet, machine_receive, begin_send, Wakeup, acked, returned,
  wait_ack, Error,
}

-- The send that wraps the sequence number is lost and yet succeeds: whatever the receiver has taken
-- before, it answers the packet with an ACK and takes nothing, and that ACK makes `send` return nil.
wrapped_send_lost :
    (s r : ReliableStream) (b : Bytes) (f : Option Error) (ws : List Wakeup)
    → s.sequence ≡ 2 ^ 32 - 1
    → let p = (begin_send s b).1 in
      (machine_receive r (packet p) none ≡ (r, ack_packet p.sequence ∷ []))
      × (wait_ack f p.sequence 0 (acked p.sequence ∷ ws) ≡ (returned none, 0))
unfolding begin_send machine_receive wait_ack
wrapped_send_lost s r b f ws h = (ground arith, ground arith)
