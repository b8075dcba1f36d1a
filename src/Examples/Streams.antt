-- ===== src/Examples/Streams.antt =====
-- client/stream.go at concrete inputs.
use mathlib.Core.List.{Mem, Memᴰ, Sublistᴰ}
use mulsigo.Prelude.{
  ◌+◌, ◌++◌, ℕ, zero, suc, ◌≡◌, ◌≢◌, refl, none, some, List, [], ◌∷◌, Bytes, get_elem?, arith,
}
use mulsigo.Client.Stream.{
  closed, timeout, reliable_data, ReliablePacket, Wakeup, acked, returned, waiting, wait_ack, send,
  idle, ack_packet, machine_receive, machine_push, begin_send, is_listening, on_data,
  new_reliable_stream,
}
use mulsigo.Client.Stream.Wait.{send_ends}
use mulsigo.Client.Stream.Completes.{IsQuiet}
use mulsigo.Client.Stream.Progress.{messages_can_arrive}
use mulsigo.Client.Stream.{is_listening}
use mulsigo.Prelude.{length}
use mulsigo.Client.Stream.Link.{
  Link, new_link, send_link, data_link, ack_link, wake_link, finish_link, Reach, here, next, sends,
  data_arrives, ack_arrives, receiver_pushes, sender_pushes, wakes, finishes,
}
use mulsigo.Client.Stream.Delivery.{taken, taken-sublist, confirmed-taken}

-- A hundred wrong acknowledgements.
wrong : ℕ → List Wakeup
wrong zero = []
wrong (suc n) = acked 9 ∷ wrong n

hundred_wrong : wait_ack (some closed) 1 0 (wrong 100) ≡ (returned (some timeout), 0)
unfolding wait_ack wrong
hundred_wrong = refl

send_ends_example : (send new_reliable_stream (7 ∷ []) none (some closed) (wrong 100)).1 ≢ waiting
send_ends_example =
    (send_ends new_reliable_stream (7 ∷ []) none (some closed) (wrong 100)
      (unfold wrong in omega arith)).0

abbrev hello : Bytes
hello = b'h' ∷ []

-- The only packet of the run.
abbrev first : ReliablePacket
first = record { kind = reliable_data; sequence = 1; content = hello }

-- The states of a run in which one message is sent, taken, acknowledged and confirmed.
abbrev l1 : Link
l1 = send_link new_link hello

abbrev l2 : Link
l2 = data_link l1 first

abbrev l3 : Link
l3 = record l2 { receiver = record (l2.receiver) { inbox = hello ∷ []; pending = idle } }

abbrev l4 : Link
l4 = ack_link l3 (ack_packet 1)

abbrev l5 : Link
l5 = record l4 { sender = record (l4.sender) { acks = 1 ∷ []; pending = idle } }

abbrev l6 : Link
l6 = wake_link l5 first [] 1 []

abbrev l7 : Link
l7 = finish_link l6 1 none

l7-Reach : Reach new_link l7
unfolding send_link data_link ack_link wake_link finish_link new_link new_reliable_stream begin_send
    machine_receive on_data machine_push is_listening wait_ack
l7-Reach =
    next
      (next
        (next
          (next
            (next
              (next (next here (sends new_link hello refl))
                (data_arrives l1 first (Memᴰ.head refl) refl))
              (receiver_pushes l2 l3.receiver refl))
            (ack_arrives l3 (ack_packet 1) (Memᴰ.head refl) refl))
          (sender_pushes l4 l5.sender refl))
        (wakes l5 first [] 1 [] refl refl))
      (finishes l6 first (acked 1 ∷ []) (some closed) none refl (λ h. ground arith) refl)

taken-sublist_example : Sublistᴰ (taken l7) l7.log
unfolding finish_link wake_link ack_link data_link send_link new_link
taken-sublist_example = taken-sublist l7-Reach (omega arith)

confirmed-taken_example : (b : Bytes) × (get_elem? l7.log 0 ≡ some b) × Mem b (taken l7)
unfolding finish_link wake_link ack_link data_link send_link new_link
confirmed-taken_example = confirmed-taken 1 l7-Reach (omega arith) (Memᴰ.head refl)

l7-IsQuiet : IsQuiet l7
unfolding is_listening finish_link wake_link ack_link machine_receive data_link send_link begin_send
    new_link new_reliable_stream
l7-IsQuiet = record { no_send = refl; hears_acks = refl; hears_data = refl; few_acks = omega arith }

messages_can_arrive_example :
    (m : Link) × Reach l7 m
    × IsQuiet m
    × (m.log ≡ l7.log ++ hello ∷ hello ∷ [])
    × (m.received ≡ l7.received ++ (l7.receiver.inbox ++ hello ∷ hello ∷ []))
    × (length m.confirmed ≡ length l7.confirmed + 2)
unfolding finish_link wake_link ack_link data_link send_link new_link
messages_can_arrive_example =
    messages_can_arrive (hello ∷ hello ∷ []) l7-Reach l7-IsQuiet (omega arith)
