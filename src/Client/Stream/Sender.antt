-- ===== src/Client/Stream/Sender.antt =====
-- client/stream.go: the steps of the sender's user keep the invariant of the link.
use mathlib.Core.List.{Memᴰ}
use mulsigo.Prelude.{
  ℕ, zero, suc, ◌+◌, ◌-◌, ◌%◌, ◌^◌, ◌≤◌, ◌<◌, ◌≡◌, ◌≢◌, refl, Option, none, some, List, [], ◌∷◌,
  ◌++◌, Bytes, length, length-append, All, All-append, get_elem?, arith, sym, subst,
}
use mulsigo.Client.Stream.{
  Error, reliable_data, ReliablePacket, begin_send, Wakeup, acked, timed_out, returned, wait_ack,
}
use mulsigo.Client.Stream.Wait.{wait_ack_nil}
use mulsigo.Client.Stream.Link.{Link, send_link, resend_link, wake_link, finish_link}
use mulsigo.Client.Stream.Invariant.{
  SentOk, WakeOk, OpenOk, newest, numbers, LinkOk, All-Memᴰ, All-map,
}

pub get_elem?-append :
    {A : Type 0} (xs ys : List A) (i : ℕ) → i < length xs → get_elem? (xs ++ ys) i ≡ get_elem? xs i
get_elem?-append [] ys i h = elim h [ ]
get_elem?-append (x ∷ xs) ys zero h = refl
get_elem?-append (x ∷ xs) ys (suc i) h = get_elem?-append xs ys i (omega arith)

pub get_elem?-append_last :
    {A : Type 0} (xs : List A) (x : A) → get_elem? (xs ++ x ∷ []) (length xs) ≡ some x
get_elem?-append_last [] x = refl
get_elem?-append_last (y ∷ xs) x = get_elem?-append_last xs x

pub SentOk-append :
    (log : List Bytes) (b : Bytes) (p : ReliablePacket) → SentOk log p → SentOk (log ++ b ∷ []) p
SentOk-append log b p h =
    ground (arith, get_elem?-append log (b ∷ []) (p.sequence - 1), length-append log (b ∷ []))

pub fresh-SentOk :
    (log : List Bytes) (b : Bytes) (n : ℕ)
    → n ≡ suc (length log)
    → SentOk (log ++ b ∷ []) (record { kind = reliable_data; sequence = n; content = b })
fresh-SentOk log b n e =
    let at : n - 1 ≡ length log = omega arith in
    (
      refl,
      omega arith,
      omega (arith, length-append log (b ∷ [])),
      rw at (get_elem?-append_last log b),
    )

pub sends-LinkOk :
    (l : Link) (b : Bytes)
    → l.open_send ≡ none
    → length l.log + 1 < 2 ^ 32
    → LinkOk l
    → LinkOk (send_link l b)
unfolding send_link begin_send
sends-LinkOk l b h s v =
    let n : (l.sender.sequence + 1) % 2 ^ 32 ≡ suc (length l.log) = omega (arith, v.counted) in
    let longer = length-append l.log (b ∷ []) in
    let fresh = fresh-SentOk l.log b ((l.sender.sequence + 1) % 2 ^ 32) n in
    let grow = SentOk-append l.log b in
    record {
      counted = omega (arith, longer);
      small = omega (arith, longer);
      sent_ok =
          (fresh, All-map (SentOk l.log) (SentOk (l.log ++ b ∷ [])) grow l.sender_sent v.sent_ok);
      acks_ok = v.acks_ok;
      queue_ok = v.queue_ok;
      hand_ok = v.hand_ok;
      no_ack = v.no_ack;
      open_ok = (omega (arith, longer), fresh, tt);
      last_ok = v.last_ok;
      descending = v.descending;
      accepted_ok = All-map (SentOk l.log) (SentOk (l.log ++ b ∷ [])) grow l.accepted v.accepted_ok;
      in_order = v.in_order;
      confirmed_ok = v.confirmed_ok;
    }

pub resends-LinkOk :
    (l : Link) (p : ReliablePacket) (ws : List Wakeup)
    → l.open_send ≡ some (p, ws)
    → LinkOk l
    → LinkOk (resend_link l p ws)
unfolding resend_link
resends-LinkOk l p ws h v =
    let o = subst (OpenOk l.log l.receiver.last_ackd) h v.open_ok in
    ground
      (arith, o, All-append (WakeOk l.receiver.last_ackd) ws (timed_out none ∷ []) o.2 (tt, tt))

pub wakes-LinkOk :
    (l : Link) (p : ReliablePacket) (ws : List Wakeup) (n : ℕ) (rest : List ℕ)
    → l.open_send ≡ some (p, ws)
    → l.sender.acks ≡ n ∷ rest
    → LinkOk l
    → LinkOk (wake_link l p ws n rest)
unfolding wake_link
wakes-LinkOk l p ws n rest h q v =
    let o = subst (OpenOk l.log l.receiver.last_ackd) h v.open_ok in
    let queue = subst (All (λ n. n ≤ l.receiver.last_ackd)) q v.queue_ok in
    ground (
      arith,
      o,
      queue,
      All-append (WakeOk l.receiver.last_ackd) ws (acked n ∷ []) o.2 (queue.0, tt),
    )

pub newest-le :
    (log : List Bytes) (ps : List ReliablePacket) → All (SentOk log) ps → newest ps ≤ length log
newest-le log [] h = omega arith
newest-le log (p ∷ ps) h = h.0.2

pub newest-Memᴰ : (ps : List ReliablePacket) → 1 ≤ newest ps → Memᴰ (newest ps) (numbers ps)
newest-Memᴰ [] h = elim h [ ]
newest-Memᴰ (p ∷ ps) h = Memᴰ.head refl

pub finishes-LinkOk :
    (l : Link) (p : ReliablePacket) (ws : List Wakeup) (f e : Option Error)
    → l.open_send ≡ some (p, ws)
    → f ≢ none
    → (wait_ack f p.sequence 0 ws).0 ≡ returned e
    → LinkOk l
    → LinkOk (finish_link l p.sequence e)
unfolding finish_link
finishes-LinkOk l p ws f (some e) h q r v = ground arith
finishes-LinkOk l p ws f none h q r v =
    let o = subst (OpenOk l.log l.receiver.last_ackd) h v.open_ok in
    let woke = All-Memᴰ (WakeOk l.receiver.last_ackd) ws o.2 (wait_ack_nil f p.sequence ws q r) in
    let number : p.sequence ≡ newest l.accepted =
      omega (arith, o, woke, v.last_ok, newest-le l.log l.accepted v.accepted_ok) in
    let there : Memᴰ p.sequence (numbers l.accepted) =
      subst (λ n. Memᴰ n (numbers l.accepted)) (sym number)
        (newest-Memᴰ l.accepted (omega (arith, o, number))) in
    ground (arith, there)
