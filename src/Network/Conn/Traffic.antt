-- ===== src/Network/Conn/Traffic.antt =====
-- network/tcp.go: what two ends of a connection count and read.
use mulsigo.Prelude.{
  ℕ, ◌+◌, ◌%◌, ◌^◌, ◌<◌, ◌≤◌, ◌≡◌, Option, none, some, List, [], ◌∷◌, ◌++◌, Bytes, length, map, All,
  Result, ok, err, arith, append_assoc, ap, ◌∙◌,
}
use mulsigo.Network.Frame.{RawError, Moved, put_u32}
use mulsigo.Network.Frame.RoundTrip.{Moves, receive-send_raw}
use mulsigo.Network.Conn.{
  CounterSafe, update_tx, update_rx, Outcome, returned, waiting, tcp_send, tcp_receive,
}

-- A message with the calls of the operating system that send and receive it.
pub record Exchange (M : Type 0) : Type 0 where
  pub msg : M
  pub buff : Bytes
  pub size_write : Option RawError
  pub writes : List Moved
  pub size_read : Option RawError
  pub reads : List Moved

-- The value of a call that has returned nil.
unfoldable pub result_of : {E A : Type 0} → Outcome E A → Option A
result_of (returned (ok a)) = some a
result_of (returned (err e)) = none
result_of waiting = none

unfoldable pub both : {E A B C : Type 0} → Outcome E A → Option B → (A → B → C) → Option C
unfolding result_of
both out rest f = elim (result_of out) [
  | none ↦ none
  | some a ↦ elim rest [ none ↦ none | some b ↦ some (f a b) ]
]

module _ {E M : Type 0} (marshal : M → Result E Bytes) (unmarshal : Bytes → Result E M) where
  -- No call fails, each of those after the size moves a byte or more and there are enough of them, the
  -- message is shorter than 2 ^ 32 bytes, and the encoder reads back what it writes.
  pub record Works (x : Exchange M) : Type 0 where
    pub encodes : marshal x.msg ≡ ok x.buff
    pub decodes : unmarshal x.buff ≡ ok x.msg
    pub small : length x.buff < 2 ^ 32
    pub size_written : x.size_write ≡ none
    pub size_comes : x.size_read ≡ none
    pub write_moves : All Moves x.writes
    pub read_moves : All Moves x.reads
    pub enough_writes : length x.buff ≤ length x.writes
    pub enough_reads : length x.buff ≤ length x.reads

  -- Sending all messages, one after the other, and reading as many from the wire: `none` if one of
  -- the calls does not return nil.
  unfoldable pub send_all : CounterSafe → List (Exchange M) → Option (CounterSafe × Bytes)
  unfolding both
  send_all c [] = some (c, [])
  send_all c (x ∷ xs) =
      let (c', out) = tcp_send marshal unmarshal c x.msg x.size_write x.writes in
      let rest = send_all c' xs in both out rest (λ bytes r. (r.0, bytes ++ r.1))

  unfoldable pub receive_all :
      CounterSafe → Bytes → List (Exchange M) → Option (CounterSafe × List M × Bytes)
  unfolding result_of
  receive_all c wire [] = some (c, [], wire)
  receive_all c wire (x ∷ xs) =
      let (c', out) = tcp_receive marshal unmarshal c wire x.size_read x.reads in
      elim (result_of out) [
        | none ↦ none
        | some (m, left) ↦ elim (receive_all c' left xs) [
          | none ↦ none
          | some (c'', ms, end) ↦ some (c'', m ∷ ms, end)
        ]
      ]

  -- The bytes of all messages.
  unfoldable pub total_bytes : List (Exchange M) → ℕ
  total_bytes [] = 0
  total_bytes (x ∷ xs) = length x.buff + total_bytes xs

  tcp_send_lem :
      (x : Exchange M) (c : CounterSafe)
      → Works x
      → tcp_send marshal unmarshal c x.msg x.size_write x.writes
        ≡ (update_tx c (length x.buff), returned (ok (put_u32 (length x.buff) ++ x.buff)))
  unfolding tcp_send
  tcp_send_lem x c w =
      let size : length x.buff % 2 ^ 32 ≡ length x.buff = omega (arith, w.small) in
      let sent =
        (receive-send_raw x.buff [] x.writes x.reads w.small w.write_moves w.read_moves
          w.enough_writes w.enough_reads).0 in
      ground (arith, w.encodes, w.size_written, sent, size)

  tcp_receive_lem :
      (x : Exchange M) (c : CounterSafe) (rest : Bytes)
      → Works x
      → tcp_receive marshal unmarshal c
          ((put_u32 (length x.buff) ++ x.buff) ++ rest)
          x.size_read
          x.reads
        ≡ (update_rx c (length x.buff), returned (ok (x.msg, rest)))
  unfolding tcp_receive
  tcp_receive_lem x c rest w =
      let got =
        (receive-send_raw x.buff rest x.writes x.reads w.small w.write_moves w.read_moves
          w.enough_writes w.enough_reads).1 in
      ground (arith, w.decodes, w.size_comes, got)

  send_first :
      (x : Exchange M) (xs : List (Exchange M)) (c e : CounterSafe) (wire : Bytes)
      → Works x
      → send_all (update_tx c (length x.buff)) xs ≡ some (e, wire)
      → send_all c (x ∷ xs) ≡ some (e, (put_u32 (length x.buff) ++ x.buff) ++ wire)
  unfolding send_all both result_of
  send_first x xs c e wire w sent = ground (arith, tcp_send_lem x c w, sent)

  receive_first :
      (x : Exchange M) (xs : List (Exchange M)) (d e : CounterSafe) (wire rest : Bytes)
      (ms : List M)
      → Works x
      → receive_all (update_rx d (length x.buff)) (wire ++ rest) xs ≡ some (e, ms, rest)
      → receive_all d (((put_u32 (length x.buff) ++ x.buff) ++ wire) ++ rest) (x ∷ xs)
        ≡ some (e, x.msg ∷ ms, rest)
  unfolding receive_all result_of
  receive_first x xs d e wire rest ms w got =
      rw (append_assoc (put_u32 (length x.buff) ++ x.buff) wire rest)
        (ground (arith, tcp_receive_lem x d (wire ++ rest) w, got))

  -- If every message takes fewer than 2 ^ 32 bytes, no call of the system fails, each after that for
  -- the size moves a byte or more and there are as many as bytes, and the encoder reads back what it
  -- writes, then all messages that one end sends are read at the other end in their order, with nothing
  -- of the wire left but what came after them. The bytes that the one counts as sent are those that the
  -- other counts as received, modulo 2 ^ 64, for counters of type uint64.
  pub receive_all-send_all :
      (xs : List (Exchange M)) (c d : CounterSafe) (rest : Bytes)
      → All Works xs
      → c.tx < 2 ^ 64
      → d.rx < 2 ^ 64
      → (wire : Bytes) × (send_all c xs
          ≡ some (record c { tx = (c.tx + total_bytes xs) % 2 ^ 64 }, wire))
        × (receive_all d (wire ++ rest) xs
            ≡ some (record d { rx = (d.rx + total_bytes xs) % 2 ^ 64 }, map (λ x. x.msg) xs, rest))
  unfolding send_all receive_all total_bytes update_tx update_rx
  receive_all-send_all [] c d rest w hc hd =
      let tx : c.tx ≡ (c.tx + 0) % 2 ^ 64 = omega arith in
      let rx : d.rx ≡ (d.rx + 0) % 2 ^ 64 = omega arith in
      (
        [],
        ap (λ t. some (record c { tx = t }, [])) tx,
        ap (λ t. some (record d { rx = t }, [], rest)) rx,
      )
  receive_all-send_all (x ∷ xs) c d rest w hc hd =
      let n = length x.buff in
      let t = total_bytes xs in
      let c' = update_tx c n in
      let d' = update_rx d n in
      let (wire, sent, got) = receive_all-send_all xs c' d' rest w.1 (omega arith) (omega arith) in
      let tx : (c'.tx + t) % 2 ^ 64 ≡ (c.tx + (n + t)) % 2 ^ 64 = omega arith in
      let rx : (d'.rx + t) % 2 ^ 64 ≡ (d.rx + (n + t)) % 2 ^ 64 = omega arith in
      (
        (put_u32 n ++ x.buff) ++ wire,
        send_first x xs c _ wire w.0 sent
            ∙ ap (λ k. some (record c { tx = k }, (put_u32 n ++ x.buff) ++ wire)) tx,
        receive_first x xs d _ wire rest _ w.0 got
            ∙ ap (λ k. some (record d { rx = k }, x.msg ∷ map (λ y. y.msg) xs, rest)) rx,
      )
