-- ===== src/Client/Noise/Traffic.antt =====
-- client/stream.go: what passes between two paired streams, and what a lost message does.
use mulsigo.Prelude.{
  ℕ, ◌≡◌, ◌≢◌, refl, true, false, Option, none, some, List, [], ◌∷◌, Bytes, ok, err, arith, list_eq,
  nat_eq,
}
use mulsigo.Client.Stream.{
  Error, below, ReliableStream, ReliablePacket, broken, machine_receive, set_error, is_listening,
}
use mulsigo.Client.Noise.{NoiseLibrary, NoiseStream, send, receive, machine_round}
use mulsigo.Client.Noise.Handshake.{Paired}

broken_ends :
    (r : ReliableStream) (e : Error)
    → let r' = (machine_receive r (broken e) none).0 in
      (r'.ended ≡ true) × (is_listening r' ≡ false) × (r'.global_err ≢ none)
unfolding machine_receive set_error is_listening
broken_ends r e = (ground arith, ground arith, ground arith)

module _ (lib : NoiseLibrary) where
  open lib use {CipherState, write_message, encrypt, decrypt}

  -- The cipher states of the library count the messages: the state that encrypted a message decrypts
  -- it and both go on alike, and a state does not decrypt the message after the next one.
  pub record IsCounting : Type 0 where
    pub same : (c : CipherState) (m : Bytes) → decrypt c (encrypt c m).1 ≡ ((encrypt c m).0, some m)
    pub ahead :
        (c : CipherState) (m m' : Bytes) → (decrypt c (encrypt (encrypt c m).0 m').1).1 ≡ none

  -- Sending and receiving a list of messages, one after the other.
  unfoldable pub send_each : NoiseStream lib → List Bytes → Option (NoiseStream lib × List Bytes)
  send_each n [] = some (n, [])
  send_each n (m ∷ ms) = elim (send lib n m) [
    | none ↦ none
    | some (n', err e) ↦ none
    | some (n', ok x) ↦ elim (send_each n' ms) [ none ↦ none | some (n'', xs) ↦ some (n'', x ∷ xs) ]
  ]

  unfoldable pub receive_each : NoiseStream lib → List Bytes → Option (NoiseStream lib × List Bytes)
  receive_each n [] = some (n, [])
  receive_each n (x ∷ xs) = elim (receive lib n (ok x)) [
    | none ↦ none
    | some (n', err e) ↦ none
    | some (n', ok m) ↦ elim (receive_each n' xs) [
      | none ↦ none
      | some (n'', ms) ↦ some (n'', m ∷ ms)
    ]
  ]

  send_lem :
      (a : NoiseStream lib) (c : CipherState) (m : Bytes)
      → a.handshake_done ≡ true
      → a.encrypt_state ≡ some c
      → send lib a m ≡ some (record a { encrypt_state = some (encrypt c m).0 }, ok (encrypt c m).1)
  unfolding send
  send_lem a c m d e = ground arith

  receive_lem :
      (law : IsCounting) (b : NoiseStream lib) (c : CipherState) (m : Bytes)
      → b.decrypt_state ≡ some c
      → receive lib b (ok (encrypt c m).1)
        ≡ some (record b { decrypt_state = some (encrypt c m).0 }, ok m)
  unfolding receive
  receive_lem law b c m e = ground (arith, law.same c m)

  arrive_from :
      (law : IsCounting) (a b : NoiseStream lib) (c : CipherState) (ms : List Bytes)
      → a.handshake_done ≡ true
      → a.encrypt_state ≡ some c
      → b.decrypt_state ≡ some c
      → (a' : NoiseStream lib) × (b' : NoiseStream lib) × (xs : List Bytes) × (c' : CipherState)
        × (send_each a ms ≡ some (a', xs))
        × (receive_each b xs ≡ some (b', ms))
        × (a'.encrypt_state ≡ some c')
        × (b'.decrypt_state ≡ some c')
  unfolding send_each receive_each
  arrive_from law a b c [] d e f = (a, b, [], c, refl, refl, e, f)
  arrive_from law a b c (m ∷ ms) d e f =
      let a1 = record a { encrypt_state = some (encrypt c m).0 } in
      let b1 = record b { decrypt_state = some (encrypt c m).0 } in
      let (a', b', xs, c', sent, got, ea, eb) =
        arrive_from law a1 b1 (encrypt c m).0 ms d refl refl in
      (
        a',
        b',
        (encrypt c m).1 ∷ xs,
        c',
        ground (arith, send_lem a c m, sent),
        ground (arith, receive_lem law b c m f, got),
        ea,
        eb,
      )

  -- Over a channel that delivers in order and loses nothing, what one of two paired streams sends is
  -- what the other receives, and the next message will be, too.
  pub paired_arrive :
      (a b : NoiseStream lib) (ms : List Bytes)
      → IsCounting
      → Paired lib a b
      → (a' : NoiseStream lib) × (b' : NoiseStream lib) × (xs : List Bytes) × (c' : CipherState)
        × (send_each a ms ≡ some (a', xs))
        × (receive_each b xs ≡ some (b', ms))
        × (a'.encrypt_state ≡ some c')
        × (b'.decrypt_state ≡ some c')
  paired_arrive a b ms law p = arrive_from law a b p.cipher_ab ms p.a_done p.a_encrypts p.b_decrypts

  machine_round_fails :
      (b : NoiseStream lib) (r : ReliableStream) (decode : Bytes → Option ReliablePacket)
      (c : CipherState) (y : Bytes) (sent : Option ℕ)
      → b.decrypt_state ≡ some c
      → (decrypt c y).1 ≡ none
      → machine_round lib decode b r (ok y) sent
        ≡ some (
          record b { decrypt_state = some (decrypt c y).0 },
          (machine_receive r (broken (below 0)) none).0,
          [],
        )
  unfolding machine_round receive machine_receive
  machine_round_fails b r decode c y sent e f = ground arith

  -- A goroutine over a stream that has lost one message ends at the next one.
  pub lost_message_ends :
      (a b : NoiseStream lib) (r : ReliableStream) (decode : Bytes → Option ReliablePacket)
      (lost next : Bytes) (sent : Option ℕ)
      → IsCounting
      → Paired lib a b
      → (a' : NoiseStream lib) × (x : Bytes) × (y : Bytes) × (b' : NoiseStream lib)
        × (r' : ReliableStream) × (send_each a (lost ∷ next ∷ []) ≡ some (a', x ∷ y ∷ []))
        × (machine_round lib decode b r (ok y) sent ≡ some (b', r', []))
        × (r'.ended ≡ true)
        × (is_listening r' ≡ false)
        × (r'.global_err ≢ none)
  lost_message_ends a b r decode lost next sent law p =
      let c = p.cipher_ab in
      let c1 = (encrypt c lost).0 in
      let y = (encrypt c1 next).1 in
      let a1 = record a { encrypt_state = some c1 } in
      let (ends, deaf, error) = broken_ends r (below 0) in
      (
        record a { encrypt_state = some (encrypt c1 next).0 },
        (encrypt c lost).1,
        y,
        record b { decrypt_state = some (decrypt c y).0 },
        (machine_receive r (broken (below 0)) none).0,
        unfold send_each in
            ground
              (arith, send_lem a c lost p.a_done p.a_encrypts, send_lem a1 c1 next p.a_done refl),
        machine_round_fails b r decode c y sent p.b_decrypts (law.ahead c lost next),
        ends,
        deaf,
        error,
      )
