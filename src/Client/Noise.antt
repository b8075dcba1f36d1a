-- ===== src/Client/Noise.antt =====
-- client/stream.go: the noise stream, its handshake over a channel of the relay, and the factory that
-- puts a reliable stream over it. The noise library is a parameter.
pub mod Handshake
pub mod Traffic
use mulsigo.Prelude.{
  ℕ, ◌+◌, Bool, true, false, not, Option, none, some, List, [], ◌∷◌, Bytes, Result, ok, err, ltb,
  if◌then◌else◌,
}
use mulsigo.Client.Stream.{
  max_incorrect_messages, ReliableStream, ReliablePacket, Received, broken, packet,
  new_reliable_stream, machine_receive,
}
use mulsigo.Client.Stream

-- The types of github.com/flynn/noise that the code uses, and its calls of them. The two cipher
-- states stand at the end of a handshake; before, they are nil. A failing read gives an error.
pub record NoiseLibrary : Type 1 where
  pub HandshakeState : Type 0
  pub CipherState : Type 0
  pub new_handshake_state : Bool → Bytes → Bytes → Bytes → HandshakeState
  pub write_message :
      HandshakeState → Bytes → HandshakeState × Bytes × Option (CipherState × CipherState)
  pub read_message :
      HandshakeState → Bytes → HandshakeState × Option (Bytes × Option (CipherState × CipherState))
  pub encrypt : CipherState → Bytes → CipherState × Bytes
  pub decrypt : CipherState → Bytes → CipherState × Option Bytes

pub data Error : Type 0 where
  handshake_done no_handshake cannot_validate decrypt_failed : Error
  channel_error : ℕ → Error

abbrev pub magic_value : Bytes
magic_value = 0x19 ∷ 0x84 ∷ []

-- What a call of `Receive` on the channel gives.
abbrev pub Arrival : Type 0
Arrival = Result ℕ Bytes

-- A handshake has returned, or waits for one more message.
pub data Outcome {ℓ} (A : Type ℓ) : Type ℓ where
  returned : Result Error A → Outcome A
  waiting : Outcome A

module _ (lib : NoiseLibrary) where
  open lib use {
    HandshakeState, CipherState, new_handshake_state, write_message, read_message, encrypt, decrypt,
  }

  abbrev pub Ciphers : Type 0
  Ciphers = Option (CipherState × CipherState)

  pub record NoiseStream : Type 0 where
    pub first : Bool
    pub handshake : HandshakeState
    pub encrypt_state : Option CipherState
    pub decrypt_state : Option CipherState
    pub handshake_done : Bool

  -- `first` is the second result of `channelID`; the keys are converted to Curve25519 already.
  unfoldable pub new_noise_stream : Bool → Bytes → Bytes → Bytes → NoiseStream
  new_noise_stream first private public remote = record {
    first = first;
    handshake = new_handshake_state first private public remote;
    encrypt_state = none;
    decrypt_state = none;
    handshake_done = false;
  }

  -- The loop of `receiveHandshake` from `i` on, over what the calls of `Receive` give.
  unfoldable pub receive_handshake :
      HandshakeState → ℕ → List Arrival → HandshakeState × Outcome Ciphers
  receive_handshake h i [] =
      if ltb i max_incorrect_messages then (h, waiting) else (h, returned (err cannot_validate))
  receive_handshake h i (err e ∷ rs) =
      let rest = receive_handshake h (i + 1) rs in
      if ltb i max_incorrect_messages then rest else (h, returned (err cannot_validate))
  receive_handshake h i (ok buff ∷ rs) =
      let (h', read) = read_message h buff in
      let rest = receive_handshake h' (i + 1) rs in
      if ltb i max_incorrect_messages
      then elim read [ none ↦ rest | some (m, cs) ↦ (h', returned (ok cs)) ]
      else (h, returned (err cannot_validate))

  -- The cipher states that a handshake ends with, nil or not.
  unfoldable pub set_ciphers :
      NoiseStream → HandshakeState → Option CipherState → Option CipherState → NoiseStream
  set_ciphers n h enc dec = record n { handshake = h; encrypt_state = enc; decrypt_state = dec }

  unfoldable pub first_cipher : Ciphers → Option CipherState
  first_cipher none = none
  first_cipher (some (c, d)) = some c

  unfoldable pub second_cipher : Ciphers → Option CipherState
  second_cipher none = none
  second_cipher (some (c, d)) = some d

  -- How far a handshake has come, and the messages that it handed to the channel.
  abbrev pub Progress : Type 0
  Progress = NoiseStream × List Bytes × Outcome (Unit {0})

  -- `sent` is the error of `channel.Send`.
  unfoldable pub do_handshake_client : NoiseStream → Option ℕ → List Arrival → Progress
  unfolding receive_handshake set_ciphers first_cipher second_cipher
  do_handshake_client n sent rs =
      let (h, msg, c) = write_message n.handshake [] in
      let n1 = record n { handshake = h } in
      elim sent [
        | some e ↦ (n1, msg ∷ [], returned (err (channel_error e)))
        | none ↦
            let (h', out) = receive_handshake h 0 rs in
            let n2 = record n { handshake = h' } in
            elim out [
              | waiting ↦ (n2, msg ∷ [], waiting)
              | returned (err e) ↦ (n2, msg ∷ [], returned (err e))
              | returned (ok cs) ↦ (
                set_ciphers n h' (first_cipher cs) (second_cipher cs),
                msg ∷ [],
                returned (ok tt),
              )
            ]
      ]

  -- The second half of the server's side: its one message.
  unfoldable pub answer_handshake : NoiseStream → HandshakeState → Option ℕ → Progress
  unfolding set_ciphers first_cipher second_cipher
  answer_handshake n h sent =
      let (h', res, cs) = write_message h magic_value in
      elim sent [
        | some e ↦ (record n { handshake = h' }, res ∷ [], returned (err (channel_error e)))
        | none ↦ (set_ciphers n h' (second_cipher cs) (first_cipher cs), res ∷ [], returned (ok tt))
      ]

  unfoldable pub do_handshake_server : NoiseStream → Option ℕ → List Arrival → Progress
  unfolding receive_handshake answer_handshake
  do_handshake_server n sent rs =
      let (h, out) = receive_handshake n.handshake 0 rs in
      elim out [
        | waiting ↦ (record n { handshake = h }, [], waiting)
        | returned (err e) ↦ (record n { handshake = h }, [], returned (err e))
        | returned (ok cs) ↦ answer_handshake n h sent
      ]

  unfoldable pub end_handshake : Progress → Progress
  end_handshake (n, out, returned (ok u)) =
      (record n { handshake_done = true }, out, returned (ok u))
  end_handshake (n, out, returned (err e)) = (n, out, returned (err e))
  end_handshake (n, out, waiting) = (n, out, waiting)

  unfoldable pub do_handshake : NoiseStream → Option ℕ → List Arrival → Progress
  unfolding do_handshake_client do_handshake_server end_handshake
  do_handshake n sent rs =
      if n.handshake_done
      then (n, [], returned (err handshake_done))
      else if n.first
      then end_handshake (do_handshake_client n sent rs)
      else end_handshake (do_handshake_server n sent rs)

  -- `send`, up to the channel: the cipher text. `none` is the panic on a nil cipher state.
  unfoldable pub send : NoiseStream → Bytes → Option (NoiseStream × Result Error Bytes)
  send n msg = if not n.handshake_done then some (n, err no_handshake) else elim n.encrypt_state [
    | none ↦ none
    | some c ↦
        let (c', cipher) = encrypt c msg in some (record n { encrypt_state = some c' }, ok cipher)
  ]

  unfoldable pub receive : NoiseStream → Arrival → Option (NoiseStream × Result Error Bytes)
  receive n (err e) = some (n, err (channel_error e))
  receive n (ok buff) = elim n.decrypt_state [
    | none ↦ none
    | some c ↦
        let (c', plain) = decrypt c buff in
        let n' = record n { decrypt_state = some c' } in
        some (n', elim plain [ none ↦ err decrypt_failed | some m ↦ ok m ])
  ]

  -- `newStream` after `channelID`: `opened` is the error of `multiplexer.Channel`, and the result
  -- the stream, if it is there, and the outcome.
  unfoldable pub new_stream :
      NoiseStream → Option ℕ → Option ℕ → List Arrival → Progress × Option ReliableStream
  unfolding do_handshake
  new_stream n (some e) sent rs = ((n, [], returned (err (channel_error e))), none)
  new_stream n none sent rs =
      let (n', out, o) = do_handshake n sent rs in
      (
        (n', out, o),
        elim o [
          | waiting ↦ none
          | returned (err e) ↦ none
          | returned (ok u) ↦ some new_reliable_stream
        ],
      )

  -- One round of the reliable stream's goroutine over this stream: a message of the channel is
  -- decrypted and decoded, by the protobuf library. The packets to send are in the result, for `send`;
  -- `sent` is the error of sending the ACK.
  unfoldable pub machine_round :
      (Bytes → Option ReliablePacket)
      → NoiseStream
      → ReliableStream
      → Arrival
      → Option ℕ
      → Option (NoiseStream × ReliableStream × List ReliablePacket)
  machine_round decode n r a sent = elim (receive n a) [
    | none ↦ none
    | some (n', err e) ↦
        let (r', out) = machine_receive r (broken (Stream.below 0)) none in some (n', r', out)
    | some (n', ok bytes) ↦ elim (decode bytes) [
      | none ↦
          let (r', out) = machine_receive r (broken (Stream.below 1)) none in some (n', r', out)
      | some p ↦ elim sent [
        | none ↦ let (r', out) = machine_receive r (packet p) none in some (n', r', out)
        | some e ↦
            let (r', out) = machine_receive r (packet p) (some (Stream.below e)) in
            some (n', r', out)
      ]
    ]
  ]
