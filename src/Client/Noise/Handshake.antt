-- ===== src/Client/Noise/Handshake.antt =====
-- client/stream.go: the two sides of the handshake, and the end of its loop.
use mulsigo.Prelude.{
  ℕ, ◌+◌, ◌≤◌, ◌<◌, ◌≡◌, ◌≢◌, ◌↔◌, refl, true, false, Option, none, some, List, [], ◌∷◌, ◌++◌,
  Bytes, length, All, ok, err, arith,
}
use mulsigo.Client.Stream.{max_incorrect_messages}
use mulsigo.Client.Noise.{
  NoiseLibrary, magic_value, Arrival, returned, waiting, Ciphers, NoiseStream, receive_handshake,
  set_ciphers, first_cipher, second_cipher, do_handshake_client, answer_handshake,
  do_handshake_server, end_handshake, do_handshake,
}

module _ (lib : NoiseLibrary) where
  open lib use {HandshakeState, CipherState, write_message, read_message}

  -- What the library does between an initiator and a responder that hold each other's keys: the
  -- messages of the pattern KK are accepted, and both end with the same two cipher states.
  pub record Agrees (hi hr : HandshakeState) : Type 0 where
    pub hi1 : HandshakeState
    pub hi2 : HandshakeState
    pub hr1 : HandshakeState
    pub hr2 : HandshakeState
    pub opening : Bytes
    pub answer : Bytes
    pub to_responder : CipherState
    pub to_initiator : CipherState
    pub writes : write_message hi [] ≡ (hi1, opening, none)
    pub reads : read_message hr opening ≡ (hr1, some ([], none))
    pub answers : write_message hr1 magic_value ≡ (hr2, answer, some (to_responder, to_initiator))
    pub ends :
        read_message hi1 answer ≡ (hi2, some (magic_value, some (to_responder, to_initiator)))

  -- An arrival that a state passes over: an error, or a message that it refuses and forgets.
  abbrev pub Skipped : HandshakeState → Arrival → Type 0
  Skipped h (err e) = Unit {0}
  Skipped h (ok buff) = read_message h buff ≡ (h, none)

  receive_handshake_skips :
      (h h' : HandshakeState) (i : ℕ) (rs rest : List Arrival) (m p : Bytes) (cs : Ciphers lib)
      → All (Skipped h) rs
      → i + length rs < max_incorrect_messages
      → read_message h m ≡ (h', some (p, cs))
      → receive_handshake lib h i (rs ++ ok m ∷ rest) ≡ (h', returned (ok cs))
  unfolding receive_handshake
  receive_handshake_skips h h' i [] rest m p cs s few good = ground arith
  receive_handshake_skips h h' i (err e ∷ rs) rest m p cs s few good =
      ground (arith, receive_handshake_skips h h' (i + 1) rs rest m p cs s.1)
  receive_handshake_skips h h' i (ok b ∷ rs) rest m p cs s few good =
      ground (arith, receive_handshake_skips h h' (i + 1) rs rest m p cs s.1)

  receive_handshake_ends :
      (h : HandshakeState) (i : ℕ) (rs : List Arrival)
      → max_incorrect_messages ≤ i + length rs
      → (receive_handshake lib h i rs).1 ≢ waiting
  unfolding receive_handshake
  receive_handshake_ends h i [] few = ground arith
  receive_handshake_ends h i (err e ∷ rs) few = ground (arith, receive_handshake_ends h (i + 1) rs)
  receive_handshake_ends h i (ok b ∷ rs) few =
      ground (arith, receive_handshake_ends (read_message h b).0 (i + 1) rs)

  -- Both streams are ready, and each decrypts with the state that the other encrypts with.
  pub record Paired (a b : NoiseStream lib) : Type 0 where
    pub a_done : a.handshake_done ≡ true
    pub b_done : b.handshake_done ≡ true
    pub cipher_ab : CipherState
    pub cipher_ba : CipherState
    pub a_encrypts : a.encrypt_state ≡ some cipher_ab
    pub b_decrypts : b.decrypt_state ≡ some cipher_ab
    pub b_encrypts : b.encrypt_state ≡ some cipher_ba
    pub a_decrypts : a.decrypt_state ≡ some cipher_ba

  client_lem :
      (a : NoiseStream lib) (hr : HandshakeState) (k : Agrees a.handshake hr)
      (rs rest : List Arrival)
      → All (Skipped k.hi1) rs
      → length rs < max_incorrect_messages
      → do_handshake_client lib a none (rs ++ ok k.answer ∷ rest) ≡ (
        set_ciphers lib a k.hi2 (some k.to_responder) (some k.to_initiator),
        k.opening ∷ [],
        returned (ok tt),
      )
  unfolding do_handshake_client set_ciphers first_cipher second_cipher
  client_lem a hr k rs rest s few = ground (
    arith,
    k.writes,
    receive_handshake_skips k.hi1 k.hi2 0 rs rest k.answer magic_value
        (some (k.to_responder, k.to_initiator)) s (omega arith) k.ends,
  )

  server_lem :
      (b : NoiseStream lib) (hi : HandshakeState) (k : Agrees hi b.handshake)
      (rs rest : List Arrival)
      → All (Skipped b.handshake) rs
      → length rs < max_incorrect_messages
      → do_handshake_server lib b none (rs ++ ok k.opening ∷ rest) ≡ (
        set_ciphers lib b k.hr2 (some k.to_initiator) (some k.to_responder),
        k.answer ∷ [],
        returned (ok tt),
      )
  unfolding do_handshake_server answer_handshake set_ciphers first_cipher second_cipher
  server_lem b hi k rs rest s few = ground (
    arith,
    k.answers,
    receive_handshake_skips b.handshake k.hr1 0 rs rest k.opening [] none s (omega arith) k.reads,
  )

  initiator_lem :
      (a : NoiseStream lib) (hr : HandshakeState) (k : Agrees a.handshake hr)
      (rs rest : List Arrival)
      → a.first ≡ true
      → a.handshake_done ≡ false
      → All (Skipped k.hi1) rs
      → length rs < max_incorrect_messages
      → do_handshake lib a none (rs ++ ok k.answer ∷ rest) ≡ (
        record (set_ciphers lib a k.hi2 (some k.to_responder) (some k.to_initiator)) {
          handshake_done = true;
        },
        k.opening ∷ [],
        returned (ok tt),
      )
  unfolding do_handshake end_handshake
  initiator_lem a hr k rs rest f d s few = ground (arith, client_lem a hr k rs rest s few)

  responder_lem :
      (b : NoiseStream lib) (hi : HandshakeState) (k : Agrees hi b.handshake)
      (rs rest : List Arrival)
      → b.first ≡ false
      → b.handshake_done ≡ false
      → All (Skipped b.handshake) rs
      → length rs < max_incorrect_messages
      → do_handshake lib b none (rs ++ ok k.opening ∷ rest) ≡ (
        record (set_ciphers lib b k.hr2 (some k.to_initiator) (some k.to_responder)) {
          handshake_done = true;
        },
        k.answer ∷ [],
        returned (ok tt),
      )
  unfolding do_handshake end_handshake
  responder_lem b hi k rs rest f d s few = ground (arith, server_lem b hi k rs rest s few)

  -- If each side's message reaches the other, after fewer than 100 arrivals that are errors or that
  -- the library refuses, both handshakes return nil, each has sent one message, and the two streams
  -- are paired.
  pub do_handshake_pairs :
      (a b : NoiseStream lib) (k : Agrees a.handshake b.handshake)
      (ra rb resta restb : List Arrival)
      → a.first ≡ true
      → b.first ≡ false
      → a.handshake_done ≡ false
      → b.handshake_done ≡ false
      → All (Skipped k.hi1) ra
      → All (Skipped b.handshake) rb
      → length ra < max_incorrect_messages
      → length rb < max_incorrect_messages
      → let (a', out_a, oa) = do_handshake lib a none (ra ++ ok k.answer ∷ resta) in
        let (b', out_b, ob) = do_handshake lib b none (rb ++ ok k.opening ∷ restb) in
        (oa ≡ returned (ok tt))
        × (ob ≡ returned (ok tt))
        × (out_a ≡ k.opening ∷ [])
        × (out_b ≡ k.answer ∷ [])
        × Paired a' b'
  unfolding set_ciphers
  do_handshake_pairs a b k ra rb resta restb fa fb da db sa sb la lb =
      let ea = initiator_lem a b.handshake k ra resta fa da sa la in
      let eb = responder_lem b a.handshake k rb restb fb db sb lb in
      rw (ea, eb)
        (
          refl,
          refl,
          refl,
          refl,
          record {
            a_done = refl;
            b_done = refl;
            cipher_ab = k.to_responder;
            cipher_ba = k.to_initiator;
            a_encrypts = refl;
            b_decrypts = refl;
            b_encrypts = refl;
            a_decrypts = refl;
          },
        )

  -- A handshake whose 100 calls of `Receive` have returned has returned itself; it is marked done
  -- exactly if it returned nil.
  pub do_handshake_ends :
      (n : NoiseStream lib) (sent : Option ℕ) (rs : List Arrival)
      → n.handshake_done ≡ false
      → max_incorrect_messages ≤ length rs
      → let (n', out, o) = do_handshake lib n sent rs in
        (o ≢ waiting) × ((n'.handshake_done ≡ true) ↔ (o ≡ returned (ok tt)))
  unfolding do_handshake end_handshake do_handshake_client do_handshake_server answer_handshake
      set_ciphers
  do_handshake_ends n sent rs d h =
      let h1 = (write_message n.handshake []).0 in
      ground (arith, receive_handshake_ends h1 0 rs, receive_handshake_ends n.handshake 0 rs)
