-- ===== src/Examples/Noise.antt =====
-- client/stream.go: the noise stream over a library that counts its messages.
use mulsigo.Prelude.{
  ℕ, zero, suc, ◌+◌, ◌≡◌, ◌≢◌, refl, true, false, Option, none, some, List, [], ◌∷◌, Bytes, ok, err,
  ◌==◌, ==_refl, ==_ne, if◌then◌else◌, nat_eq, arith,
}
use mulsigo.Client.Stream.{ReliableStream, is_listening, new_reliable_stream}
use mulsigo.Client.Noise.{
  NoiseLibrary, machine_round, NoiseStream, magic_value, Arrival, do_handshake, returned, waiting,
}
use mulsigo.Client.Noise.Handshake.{Agrees, Paired, do_handshake_pairs, do_handshake_ends}
use mulsigo.Client.Noise.Traffic.{
  IsCounting, send_each, receive_each, paired_arrive, lost_message_ends,
}

-- An initiator begins and waits, a responder begins and answers.
data Stage : Type 0 where
  opens awaits listens answers over : Stage

abbrev write_stage : Stage → Bytes → Stage × Bytes × Option (ℕ × ℕ)
write_stage opens p = (awaits, 0 ∷ p, none)
write_stage answers p = (over, 1 ∷ p, some (0, 100))
write_stage awaits p = (awaits, [], none)
write_stage listens p = (listens, [], none)
write_stage over p = (over, [], none)

abbrev read_stage : Stage → Bytes → Stage × Option (Bytes × Option (ℕ × ℕ))
read_stage listens (zero ∷ p) = (answers, some (p, none))
read_stage awaits (suc k ∷ p) = (over, some (p, some (0, 100)))
read_stage h _ = (h, none)

abbrev decrypt : ℕ → Bytes → ℕ × Option Bytes
decrypt n [] = (n, none)
decrypt n (k ∷ m) = if n == k then (n + 1, some m) else (n, none)

abbrev counting : NoiseLibrary
counting = record {
  HandshakeState = Stage;
  CipherState = ℕ;
  new_handshake_state = λ first private public remote. if first then opens else listens;
  write_message = write_stage;
  read_message = read_stage;
  encrypt = λ n m. (n + 1, n ∷ m);
  decrypt = decrypt;
}

abbrev initiator : NoiseStream counting
initiator = record {
  first = true;
  handshake = opens;
  encrypt_state = none;
  decrypt_state = none;
  handshake_done = false;
}

abbrev responder : NoiseStream counting
responder = record {
  first = false;
  handshake = listens;
  encrypt_state = none;
  decrypt_state = none;
  handshake_done = false;
}

abbrev agrees : Agrees counting opens listens
agrees = record {
  hi1 = awaits;
  hi2 = over;
  hr1 = answers;
  hr2 = over;
  opening = 0 ∷ [];
  answer = 1 ∷ magic_value;
  to_responder = 0;
  to_initiator = 100;
  writes = refl;
  reads = refl;
  answers = refl;
  ends = refl;
}

counting-IsCounting : IsCounting counting
counting-IsCounting = record {
  same = λ c m. rw (==_refl c) refl;
  ahead = λ c m m'. rw (==_ne c (c + 1) (λ e. omega (arith, e))) refl;
}

-- An error comes first on the side of the initiator, and a message of another kind on the other.
do_handshake_pairs_example :
    let (a', out_a, oa) =
      do_handshake counting initiator none (err 5 ∷ ok (1 ∷ magic_value) ∷ []) in
    let (b', out_b, ob) =
      do_handshake counting responder none (ok (3 ∷ []) ∷ ok (0 ∷ []) ∷ ok [] ∷ []) in
    (oa ≡ returned (ok tt))
    × (ob ≡ returned (ok tt))
    × (out_a ≡ (0 ∷ []) ∷ [])
    × (out_b ≡ (1 ∷ magic_value) ∷ [])
    × Paired counting a' b'
do_handshake_pairs_example =
    do_handshake_pairs counting initiator responder agrees (err 5 ∷ []) (ok (3 ∷ []) ∷ []) []
      (ok [] ∷ []) refl refl refl refl (tt, tt) (refl, tt) (ground arith) (ground arith)

abbrev many : ℕ → List Arrival
many zero = []
many (suc k) = err k ∷ many k

do_handshake_ends_example : (do_handshake counting responder none (many 100)).2 ≢ waiting
do_handshake_ends_example =
    (do_handshake_ends counting responder none (many 100) refl (omega arith)).0

abbrev ready_a : NoiseStream counting
ready_a = record {
  first = true;
  handshake = over;
  encrypt_state = some 0;
  decrypt_state = some 100;
  handshake_done = true;
}

abbrev ready_b : NoiseStream counting
ready_b = record {
  first = false;
  handshake = over;
  encrypt_state = some 100;
  decrypt_state = some 0;
  handshake_done = true;
}

abbrev ready : Paired counting ready_a ready_b
ready = record {
  a_done = refl;
  b_done = refl;
  cipher_ab = 0;
  cipher_ba = 100;
  a_encrypts = refl;
  b_decrypts = refl;
  b_encrypts = refl;
  a_decrypts = refl;
}

paired_arrive_example :
    (a' : NoiseStream counting) × (b' : NoiseStream counting) × (xs : List Bytes) × (c' : ℕ)
    × (send_each counting ready_a ((5 ∷ []) ∷ (6 ∷ []) ∷ []) ≡ some (a', xs))
    × (receive_each counting ready_b xs ≡ some (b', (5 ∷ []) ∷ (6 ∷ []) ∷ []))
    × (a'.encrypt_state ≡ some c')
    × (b'.decrypt_state ≡ some c')
paired_arrive_example =
    paired_arrive counting ready_a ready_b ((5 ∷ []) ∷ (6 ∷ []) ∷ []) counting-IsCounting ready

lost_message_ends_example :
    (a' : NoiseStream counting) × (x : Bytes) × (y : Bytes) × (b' : NoiseStream counting)
    × (r' : ReliableStream) × (send_each counting ready_a ((5 ∷ []) ∷ (6 ∷ []) ∷ [])
        ≡ some (a', x ∷ y ∷ []))
    × (machine_round counting (λ b. none) ready_b new_reliable_stream (ok y) none
        ≡ some (b', r', []))
    × (r'.ended ≡ true)
    × (is_listening r' ≡ false)
    × (r'.global_err ≢ none)
lost_message_ends_example =
    lost_message_ends counting ready_a ready_b new_reliable_stream (λ b. none) (5 ∷ []) (6 ∷ [])
      none counting-IsCounting ready
