-- ===== src/Network/Frame/RoundTrip.antt =====
-- network/tcp.go: a message arrives as it was sent, however the writes and reads cut it up.
use Prim.Native.Nat.{min}
use mulsigo.Prelude.{
  none, drop_past, drop-drop, ℕ, zero, suc, ◌+◌, ◌-◌, ◌%◌, ◌^◌, ◌≤◌, ◌<◌, ◌≡◌, refl, sym, ◌∙◌, true,
  some, List, [], ◌∷◌, ◌++◌, Bytes, length, take, drop, length-drop, take-append-drop,
  length-append, append-nil, append_assoc, ok, ltb, nat_eq, arith, All, ap,
}
use mulsigo.Network.Frame.{
  put_u32, get_u32, Moved, moved, failed, returned, send_loop, send_raw, receive_loop, receive_raw,
}

-- A call that does not fail and moves at least one byte.
abbrev pub Moves : Moved → Type 0
Moves (moved k) = 1 ≤ k
Moves (failed e) = ⊥

pub get-put_u32 : (n : ℕ) (rest : Bytes) → n < 2 ^ 32 → get_u32 (put_u32 n ++ rest) ≡ some (n, rest)
unfolding get_u32 put_u32
get-put_u32 n rest h = ground arith

take-append_left : (n : ℕ) (xs ys : Bytes) → n ≤ length xs → take n (xs ++ ys) ≡ take n xs
take-append_left zero xs ys h = refl
take-append_left (suc n) [] ys h = absurd (omega arith)
take-append_left (suc n) (x ∷ xs) ys h = ap (◌∷◌ x) (take-append_left n xs ys (omega arith))

drop-append_left : (n : ℕ) (xs ys : Bytes) → n ≤ length xs → drop n (xs ++ ys) ≡ drop n xs ++ ys
drop-append_left zero xs ys h = refl
drop-append_left (suc n) [] ys h = absurd (omega arith)
drop-append_left (suc n) (x ∷ xs) ys h = drop-append_left n xs ys (omega arith)

-- What is written next and what is left make up what was left.
next_write :
    (b out : Bytes) (sent n : ℕ)
    → (out ++ take n (drop sent b)) ++ drop (sent + n) b ≡ out ++ drop sent b
next_write b out sent n =
    append_assoc out (take n (drop sent b)) (drop (sent + n) b)
    ∙ ap (◌++◌ out) (
        ap (◌++◌ (take n (drop sent b))) (sym (drop-drop sent n b))
        ∙ take-append-drop n (drop sent b))

send_loop_ends :
    (b : Bytes) (sent : ℕ) (out : Bytes) (ws : List Moved)
    → sent ≤ length b
    → All Moves ws
    → length b ≤ sent + length ws
    → send_loop b (length b) sent out ws ≡ returned (ok (out ++ drop sent b))
unfolding send_loop
send_loop_ends b sent out [] h m enough = ground (arith, drop_past sent b, append-nil out)
send_loop_ends b sent out (failed e ∷ ws) h m enough = absurd m.0
send_loop_ends b sent out (moved k ∷ ws) h m enough =
    let n = min k (length b - sent) in
    ground (
      arith,
      drop_past sent b,
      append-nil out,
      send_loop_ends b (sent + n) (out ++ take n (drop sent b)) ws,
      next_write b out sent n,
    )

receive_loop_ends :
    (total read : ℕ) (buffer m rest : Bytes) (rs : List Moved)
    → read + length m ≡ total
    → All Moves rs
    → length m ≤ length rs
    → receive_loop total read buffer (m ++ rest) rs ≡ returned (ok (buffer ++ m, rest))
unfolding receive_loop
receive_loop_ends total read buffer [] rest [] h a enough = ground (arith, append-nil buffer)
receive_loop_ends total read buffer (x ∷ m) rest [] h a enough = absurd (omega arith)
receive_loop_ends total read buffer m rest (failed e ∷ rs) h a enough = absurd a.0
receive_loop_ends total read buffer [] rest (moved k ∷ rs) h a enough =
    ground (arith, append-nil buffer)
receive_loop_ends total read buffer (x ∷ xs) rest (moved k ∷ rs) h a enough =
    let m = x ∷ xs in
    let n = min k (min (total - read) (length (m ++ rest))) in
    let long = length-append m rest in
    let room : n ≤ length m = omega (arith, h, long) in
    let some_moved : 1 ≤ n = omega (arith, h, long, a.0) in
    let more : ltb read total ≡ true = ground (arith, h) in
    rw (more, take-append_left n m rest room, drop-append_left n m rest room)
      (receive_loop_ends total (read + n) (buffer ++ take n m) (drop n m) rest rs
          (omega (arith, length-drop n m)) a.1 (omega (arith, length-drop n m))
        ∙ ap (λ (q : Bytes). returned (ok (q, rest)))
            (append_assoc buffer (take n m) (drop n m) ∙ ap (◌++◌ buffer) (take-append-drop n m)))

-- The bytes of a message that `sendRaw` puts on the wire are its size and the message, and
-- `receiveRaw` at the other end gives the message back and leaves what follows it on the wire: for
-- every message shorter than 2 ^ 32 bytes, and however the writes and the reads cut it up, as long
-- as no call fails and each of these moves a byte. Neither loop then needs more calls than there are bytes.
pub receive-send_raw :
    (b rest : Bytes) (ws rs : List Moved)
    → length b < 2 ^ 32
    → All Moves ws
    → All Moves rs
    → length b ≤ length ws
    → length b ≤ length rs
    → (send_raw b none ws ≡ returned (ok (put_u32 (length b) ++ b)))
      × (receive_raw ((put_u32 (length b) ++ b) ++ rest) none rs ≡ returned (ok (b, rest)))
unfolding send_raw receive_raw
receive-send_raw b rest ws rs small mw mr ew er =
    let size : length b % 2 ^ 32 ≡ length b = omega arith in
    (
      rw size (send_loop_ends b 0 (put_u32 (length b)) ws (omega arith) mw (omega arith)),
      rw
          (
            append_assoc (put_u32 (length b)) b rest,
            get-put_u32 (length b) (b ++ rest) small,
            receive_raw,
          )
          (receive_loop_ends (length b) 0 [] b rest rs (omega arith) mr er),
    )
