-- ===== src/Network/Frame.antt =====
-- network/tcp.go: a TCP connection, which sends each message as its size and its bytes. What the
-- operating system does on each call is an argument.
pub mod RoundTrip
use Prim.Native.Nat.{min}
use mulsigo.Prelude.{
  ℕ, zero, suc, ◌+◌, ◌-◌, ◌*◌, ◌/◌, ◌%◌, ◌^◌, Bool, true, false, ◌||◌, Option, none, some, List, [],
  ◌∷◌, ◌++◌, Bytes, length, take, drop, Result, ok, err, ltb, ◌==◌, if◌then◌else◌, nat_eq,
}

-- The errors of network/network.go.
pub data NetError : Type 0 where
  closed eof canceled timeout unknown : NetError

-- strings.Contains.
unfoldable pub has_prefix : Bytes → Bytes → Bool
has_prefix [] s = true
has_prefix (p ∷ ps) [] = false
has_prefix (p ∷ ps) (c ∷ s) = if p == c then has_prefix ps s else false

unfoldable pub contains_text : Bytes → Bytes → Bool
contains_text p [] = has_prefix p []
contains_text p (c ∷ s) = has_prefix p (c ∷ s) || contains_text p s

-- The error of a network call: its text, whether it is `io.EOF`, and, if it is a `net.Error`,
-- whether it is a timeout.
pub record RawError : Type 0 where
  pub text : Bytes
  pub is_eof : Bool
  pub net_timeout : Option Bool

-- "use of closed", "broken pipe", "canceled", "EOF"
abbrev pub use_of_closed : Bytes
use_of_closed =
    b'u' ∷ b's' ∷ b'e' ∷ b' ' ∷ b'o' ∷ b'f' ∷ b' ' ∷ b'c' ∷ b'l' ∷ b'o' ∷ b's' ∷ b'e' ∷ b'd' ∷ []

abbrev pub broken_pipe : Bytes
broken_pipe = b'b' ∷ b'r' ∷ b'o' ∷ b'k' ∷ b'e' ∷ b'n' ∷ b' ' ∷ b'p' ∷ b'i' ∷ b'p' ∷ b'e' ∷ []

abbrev pub canceled_text : Bytes
canceled_text = b'c' ∷ b'a' ∷ b'n' ∷ b'c' ∷ b'e' ∷ b'l' ∷ b'e' ∷ b'd' ∷ []

abbrev pub eof_text : Bytes
eof_text = b'E' ∷ b'O' ∷ b'F' ∷ []

unfoldable pub handle_error : RawError → NetError
handle_error e =
    if contains_text use_of_closed e.text || contains_text broken_pipe e.text
    then closed
    else if contains_text canceled_text e.text
    then canceled
    else if e.is_eof || contains_text eof_text e.text
    then eof
    else elim e.net_timeout [ none ↦ unknown | some t ↦ if t then timeout else unknown ]

-- encoding/binary: a uint32, the most significant byte first.
unfoldable pub put_u32 : ℕ → Bytes
put_u32 n = n / 2 ^ 24 % 256 ∷ n / 2 ^ 16 % 256 ∷ n / 2 ^ 8 % 256 ∷ n % 256 ∷ []

unfoldable pub get_u32 : Bytes → Option (ℕ × Bytes)
get_u32 (a ∷ b ∷ c ∷ d ∷ rest) = some (a * 2 ^ 24 + b * 2 ^ 16 + c * 2 ^ 8 + d, rest)
get_u32 _ = none

-- One call of `Write` or `Read`: how many bytes it would move, or its error.
pub data Moved : Type 0 where
  moved : ℕ → Moved
  failed : RawError → Moved

-- What `sendRaw` and `receiveRaw` return: an error of the system as it is, or one of the package.
pub data CallError : Type 0 where
  raw : RawError → CallError
  net : NetError → CallError

-- A call has returned, or waits for one more call of the system.
pub data Outcome {ℓ} (A : Type ℓ) : Type ℓ where
  returned : Result CallError A → Outcome A
  waiting : Outcome A

-- The loop of `sendRaw`: `out` is on the wire already.
unfoldable pub send_loop : Bytes → ℕ → ℕ → Bytes → List Moved → Outcome Bytes
unfolding handle_error
send_loop b size sent out [] = if ltb sent size then waiting else returned (ok out)
send_loop b size sent out (failed e ∷ ws) =
    if ltb sent size then returned (err (net (handle_error e))) else returned (ok out)
send_loop b size sent out (moved k ∷ ws) =
    let n = min k (length b - sent) in
    let rest = send_loop b size (sent + n) (out ++ take n (drop sent b)) ws in
    if ltb sent size then rest else returned (ok out)

-- `sendRaw`: what stands on the wire when it returns nil. `size_error` is the error of writing the
-- size, which is of type uint32; it is returned as it is.
unfoldable pub send_raw : Bytes → Option RawError → List Moved → Outcome Bytes
unfolding send_loop
send_raw b size_error ws =
    let size = length b % 2 ^ 32 in
    elim size_error [
      | some e ↦ returned (err (raw e))
      | none ↦ send_loop b size 0 (put_u32 size) ws
    ]

-- The loop of `receiveRaw` over what has arrived; a read moves no more than what is left of `b`.
-- The result is the message and the rest of the wire.
unfoldable pub receive_loop : ℕ → ℕ → Bytes → Bytes → List Moved → Outcome (Bytes × Bytes)
unfolding handle_error
receive_loop total read buffer wire [] =
    if ltb read total then waiting else returned (ok (buffer, wire))
receive_loop total read buffer wire (failed e ∷ rs) =
    if ltb read total then returned (err (net (handle_error e))) else returned (ok (buffer, wire))
receive_loop total read buffer wire (moved k ∷ rs) =
    let n = min k (min (total - read) (length wire)) in
    let rest = receive_loop total (read + n) (buffer ++ take n wire) (drop n wire) rs in
    if ltb read total then rest else returned (ok (buffer, wire))

-- `receiveRaw`, with the error of reading the size, if any. Without one, reading a size from fewer
-- than four bytes waits for more.
unfoldable pub receive_raw : Bytes → Option RawError → List Moved → Outcome (Bytes × Bytes)
unfolding receive_loop handle_error
receive_raw wire size_error rs = elim size_error [
  | some e ↦ returned (err (net (handle_error e)))
  | none ↦ elim (get_u32 wire) [
    | none ↦ waiting
    | some (total, rest) ↦ receive_loop total 0 [] rest rs
  ]
]

abbrev pub max_retry_connect : ℕ
max_retry_connect = 5

-- The loop of `NewTCPConn`: the results of the dials that it makes, the last error if all fail.
unfoldable pub dial_loop {ℓ κ} :
    {E : Type ℓ} {C : Type κ} → ℕ → Option E → (ℕ → Result E C) → Result (Option E) C × ℕ
dial_loop zero last dial = (err last, 0)
dial_loop (suc left) last dial = elim (dial 0) [
  | ok c ↦ (ok c, 1)
  | err e ↦ let (r, n) = dial_loop left (some e) (λ i. dial (suc i)) in (r, suc n)
]

unfoldable pub new_tcp_conn {ℓ κ} :
    {E : Type ℓ} {C : Type κ} → (ℕ → Result E C) → Result (Option E) C × ℕ
unfolding dial_loop
new_tcp_conn dial = dial_loop max_retry_connect none dial

-- `Close`: the closed flag after it, and its error.
unfoldable pub close_conn : Bool → Bool × Option NetError
close_conn true = (true, some closed)
close_conn false = (true, none)
