-- ===== src/Util/Base64/RoundTrip.antt =====
-- encoding/base64: what is encoded comes back.
use mulsigo.Prelude.{
  ℕ, ◌+◌, ◌*◌, ◌/◌, ◌%◌, ◌<◌, ◌≡◌, refl, true, false, some, [], ◌∷◌, Bytes, All, ◌==◌, nat_eq,
  arith,
}
use mulsigo.Util.Base64.{
  digit, value, encode, strip, one_byte, two_bytes, three_bytes, decode_stripped, decode,
}

abbrev pub IsByte : ℕ → Type 0
IsByte b = b < 256

value-digit : (n : ℕ) → n < 64 → value (digit n) ≡ some n
unfolding value digit
value-digit n h = ground arith

digit_plain :
    (n : ℕ)
    → n < 64
    → ((digit n == b'=') ≡ false) × ((digit n == b'\n') ≡ false) × ((digit n == b'\r') ≡ false)
unfolding digit
digit_plain n h = (ground arith, ground arith, ground arith)

strip-digit : (n : ℕ) (s : Bytes) → n < 64 → strip (digit n ∷ s) ≡ digit n ∷ strip s
unfolding strip
strip-digit n s h = ground (arith, digit_plain n h)

three_bytes_lem :
    (x y z : ℕ)
    → x < 256
    → y < 256
    → z < 256
    → three_bytes
        (digit (x / 4))
        (digit (x % 4 * 16 + y / 16))
        (digit (y % 16 * 4 + z / 64))
        (digit (z % 64))
      ≡ some (x ∷ y ∷ z ∷ [])
unfolding three_bytes two_bytes one_byte
three_bytes_lem x y z hx hy hz = ground (
  arith,
  value-digit (x / 4),
  value-digit (x % 4 * 16 + y / 16),
  value-digit (y % 16 * 4 + z / 64),
  value-digit (z % 64),
)

decode_stripped-encode : (bs : Bytes) → All IsByte bs → decode_stripped (encode bs) ≡ (bs, true)
unfolding decode_stripped encode
decode_stripped-encode [] h = refl
decode_stripped-encode (x ∷ []) h = ground (arith, value-digit (x / 4), value-digit (x % 4 * 16))
decode_stripped-encode (x ∷ y ∷ []) h = ground (
  arith,
  value-digit (x / 4),
  value-digit (x % 4 * 16 + y / 16),
  value-digit (y % 16 * 4),
  digit_plain (y % 16 * 4),
)
decode_stripped-encode (x ∷ y ∷ z ∷ rest) h =
    ground (arith, three_bytes_lem x y z, digit_plain (z % 64), decode_stripped-encode rest)

strip_pad : (s : Bytes) → strip (b'=' ∷ s) ≡ b'=' ∷ strip s
unfolding strip
strip_pad s = refl

strip_nothing : strip [] ≡ []
unfolding strip
strip_nothing = refl

strip-encode : (bs : Bytes) → All IsByte bs → strip (encode bs) ≡ encode bs
unfolding encode
strip-encode [] h = strip_nothing
strip-encode (x ∷ []) h =
    rw
      (
        strip-digit (x / 4) (digit (x % 4 * 16) ∷ b'=' ∷ b'=' ∷ []) (omega arith),
        strip-digit (x % 4 * 16) (b'=' ∷ b'=' ∷ []) (omega arith),
        strip_pad (b'=' ∷ []),
        strip_pad [],
        strip_nothing,
      )
      refl
strip-encode (x ∷ y ∷ []) h =
    let d3 = digit (y % 16 * 4) in
    let d2 = digit (x % 4 * 16 + y / 16) in
    rw
      (
        strip-digit (x / 4) (d2 ∷ d3 ∷ b'=' ∷ []) (omega arith),
        strip-digit (x % 4 * 16 + y / 16) (d3 ∷ b'=' ∷ []) (omega arith),
        strip-digit (y % 16 * 4) (b'=' ∷ []) (omega arith),
        strip_pad [],
        strip_nothing,
      )
      refl
strip-encode (x ∷ y ∷ z ∷ rest) h =
    let s = encode rest in
    let d4 = digit (z % 64) in
    let d3 = digit (y % 16 * 4 + z / 64) in
    let d2 = digit (x % 4 * 16 + y / 16) in
    rw
      (
        strip-digit (x / 4) (d2 ∷ d3 ∷ d4 ∷ s) (omega arith),
        strip-digit (x % 4 * 16 + y / 16) (d3 ∷ d4 ∷ s) (omega arith),
        strip-digit (y % 16 * 4 + z / 64) (d4 ∷ s) (omega arith),
        strip-digit (z % 64) s (omega arith),
        strip-encode rest h.1.1.1,
      )
      refl

-- Decoding an encoded byte string gives it back, without an error.
pub decode-encode : (bs : Bytes) → All IsByte bs → decode (encode bs) ≡ (bs, true)
unfolding decode
decode-encode bs h = rw (strip-encode bs h) (decode_stripped-encode bs h)
