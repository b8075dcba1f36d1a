-- ===== src/Util/Hex.antt =====
-- util/encoding.go: points and scalars in hexadecimal. The group's encoding of an element is a
-- parameter; both kinds of element have the same code.
pub mod RoundTrip
use mulsigo.Prelude.{
  ℕ, zero, suc, ◌+◌, ◌-◌, ◌*◌, Bool, true, false, ◌&&◌, Option, none, some, List, [], ◌∷◌, ◌++◌,
  Bytes, length, take, Result, ok, err, ◌>>=◌, or_fail, ltb, leb, ◌==◌, if◌then◌else◌, nat_eq,
}
use mulsigo.Client.Identity.{hex_encode}

pub data Error : Type 0 where
  eof not_enough bad_hex cannot_marshal : Error
  reader_error : ℕ → Error

-- encoding/hex: digits of both cases; an odd length is an error.
unfoldable pub hex_value : ℕ → Option ℕ
hex_value c =
    if leb b'0' c && leb c b'9'
    then some (c - b'0')
    else if leb b'a' c && leb c b'f'
    then some (10 + (c - b'a'))
    else if leb b'A' c && leb c b'F'
    then some (10 + (c - b'A'))
    else none

unfoldable pub hex_decode : Bytes → Option Bytes
hex_decode [] = some []
hex_decode (a ∷ b ∷ s) = elim (hex_value a) [
  | none ↦ none
  | some x ↦ elim (hex_value b) [
    | none ↦ none
    | some y ↦ elim (hex_decode s) [ none ↦ none | some bs ↦ some ((x * 16 + y) ∷ bs) ]
  ]
]
hex_decode _ = none

unfoldable pub zeros : ℕ → Bytes
zeros zero = []
zeros (suc n) = 0 ∷ zeros n

-- `getHex`, by what the one call of `Read` on its buffer gives: at most `len * 2` bytes. The rest of
-- the buffer stays zero.
unfoldable pub get_hex : Result Error Bytes → ℕ → Result Error Bytes
unfolding zeros hex_decode
get_hex read len = do
  bs ← read
  if ltb (length bs) len
      then err not_enough
      else or_fail (hex_decode (bs ++ zeros (len * 2 - length bs))) bad_hex

-- `Read` of a `strings.Reader` at its start, into a buffer of `n` bytes.
unfoldable pub read_string : Bytes → ℕ → Result Error Bytes
read_string [] n = err eof
read_string (c ∷ s) n = ok (take n (c ∷ s))

-- `unmarshal` gives the element that `UnmarshalBinary` leaves, and whether it returned nil.
module _ {P : Type 0} (marshal : P → Option Bytes) (unmarshal : Bytes → P × Bool) (size : ℕ) where
  -- `ReadHexPoint` and `ReadHexScalar`: the error of `UnmarshalBinary` is not looked at.
  unfoldable pub read_hex : (ℕ → Result Error Bytes) → Result Error P
  unfolding get_hex
  read_hex read = do buf ← get_hex (read (size * 2)) size; ok (unmarshal buf).0

  -- `WriteHexPoint` and `WriteHexScalar`: what is written. `PointToStringHex` and
  -- `ScalarToStringHex` give the same text.
  unfoldable pub write_hex : P → Result Error Bytes
  write_hex p = do buf ← or_fail (marshal p) cannot_marshal; ok (hex_encode buf)

  -- `StringHexToPoint` and `StringHexToScalar`.
  unfoldable pub string_to_element : Bytes → Result Error P
  unfolding read_hex read_string
  string_to_element s = read_hex (read_string s)
