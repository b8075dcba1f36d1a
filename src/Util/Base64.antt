-- ===== src/Util/Base64.antt =====
-- encoding/base64 as client/keys.go and util/encoding.go use it: the standard alphabet with padding.
pub mod RoundTrip
use mulsigo.Prelude.{
  ℕ, ◌+◌, ◌-◌, ◌*◌, ◌/◌, ◌%◌, Bool, true, false, not, ◌&&◌, ◌||◌, Option, none, some, List, [], ◌∷◌,
  ◌++◌, Bytes, ltb, leb, ◌==◌, if◌then◌else◌, nat_eq,
}

-- The digit of a number below 64, and the number of a character.
unfoldable pub digit : ℕ → ℕ
digit n =
    if ltb n 26
    then b'A' + n
    else if ltb n 52
    then b'a' + (n - 26)
    else if ltb n 62
    then b'0' + (n - 52)
    else if n == 62
    then b'+'
    else b'/'

unfoldable pub value : ℕ → Option ℕ
value c =
    if leb b'A' c && leb c b'Z'
    then some (c - b'A')
    else if leb b'a' c && leb c b'z'
    then some (26 + (c - b'a'))
    else if leb b'0' c && leb c b'9'
    then some (52 + (c - b'0'))
    else if c == b'+'
    then some 62
    else if c == b'/'
    then some 63
    else none

unfoldable pub encode : Bytes → Bytes
encode [] = []
encode (x ∷ []) = digit (x / 4) ∷ digit (x % 4 * 16) ∷ b'=' ∷ b'=' ∷ []
encode (x ∷ y ∷ []) = digit (x / 4) ∷ digit (x % 4 * 16 + y / 16) ∷ digit (y % 16 * 4) ∷ b'=' ∷ []
encode (x ∷ y ∷ z ∷ rest) =
    digit (x / 4)
    ∷ digit (x % 4 * 16 + y / 16)
    ∷ digit (y % 16 * 4 + z / 64)
    ∷ digit (z % 64)
    ∷ encode rest

-- Line breaks are passed over.
unfoldable pub strip : Bytes → Bytes
strip [] = []
strip (c ∷ s) = let rest = strip s in if c == b'\n' || c == b'\r' then rest else c ∷ rest

unfoldable pub one_byte : ℕ → ℕ → Option Bytes
one_byte a b = elim (value a) [
  | none ↦ none
  | some x ↦ elim (value b) [ none ↦ none | some y ↦ some ((x * 4 + y / 16) ∷ []) ]
]

unfoldable pub two_bytes : ℕ → ℕ → ℕ → Option Bytes
two_bytes a b c = elim (one_byte a b) [
  | none ↦ none
  | some f ↦ elim (value b) [
    | none ↦ none
    | some y ↦ elim (value c) [ none ↦ none | some z ↦ some (f ++ (y % 16 * 16 + z / 4) ∷ []) ]
  ]
]

unfoldable pub three_bytes : ℕ → ℕ → ℕ → ℕ → Option Bytes
three_bytes a b c d = elim (two_bytes a b c) [
  | none ↦ none
  | some f ↦ elim (value c) [
    | none ↦ none
    | some z ↦ elim (value d) [ none ↦ none | some w ↦ some (f ++ (z % 4 * 64 + w) ∷ []) ]
  ]
]

-- The bytes of a last quantum, and whether nothing follows it.
unfoldable pub last_bytes : Option Bytes → Bytes → Bytes × Bool
last_bytes none rest = ([], false)
last_bytes (some f) [] = (f, true)
last_bytes (some f) (c ∷ rest) = (f, false)

-- What is decoded, and whether that is all without an error.
unfoldable pub decode_stripped : Bytes → Bytes × Bool
unfolding one_byte two_bytes three_bytes last_bytes
decode_stripped [] = ([], true)
decode_stripped (a ∷ b ∷ c ∷ d ∷ rest) =
    let (more, good) = decode_stripped rest in
    if d == b'='
    then (if c == b'=' then last_bytes (one_byte a b) rest else last_bytes (two_bytes a b c) rest)
    else elim (three_bytes a b c d) [ none ↦ ([], false) | some f ↦ (f ++ more, good) ]
decode_stripped _ = ([], false)

unfoldable pub decode : Bytes → Bytes × Bool
unfolding strip decode_stripped
decode s = decode_stripped (strip s)
