-- ===== src/Client/Identity.antt =====
-- client/keys.go and client/router.go: the identifier of a participant, and the identifier of the
-- channel between two of them.
pub mod Laws
use mulsigo.Prelude.{
  ℕ, zero, suc, ◌+◌, ◌-◌, ◌/◌, ◌%◌, Bool, true, false, Option, none, some, List, [], ◌∷◌, ◌++◌,
  Bytes, length, take, drop, ltb, leb, if◌then◌else◌,
}
use Prim.Native.Nat.{compare, Ordering}

-- encoding/hex: two lower-case digits for each byte.
unfoldable pub hex_digit : ℕ → ℕ
hex_digit n = if ltb n 10 then b'0' + n else b'a' + (n - 10)

unfoldable pub hex_encode : Bytes → Bytes
hex_encode [] = []
hex_encode (b ∷ bs) = hex_digit (b / 16) ∷ hex_digit (b % 16) ∷ hex_encode bs

-- `s[:16]` and `s[16:]`; `none` is the panic of a slice out of range.
unfoldable pub slice_to_16 : Bytes → Option Bytes
slice_to_16 s = if ltb (length s) 16 then none else some (take 16 s)

unfoldable pub slice_from_16 : Bytes → Option Bytes
slice_from_16 s = if ltb (length s) 16 then none else some (drop 16 s)

-- `Identity.ID`, from the key.
unfoldable pub identity_id : Bytes → Option Bytes
unfolding slice_to_16
identity_id key = slice_to_16 (hex_encode key)

-- strings.Compare: bytewise, a proper prefix first.
unfoldable pub compare_strings : Bytes → Bytes → Ordering
compare_strings [] [] = Ordering.eq
compare_strings [] (y ∷ ys) = Ordering.lt
compare_strings (x ∷ xs) [] = Ordering.gt
compare_strings (x ∷ xs) (y ∷ ys) = elim (compare x y) [
  | Ordering.lt ↦ Ordering.lt
  | Ordering.eq ↦ compare_strings xs ys
  | Ordering.gt ↦ Ordering.gt
]

-- The hexadecimal SHA-256 sum of what is written.
module _ (sum : Bytes → Bytes) where
  unfoldable pub channel_id : Bytes → Bytes → Option (Bytes × Bool)
  channel_id str1 str2 = elim (compare_strings str1 str2) [
    | Ordering.lt ↦ elim (slice_to_16 str2) [
      | none ↦ none
      | some s1 ↦ elim (slice_from_16 str1) [ none ↦ none | some s2 ↦ some (sum (s1 ++ s2), true) ]
    ]
    | Ordering.eq ↦ some (sum [], false)
    | Ordering.gt ↦ elim (slice_to_16 str1) [
      | none ↦ none
      | some s1 ↦ elim (slice_from_16 str2) [ none ↦ none | some s2 ↦ some (sum (s1 ++ s2), false) ]
    ]
  ]
