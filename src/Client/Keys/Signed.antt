-- ===== src/Client/Keys/Signed.antt =====
-- client/keys.go: what the signature of an identity covers.
use mulsigo.Prelude.{
  ℕ, zero, suc, ◌+◌, ◌*◌, ◌/◌, ◌^◌, ◌<◌, ◌≡◌, refl, [], ◌∷◌, ◌++◌, Bytes, length, length-append,
  arith, ap, sym, ◌∙◌,
}
use mulsigo.Client.Keys.{Identity, little_endian, signed_bytes}

from_little_endian : Bytes → ℕ
from_little_endian [] = 0
from_little_endian (b ∷ bs) = b + 256 * from_little_endian bs

little_endian_lem : (n : ℕ) → n < 2 ^ 64 → from_little_endian (little_endian 8 n) ≡ n
unfolding from_little_endian little_endian
little_endian_lem n h = omega arith

length-little_endian : (k n : ℕ) → length (little_endian k n) ≡ k
unfolding little_endian
length-little_endian zero n = refl
length-little_endian (suc k) n = ap suc (length-little_endian k (n / 256))

split_append :
    (xs ys : Bytes) {a b : Bytes} → length xs ≡ length ys → xs ++ a ≡ ys ++ b → (xs ≡ ys) × (a ≡ b)
split_append [] [] l e = (refl, e)
split_append [] (y ∷ ys) l e = absurd (omega arith)
split_append (x ∷ xs) [] l e = absurd (omega arith)
split_append (x ∷ xs) (y ∷ ys) {a} {b} l e =
    let (p, q) = split_append xs ys {a = a} {b = b} (omega arith) (cc) in (cc, q)

-- Among identities with keys of one length the signature determines what it is for: two of them with
-- the same signed bytes have the same name, the same time and the same key.
pub signed_bytes_determine :
    (i j : Identity)
    → length i.key ≡ length j.key
    → i.created_at < 2 ^ 64
    → j.created_at < 2 ^ 64
    → signed_bytes i ≡ signed_bytes j
    → (i.name ≡ j.name) × (i.created_at ≡ j.created_at) × (i.key ≡ j.key)
unfolding signed_bytes
signed_bytes_determine i j k hi hj e =
    let li = little_endian 8 i.created_at in
    let lj = little_endian 8 j.created_at in
    let same : length i.name ≡ length j.name = omega (
      arith,
      ap length e,
      length-append i.name (li ++ i.key),
      length-append j.name (lj ++ j.key),
      length-append li i.key,
      length-append lj j.key,
      length-little_endian 8 i.created_at,
      length-little_endian 8 j.created_at,
    ) in
    let (names, rest) = split_append i.name j.name same e in
    let (times, keys) =
      split_append li lj
        (length-little_endian 8 i.created_at ∙ sym (length-little_endian 8 j.created_at)) rest in
    (
      names,
      sym (little_endian_lem i.created_at hi)
          ∙ ap from_little_endian times
          ∙ little_endian_lem j.created_at hj,
      keys,
    )
