-- ===== src/Client/Identity/Laws.antt =====
-- client/router.go: what the two ends of a channel compute.
use Prim.Native.Nat.{Ordering}
use mulsigo.Prelude.{
  ℕ, zero, suc, ◌+◌, ◌≤◌, ◌≡◌, ◌≢◌, refl, Bool, true, false, not, none, some, [], ◌∷◌, Bytes,
  length, take, drop, take_all, length-take, arith, append-nil,
}
use mulsigo.Client.Identity.{
  hex_encode, slice_to_16, slice_from_16, identity_id, compare_strings, channel_id,
}

compare_strings_flip :
    (xs ys : Bytes) → (compare_strings xs ys ≡ Ordering.lt) → compare_strings ys xs ≡ Ordering.gt
unfolding compare_strings
compare_strings_flip [] [] h = cc
compare_strings_flip [] (y ∷ ys) h = refl
compare_strings_flip (x ∷ xs) [] h = cc
compare_strings_flip (x ∷ xs) (y ∷ ys) h = ground (arith, compare_strings_flip xs ys)

compare_strings_gt :
    (xs ys : Bytes) → (compare_strings xs ys ≡ Ordering.gt) → compare_strings ys xs ≡ Ordering.lt
unfolding compare_strings
compare_strings_gt [] [] h = cc
compare_strings_gt [] (y ∷ ys) h = cc
compare_strings_gt (x ∷ xs) [] h = refl
compare_strings_gt (x ∷ xs) (y ∷ ys) h = ground (arith, compare_strings_gt xs ys)

compare_strings_eq : (xs ys : Bytes) → (compare_strings xs ys ≡ Ordering.eq) → xs ≡ ys
unfolding compare_strings
compare_strings_eq [] [] h = refl
compare_strings_eq [] (y ∷ ys) h = cc
compare_strings_eq (x ∷ xs) [] h = cc
compare_strings_eq (x ∷ xs) (y ∷ ys) h = ground (arith, compare_strings_eq xs ys)

drop_all : (n : ℕ) (xs : Bytes) → length xs ≤ n → drop n xs ≡ []
drop_all zero [] h = refl
drop_all zero (x ∷ xs) h = absurd (omega arith)
drop_all (suc n) [] h = refl
drop_all (suc n) (x ∷ xs) h = drop_all n xs (omega arith)

to_16 : (s : Bytes) → length s ≡ 16 → slice_to_16 s ≡ some s
unfolding slice_to_16
to_16 s h = ground (arith, take_all 16 s)

from_16 : (s : Bytes) → length s ≡ 16 → slice_from_16 s ≡ some []
unfolding slice_from_16
from_16 s h = ground (arith, drop_all 16 s)

length-hex_encode : (key : Bytes) → length (hex_encode key) ≡ length key + length key
unfolding hex_encode
length-hex_encode [] = refl
length-hex_encode (b ∷ key) = omega (arith, length-hex_encode key)

-- The identifier of a key of at least 8 bytes has 16 characters; of a shorter key it panics.
pub identity_id-length :
    (key : Bytes)
    → (8 ≤ length key → (s : Bytes) × (identity_id key ≡ some s) × (length s ≡ 16))
      × (length key + 1 ≤ 8 → identity_id key ≡ none)
unfolding identity_id
identity_id-length key = (
  λ h. (
    take 16 (hex_encode key),
    ground (arith, length-hex_encode key),
    omega (arith, length-hex_encode key, length-take 16 (hex_encode key)),
  ),
  λ h. ground (arith, length-hex_encode key),
)

module _ (sum : Bytes → Bytes) where
  channel_id_lt :
      (a b : Bytes)
      → length a ≡ 16
      → length b ≡ 16
      → compare_strings a b ≡ Ordering.lt
      → channel_id sum a b ≡ some (sum b, true)
  unfolding channel_id
  channel_id_lt a b ha hb h = ground (arith, to_16 b hb, from_16 a ha, append-nil b)

  channel_id_gt :
      (a b : Bytes)
      → length a ≡ 16
      → length b ≡ 16
      → compare_strings a b ≡ Ordering.gt
      → channel_id sum a b ≡ some (sum a, false)
  unfolding channel_id
  channel_id_gt a b ha hb h = ground (arith, to_16 a ha, from_16 b hb, append-nil a)

  -- Two participants with different identifiers compute the same channel, and exactly one of them
  -- is to send first.
  pub channel_id_symmetric :
      (a b : Bytes)
      → length a ≡ 16
      → length b ≡ 16
      → a ≢ b
      → (c : Bytes) × (first : Bool) × (channel_id sum a b ≡ some (c, first))
        × (channel_id sum b a ≡ some (c, not first))
  channel_id_symmetric a b ha hb ne = go (compare_strings a b) refl
    where
      go :
          (o : Ordering)
          → compare_strings a b ≡ o
          → (c : Bytes) × (first : Bool) × (channel_id sum a b ≡ some (c, first))
            × (channel_id sum b a ≡ some (c, not first))
      go Ordering.lt e = (
        sum b,
        true,
        channel_id_lt a b ha hb e,
        channel_id_gt b a hb ha (compare_strings_flip a b e),
      )
      go Ordering.eq e = absurd (ne (compare_strings_eq a b e))
      go Ordering.gt e = (
        sum a,
        false,
        channel_id_gt a b ha hb e,
        channel_id_lt b a hb ha (compare_strings_gt a b e),
      )

  -- The channel depends on the greater identifier alone: two participants below a third one share
  -- its channel, whichever they are.
  pub channel_id_collides :
      (a b c : Bytes)
      → length a ≡ 16
      → length b ≡ 16
      → length c ≡ 16
      → compare_strings a c ≡ Ordering.lt
      → compare_strings b c ≡ Ordering.lt
      → channel_id sum a c ≡ channel_id sum b c
  channel_id_collides a b c ha hb hc p q = cc (channel_id_lt a c ha hc p, channel_id_lt b c hb hc q)
