-- ===== src/Client/Keys/Clamp.antt =====
-- client/keys.go: the bytes of a private scalar.
use mulsigo.Prelude.{
  ℕ, zero, suc, ◌+◌, ◌*◌, ◌%◌, ◌^◌, ◌≤◌, ◌<◌, ◌≡◌, [], ◌∷◌, Bytes, length, All, arith,
}
use mulsigo.Util.Base64.RoundTrip.{IsByte}
use mulsigo.Client.Keys.{set_last, clamp}

-- The number that stands in the bytes, the least significant first.
unfoldable pub scalar_value : Bytes → ℕ
scalar_value [] = 0
scalar_value (b ∷ bs) = b + 256 * scalar_value bs

abbrev power : ℕ → ℕ
power zero = 1
power (suc k) = 256 * power k

set_last_bounds :
    (bs : Bytes) (k : ℕ)
    → All IsByte bs
    → length bs ≡ suc k
    → (64 * power k ≤ scalar_value (set_last bs k)) × (scalar_value (set_last bs k) < 128 * power k)
unfolding set_last scalar_value
set_last_bounds [] k h l = absurd (omega arith)
set_last_bounds (b ∷ bs) zero h l = (ground arith, ground arith)
set_last_bounds (b ∷ bs) (suc k) h l =
    let (low, high) = set_last_bounds bs k h.1 (omega arith) in (omega arith, omega arith)

-- The scalar that is made of the 32 bytes of a digest is a multiple of 8 between 2 ^ 254 and 2 ^ 255.
pub clamp_bounds :
    (digest : Bytes)
    → All IsByte digest
    → length digest ≡ 32
    → let v = scalar_value (clamp digest) in (v % 8 ≡ 0) × (2 ^ 254 ≤ v) × (v < 2 ^ 255)
unfolding clamp scalar_value
clamp_bounds [] h l = absurd (omega arith)
clamp_bounds (b ∷ bs) h l =
    let (low, high) = set_last_bounds bs 30 h.1 (omega arith) in
    (omega arith, omega arith, omega arith)
