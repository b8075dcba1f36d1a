-- ===== src/Client/Keys/Saved.antt =====
-- client/keys.go: what the TOML forms keep.
use mulsigo.Prelude.{◌≡◌, ◌≢◌, refl, Option, none, some, All, ◌^◌, ◌<◌, ap, sym}
use mulsigo.Util.Base64.RoundTrip.{IsByte, decode-encode}
use mulsigo.Client.Keys.{
  Identity, Private, Error, signed_bytes, private_to_toml, private_from_toml, to_toml, from_toml,
}
use mulsigo.Client.Keys.Signed.{signed_bytes_determine}

-- The seed of a private key comes back from its TOML form as it was; the identity is the one of the
-- key that it is read into.
pub private_from_toml_lem :
    (p q : Private)
    → All IsByte p.seed
    → private_from_toml q (some (private_to_toml p)) ≡ (record q { seed = p.seed }, none)
unfolding private_from_toml private_to_toml
private_from_toml_lem p q h = rw (decode-encode p.seed h) refl

pub from_toml_lem :
    (i j : Identity)
    → All IsByte i.key
    → All IsByte i.signature
    → from_toml j (some (to_toml i)) ≡ (record i { created_at = j.created_at }, none)
unfolding from_toml to_toml
from_toml_lem i j h k = rw (decode-encode i.key h, decode-encode i.signature k) refl

-- An identity comes back from its TOML form, read into one of another time, without an error and with
-- that other time, and else as it was: what its signature covers is then not what was signed.
pub from_toml_forgets :
    (i j : Identity)
    → All IsByte i.key
    → All IsByte i.signature
    → i.created_at < 2 ^ 64
    → j.created_at < 2 ^ 64
    → i.created_at ≢ j.created_at
    → let (i', e) = from_toml j (some (to_toml i)) in
      (e ≡ none)
      × (i' ≡ record i { created_at = j.created_at })
      × (signed_bytes i' ≢ signed_bytes i)
from_toml_forgets i j h k ti tj differ =
    let back = from_toml_lem i j h k in
    (
      ap (λ (r : Identity × Option Error). r.1) back,
      ap (λ (r : Identity × Option Error). r.0) back,
      λ e. differ (
          sym (
            (signed_bytes_determine (record i { created_at = j.created_at }) i refl tj ti
              (rw (back) at e)).1)),
    )
