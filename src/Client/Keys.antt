-- ===== src/Client/Keys.antt =====
-- client/keys.go: identities and private keys, their signature and their TOML forms. The signature
-- scheme, SHA-512 and the group are parameters, and so are TOML's printer and parser.
pub mod Signed
pub mod Saved
pub mod Clamp
use mulsigo.Prelude.{
  ℕ, zero, suc, ◌+◌, ◌-◌, ◌/◌, ◌%◌, ◌^◌, Bool, true, false, Option, none, some, List, [], ◌∷◌, ◌++◌,
  Bytes, length, map, Result, ok, err, ltb, ◌==◌, if◌then◌else◌, nat_eq,
}
use mulsigo.Relay.Message.{Address}
use mulsigo.Util.Base64

-- `created_at` is the bit pattern of an int64.
pub record Identity : Type 0 where
  pub name : Bytes
  pub key : Bytes
  pub created_at : ℕ
  pub signature : Bytes
  pub address : Address

-- `public` is a pointer that can be nil.
pub record Private : Type 0 where
  pub seed : Bytes
  pub public : Option Identity

pub data Error : Type 0 where
  bad_toml bad_base64 no_point : Error

-- binary.Write of an int64, the least significant byte first.
unfoldable pub little_endian : ℕ → ℕ → Bytes
little_endian zero n = []
little_endian (suc k) n = n % 256 ∷ little_endian k (n / 256)

-- What `selfsign` signs.
unfoldable pub signed_bytes : Identity → Bytes
unfolding little_endian
signed_bytes i = i.name ++ (little_endian 8 i.created_at ++ i.key)

-- ed25519.Sign; `none` is its panic on a key of a wrong length.
module _ (sign : Bytes → Bytes → Option Bytes) where
  unfoldable pub selfsign : Identity → Private → Option Identity
  unfolding signed_bytes
  selfsign i p = elim (sign p.seed (signed_bytes i)) [
    | none ↦ none
    | some s ↦ some (record i { signature = s })
  ]

  -- `NewPrivateIdentity`, by the keys that `GenerateKey` gives; its error is overwritten by that of
  -- `selfsign`, which is nil.
  unfoldable pub new_private_identity :
      Bytes → Bytes × Bytes × Option ℕ → ℕ → Option (Private × Identity × Option ℕ)
  unfolding selfsign
  new_private_identity name (public, private, e) now =
      let i : Identity = record {
        name = name;
        key = public;
        created_at = now;
        signature = [];
        address = [];
      } in
      elim (selfsign i (record { seed = private; public = some i })) [
        | none ↦ none
        | some i' ↦ some (record { seed = private; public = some i' }, i', none)
      ]

-- `Repr`.
unfoldable pub repr : Identity → Bytes
repr i = b'i' ∷ b'd' ∷ b':' ∷ b'\t' ∷ (i.name ++ b' ' ∷ b'\n' ∷ b'\t' ∷ Base64.encode i.key)

pub record PrivateToml : Type 0 where
  pub seed_text : Bytes

unfoldable pub private_to_toml : Private → PrivateToml
private_to_toml p = record { seed_text = Base64.encode p.seed }

-- `FromToml` of a private key, by what the parser gives: the seed is set also after an error.
unfoldable pub private_from_toml : Private → Option PrivateToml → Private × Option Error
private_from_toml p none = (p, some bad_toml)
private_from_toml p (some pt) =
    let (seed, good) = Base64.decode pt.seed_text in
    (record p { seed = seed }, if good then none else some bad_base64)

pub record IdentityToml : Type 0 where
  pub name_text : Bytes
  pub key_text : Bytes
  pub created_number : ℕ
  pub signature_text : Bytes
  pub address_text : Bytes

unfoldable pub to_toml : Identity → IdentityToml
to_toml i = record {
  name_text = i.name;
  key_text = Base64.encode i.key;
  created_number = i.created_at;
  signature_text = Base64.encode i.signature;
  address_text = i.address;
}

-- `FromToml`, which sets the fields of an identity that is there.
unfoldable pub from_toml : Identity → Option IdentityToml → Identity × Option Error
from_toml i none = (i, some bad_toml)
from_toml i (some t) =
    let (public, good_key) = Base64.decode t.key_text in
    let (signature, good_signature) = Base64.decode t.signature_text in
    if good_key
    then (if good_signature
        then (
          record i {
            name = t.name_text;
            key = public;
            address = t.address_text;
            signature = signature;
          },
          none,
        )
        else (i, some bad_base64))
    else (i, some bad_base64)

-- The digest of `Scalar`, of which it takes 32 bytes: `&= 248` on the first, `&= 127` and `|= 64` on
-- the last of these.
unfoldable pub set_last : Bytes → ℕ → Bytes
set_last [] k = []
set_last (b ∷ bs) zero = (let low = b % 128 in if ltb low 64 then low + 64 else low) ∷ []
set_last (b ∷ bs) (suc k) = b ∷ set_last bs k

unfoldable pub clamp : Bytes → Bytes
unfolding set_last
clamp [] = []
clamp (b ∷ bs) = (b - b % 8) ∷ set_last bs 30

-- Points of the public polynomial, and kyber's text of one.
module _ {P : Type 0} (point_text : P → Option Bytes) where
  pub record GroupConfig : Type 0 where
    pub name : Bytes
    pub email : Bytes
    pub comment : Bytes
    pub public : List P
    pub ids : List Identity
    pub t : ℕ
    pub pgp_id : ℕ
    pub pgp_public : Bytes

  pub record GroupConfigToml : Type 0 where
    pub name : Bytes
    pub email : Bytes
    pub comment : Bytes
    pub public : List Bytes
    pub ids : List IdentityToml
    pub t : ℕ
    pub pgp_id : Bytes
    pub pgp_public : Bytes

  unfoldable pub point_texts : List P → Option (List Bytes)
  point_texts [] = some []
  point_texts (p ∷ ps) = elim (point_text p) [
    | none ↦ none
    | some s ↦ elim (point_texts ps) [ none ↦ none | some ss ↦ some (s ∷ ss) ]
  ]

  -- `toml` of a group: the identifier of the PGP key is not among what it sets.
  unfoldable pub group_to_toml : GroupConfig → Result Error GroupConfigToml
  unfolding point_texts
  group_to_toml g = elim (point_texts g.public) [
    | none ↦ err no_point
    | some ss ↦ ok (record {
      name = g.name;
      email = g.email;
      comment = g.comment;
      public = ss;
      ids = map to_toml g.ids;
      t = g.t;
      pgp_id = [];
      pgp_public = g.pgp_public;
    })
  ]
