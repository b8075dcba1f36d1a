-- ===== src/Network/Encoding.antt =====
-- network/encoding.go: the registry of message types and the encoders over it. The protobuf library
-- is a parameter: how it encodes and decodes a value of a type.
pub mod RoundTrip
use mulsigo.Prelude.{
  ℕ, Bool, true, false, Option, none, some, List, [], ◌∷◌, ◌++◌, Bytes, Map, lookup, insert, Eq,
  ◌==◌, if◌then◌else◌, Result, ok, err, ◌>>=◌, or_fail, nat_eq,
}
use mulsigo.Network.Frame.{put_u32, get_u32}

pub data Error : Type 0 where
  wrong_type : Error
  not_registered : Error
  too_short : Error
  encode_failed : Error
  decode_failed : Error

-- `types` and `inv`; message identifiers are of type uint32.
pub record Registry (T : Type 0) : Type 0 where
  pub types : Map ℕ T
  pub inv : Map T ℕ

module _ {T : Type 0} ⦃e : Eq T⦄ where
  unfoldable pub new_registry : Registry T
  new_registry = record { types = []; inv = [] }

  unfoldable pub get : Registry T → ℕ → Option T
  get r id = lookup id r.types

  unfoldable pub get_id : Registry T → T → Option ℕ
  get_id r t = lookup t r.inv

  unfoldable pub is_registered : Registry T → T → Bool
  unfolding get_id
  is_registered r t = elim (get_id r t) [ none ↦ false | some _ ↦ true ]

  unfoldable pub put : Registry T → ℕ → T → Registry T
  put r id t = record { types = insert id t r.types; inv = insert t id r.inv }

  -- A message is a value with its type.
  module _ {V : Type 0} (encode : T → V → Option Bytes) (decode : T → Bytes → Option V) where
    unfoldable pub single_marshal : T → T × V → Result Error Bytes
    single_marshal t (u, v) = if u == t then or_fail (encode u v) encode_failed else err wrong_type

    unfoldable pub single_unmarshal : T → Bytes → Result Error (T × V)
    single_unmarshal t buf = or_fail (decode t buf) decode_failed >>= λ v. ok (t, v)

    unfoldable pub multi_marshal : Registry T → T × V → Result Error Bytes
    unfolding single_marshal
    multi_marshal r m = do
      id ← or_fail (get_id r m.0) not_registered
      buf ← single_marshal m.0 m
      ok (put_u32 id ++ buf)

    unfoldable pub multi_unmarshal : Registry T → Bytes → Result Error (T × V)
    unfolding single_unmarshal
    multi_unmarshal r buf = do
      head ← or_fail (get_u32 buf) too_short
      t ← or_fail (get r head.0) not_registered
      single_unmarshal t head.1
