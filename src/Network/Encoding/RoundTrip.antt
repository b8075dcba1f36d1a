-- ===== src/Network/Encoding/RoundTrip.antt =====
-- network/encoding.go: what comes back of an encoded message.
use mulsigo.Prelude.{
  ℕ, ◌^◌, ◌<◌, ◌≡◌, ◌≢◌, Option, some, ◌++◌, Bytes, Eq, ◌==◌, if◌then◌else◌, ok, ◌>>=◌, or_fail,
  nat_eq, lookup-insert, ==_refl, ==_ne, sym,
}
use mulsigo.Network.Frame.{put_u32}
use mulsigo.Network.Frame.RoundTrip.{get-put_u32}
use mulsigo.Network.Encoding.{
  decode_failed, Registry, get, get_id, put, single_unmarshal, multi_marshal, multi_unmarshal,
}

module _ {T : Type 0} ⦃e : Eq T⦄ where
  -- After a registration the identifier gives the type and the type the identifier, and other
  -- identifiers and types keep what they had.
  pub put_lem :
      (r : Registry T) (id j : ℕ) (t u : T)
      → (get (put r id t) j ≡ (if id == j then some t else get r j))
        × (get_id (put r id t) u ≡ (if t == u then some id else get_id r u))
  unfolding put get get_id
  put_lem r id j t u = (lookup-insert id j t r.types, lookup-insert t u id r.inv)

  module _ {V : Type 0} (encode : T → V → Option Bytes) (decode : T → Bytes → Option V) where
    marshal_lem :
        (r : Registry T) (t u : T) (v : V) (id : ℕ) (buf : Bytes)
        → id < 2 ^ 32
        → get_id r t ≡ some id
        → get r id ≡ some u
        → encode t v ≡ some buf
        → (multi_marshal encode decode r (t, v) ≡ ok (put_u32 id ++ buf))
          × (multi_unmarshal encode decode r (put_u32 id ++ buf)
              ≡ single_unmarshal encode decode u buf)
    unfolding multi_marshal multi_unmarshal
    marshal_lem r t u v id buf small there back enc = (
      rw (there, enc, ==_refl t, multi_marshal),
      rw (get-put_u32 id buf small, back, multi_unmarshal),
    )

    -- A message of a type whose identifier is registered for that type comes back from its encoding
    -- as it was, if the protobuf library decodes what it encodes.
    pub multi_unmarshal-marshal :
        (r : Registry T) (t : T) (v : V) (id : ℕ) (buf : Bytes)
        → id < 2 ^ 32
        → get_id r t ≡ some id
        → get r id ≡ some t
        → encode t v ≡ some buf
        → decode t buf ≡ some v
        → (multi_marshal encode decode r (t, v) >>= multi_unmarshal encode decode r) ≡ ok (t, v)
    unfolding single_unmarshal
    multi_unmarshal-marshal r t v id buf small there back enc dec =
        let (m, u) = marshal_lem r t t v id buf small there back enc in
        rw (m, u, dec, single_unmarshal)

    -- Registering a second type under an identifier leaves the first type with it: from then on a
    -- message of the first type is encoded without an error and read back at the second type.
    put_twice_confuses :
        (r : Registry T) (t u : T) (v : V) (id : ℕ) (buf : Bytes)
        → id < 2 ^ 32
        → t ≢ u
        → encode t v ≡ some buf
        → let r' = put (put r id t) id u in
          (multi_marshal encode decode r' (t, v) >>= multi_unmarshal encode decode r')
          ≡ (or_fail (decode u buf) decode_failed >>= λ w. ok (u, w))
    unfolding single_unmarshal
    put_twice_confuses r t u v id buf small ne enc =
        let r' = put (put r id t) id u in
        let there : get_id r' t ≡ some id = rw (
          (put_lem (put r id t) id id u t).1,
          ==_ne u t (λ q. ne (sym q)),
          (put_lem r id id t t).1,
          ==_refl t,
        ) in
        let back : get r' id ≡ some u = rw ((put_lem (put r id t) id id u t).0, ==_refl id) in
        let (m, w) = marshal_lem r' t u v id buf small there back enc in rw (m, w)
