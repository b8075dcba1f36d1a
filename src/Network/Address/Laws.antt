-- ===== src/Network/Address/Laws.antt =====
-- network/address.go: what an address gives back of what it was made from.
use mulsigo.Prelude.{
  ℕ, ◌≤◌, ◌≡◌, ◌≢◌, refl, Bool, true, false, ◌||◌, Option, none, some, List, [], ◌∷◌, Bytes, ◌==◌,
  if◌then◌else◌, list_eq, nat_eq, arith, Option-cases, inl, inr, ==_iff,
}
use mulsigo.Relay.Message.{Address}
use mulsigo.Network.Address.{
  ℤ, pos, negsuc, ConnType, plain_tcp, tls, purb, local_type, invalid_conn_type, type_address_sep,
  localhost, split, to_conn_type, first, conn_type, is_port, valid_pieces, valid, second,
  network_address, host, port,
}

-- The types that an address can have.
pub data IsConnType : ConnType → Type 0 where
  is_tcp : IsConnType plain_tcp
  is_tls : IsConnType tls
  is_purb : IsConnType purb
  is_local : IsConnType local_type

is_port_lem : (o : Option ℤ) → is_port o ≡ true → (k : ℕ) × (o ≡ some (pos k)) × (k ≤ 65535)
unfolding is_port
is_port_lem none h = ground arith
is_port_lem (some (pos k)) h = (k, refl, ground arith)
is_port_lem (some (negsuc k)) h = ground arith

conn_type_of :
    (a : Address) (t : Bytes) (vs : List Bytes)
    → split a type_address_sep ≡ t ∷ vs
    → conn_type a ≡ to_conn_type t
unfolding conn_type first
conn_type_of a t vs s = rw s

module _ (split_host_port : Bytes → Option (Bytes × Bytes)) (atoi : Bytes → Option ℤ)
    (parse_ip : Bytes → Bool) where
  -- What the network part of a valid address is.
  pub record IsNetwork (n ip p : Bytes) (k : ℕ) : Type 0 where
    pub splits : split_host_port n ≡ some (ip, p)
    pub number : atoi p ≡ some (pos k)
    pub small : k ≤ 65535
    pub known : (ip == localhost || parse_ip ip) ≡ true

  never_empty :
      {n ip p : Bytes} {k : ℕ} → split_host_port [] ≡ none → IsNetwork n ip p k → (n == []) ≡ false
  never_empty {n} empty net = ground (arith, ==_iff n [], net.splits)

  parts :
      (a : Address) (t n ip p : Bytes)
      → split a type_address_sep ≡ t ∷ n ∷ []
      → valid split_host_port atoi parse_ip a ≡ true
      → (n == []) ≡ false
      → split_host_port n ≡ some (ip, p)
      → (network_address split_host_port atoi parse_ip a ≡ n)
        × (host split_host_port atoi parse_ip a
            ≡ (if ip == b':' ∷ b':' ∷ [] then b'[' ∷ b':' ∷ b':' ∷ b']' ∷ [] else ip))
        × (port split_host_port atoi parse_ip a ≡ p)
  unfolding network_address host port second
  parts a t n ip p s v full hp = (ground arith, ground arith, ground arith)

  piece_facts :
      (t n ip p : Bytes)
      → split_host_port n ≡ some (ip, p)
      → valid_pieces split_host_port atoi parse_ip (t ∷ n ∷ []) ≡ true
      → ((to_conn_type t == invalid_conn_type) ≡ false)
        × (is_port (atoi p) ≡ true)
        × ((ip == localhost || parse_ip ip) ≡ true)
  unfolding valid_pieces
  piece_facts t n ip p hp v = (ground arith, ground arith, ground arith)

  pieces :
      (vs : List Bytes)
      → valid_pieces split_host_port atoi parse_ip vs ≡ true
      → (t : Bytes) × (n : Bytes) × (ip : Bytes) × (p : Bytes) × (k : ℕ) × (vs ≡ t ∷ n ∷ [])
        × ((to_conn_type t == invalid_conn_type) ≡ false)
        × IsNetwork n ip p k
  unfolding valid_pieces
  pieces [] v = ground arith
  pieces (t ∷ []) v = ground arith
  pieces (t ∷ n ∷ u ∷ vs) v = ground arith
  pieces (t ∷ n ∷ []) v = elim (Option-cases (split_host_port n)) [
    | inl bad ↦ ground arith
    | inr ((ip, p), hp) ↦
        let (ty, number, known) = piece_facts t n ip p hp v in
        let (k, at, small) = is_port_lem (atoi p) number in
        (
          t,
          n,
          ip,
          p,
          k,
          refl,
          ty,
          record { splits = hp; number = at; small = small; known = known },
        )
  ]

  -- A valid address has a known type, and its port is a number from 0 to 65535.
  pub valid-port :
      (a : Address)
      → split_host_port [] ≡ none
      → valid split_host_port atoi parse_ip a ≡ true
      → (conn_type a ≢ invalid_conn_type)
        × (k : ℕ) × (atoi (port split_host_port atoi parse_ip a) ≡ some (pos k))
        × (k ≤ 65535)
  valid-port a empty v =
      let (t, n, ip, p, k, s, ty, net) = pieces (split a type_address_sep) (unfold valid in v) in
      let at = parts a t n ip p s v (never_empty empty net) net.splits in
      (
        λ h. ground (arith, conn_type_of a t (n ∷ []) s, ==_iff (to_conn_type t) invalid_conn_type),
        k,
        rw (at.2) net.number,
        net.small,
      )
