-- ===== src/Network/Address.antt =====
-- network/address.go: an address is the type of the connection, "://", and a host with a port. The
-- parsers of the packages net and strconv are parameters.
pub mod Laws
use mulsigo.Prelude.{
  ℕ, zero, suc, ◌-◌, Bool, true, false, not, drop, ◌&&◌, ◌||◌, Option, none, some, List, [], ◌∷◌,
  ◌++◌, Bytes, length, leb, ◌==◌, if◌then◌else◌, list_eq, nat_eq,
}
use mulsigo.Relay.Message.{Address}
use mulsigo.Network.Frame.{has_prefix}

-- A Go int.
pub data ℤ : Type 0 where
  pos negsuc : ℕ → ℤ

-- A connection type is a string in the code, too.
abbrev pub ConnType : Type 0
ConnType = Bytes

abbrev pub plain_tcp : ConnType
plain_tcp = b't' ∷ b'c' ∷ b'p' ∷ []

abbrev pub tls : ConnType
tls = b't' ∷ b'l' ∷ b's' ∷ []

abbrev pub purb : ConnType
purb = b'p' ∷ b'u' ∷ b'r' ∷ b'b' ∷ []

abbrev pub local_type : ConnType
local_type = b'l' ∷ b'o' ∷ b'c' ∷ b'a' ∷ b'l' ∷ []

abbrev pub invalid_conn_type : ConnType
invalid_conn_type = b'i' ∷ b'n' ∷ b'v' ∷ b'a' ∷ b'l' ∷ b'i' ∷ b'd' ∷ []

-- "://"
abbrev pub type_address_sep : Bytes
type_address_sep = b':' ∷ b'/' ∷ b'/' ∷ []

abbrev pub localhost : Bytes
localhost = b'l' ∷ b'o' ∷ b'c' ∷ b'a' ∷ b'l' ∷ b'h' ∷ b'o' ∷ b's' ∷ b't' ∷ []

-- strings.Split by a separator that is not empty: `skip` bytes belong to a separator still, and
-- `piece` is what stands since the last one.
unfoldable pub split_from : Bytes → ℕ → Bytes → Bytes → List Bytes
split_from sep skip piece [] = piece ∷ []
split_from sep (suc k) piece (c ∷ s) = split_from sep k piece s
split_from sep zero piece (c ∷ s) =
    let cut = split_from sep (length sep - 1) [] s in
    let on = split_from sep zero (piece ++ c ∷ []) s in
    if has_prefix sep (c ∷ s) then piece ∷ cut else on

unfoldable pub split : Bytes → Bytes → List Bytes
unfolding split_from
split s sep = split_from sep zero [] s

unfoldable pub to_conn_type : Bytes → ConnType
to_conn_type t =
    if t == plain_tcp || t == tls || t == purb || t == local_type then t else invalid_conn_type

-- `vals[0]`; strings.Split gives one piece at least.
unfoldable pub first : List Bytes → Bytes
first [] = []
first (v ∷ vs) = v

-- The method `ConnType`.
unfoldable pub conn_type : Address → ConnType
unfolding split to_conn_type first
conn_type a = to_conn_type (first (split a type_address_sep))

unfoldable pub is_port : Option ℤ → Bool
is_port none = false
is_port (some (negsuc n)) = false
is_port (some (pos p)) = leb p 65535

unfoldable pub new_address : ConnType → Bytes → Address
new_address t network = t ++ type_address_sep ++ network

-- "127.", "10.", "172.", "192.168.", "169.254" and "[::]"
abbrev loopback_net : Bytes
loopback_net = b'1' ∷ b'2' ∷ b'7' ∷ b'.' ∷ []

abbrev ten_net : Bytes
ten_net = b'1' ∷ b'0' ∷ b'.' ∷ []

abbrev net_172 : Bytes
net_172 = b'1' ∷ b'7' ∷ b'2' ∷ b'.' ∷ []

abbrev net_192 : Bytes
net_192 = b'1' ∷ b'9' ∷ b'2' ∷ b'.' ∷ b'1' ∷ b'6' ∷ b'8' ∷ b'.' ∷ []

abbrev link_net : Bytes
link_net = b'1' ∷ b'6' ∷ b'9' ∷ b'.' ∷ b'2' ∷ b'5' ∷ b'4' ∷ []

abbrev unspecified_host : Bytes
unspecified_host = b'[' ∷ b':' ∷ b':' ∷ b']' ∷ []

-- `1[6-9]\.`, `2[0-9]\.` or `3[0-1]\.` at the start.
unfoldable pub in_172 : Bytes → Bool
in_172 (c ∷ d ∷ e ∷ s) =
    ((c == b'1' && leb b'6' d && leb d b'9')
      || (c == b'2' && leb b'0' d && leb d b'9')
      || (c == b'3' && leb b'0' d && leb d b'1'))
    && e == b'.'
in_172 _ = false

-- The regular expression of `Public`.
unfoldable pub is_private : Bytes → Bool
unfolding in_172
is_private n =
    has_prefix loopback_net n
    || has_prefix ten_net n
    || (has_prefix net_172 n && in_172 (drop 4 n))
    || has_prefix net_192 n
    || has_prefix link_net n
    || has_prefix unspecified_host n

-- net.SplitHostPort, strconv.Atoi, and whether net.ParseIP gives an address.
module _ (split_host_port : Bytes → Option (Bytes × Bytes)) (atoi : Bytes → Option ℤ)
    (parse_ip : Bytes → Bool) where
  -- `Valid`, on the pieces of the address.
  unfoldable pub valid_pieces : List Bytes → Bool
  unfolding to_conn_type is_port
  valid_pieces (t ∷ n ∷ []) =
      if to_conn_type t == invalid_conn_type then false else elim (split_host_port n) [
        | none ↦ false
        | some (ip, port) ↦ is_port (atoi port) && (ip == localhost || parse_ip ip)
      ]
  valid_pieces _ = false

  unfoldable pub valid : Address → Bool
  unfolding split valid_pieces
  valid a = valid_pieces (split a type_address_sep)

  -- `vals[1]` of a valid address.
  unfoldable pub second : List Bytes → Bytes
  second (t ∷ n ∷ vs) = n
  second _ = []

  unfoldable pub network_address : Address → Bytes
  unfolding valid second
  network_address a = if valid a then second (split a type_address_sep) else []

  unfoldable pub host : Address → Bytes
  unfolding network_address
  host a = if network_address a == [] then [] else elim (split_host_port (network_address a)) [
    | none ↦ []
    | some (h, p) ↦ if h == b':' ∷ b':' ∷ [] then b'[' ∷ b':' ∷ b':' ∷ b']' ∷ [] else h
  ]

  unfoldable pub port : Address → Bytes
  unfolding network_address
  port a =
      if network_address a == []
      then []
      else elim (split_host_port (network_address a)) [ none ↦ [] | some (h, p) ↦ p ]

  unfoldable pub is_public : Address → Bool
  unfolding network_address is_private
  is_public a = not (is_private (network_address a)) && valid a
