-- ===== src/Examples/Addresses.antt =====
-- network/address.go at concrete inputs, with parsers that read a host and a port of digits.
use mulsigo.Prelude.{
  ℕ, ◌+◌, ◌*◌, ◌-◌, ◌≡◌, refl, Bool, true, false, Option, none, some, [], ◌∷◌, ◌++◌, Bytes, ◌==◌,
  if◌then◌else◌, list_eq, nat_eq, list_beq,
}
use mulsigo.Network.Frame.{has_prefix}
use mulsigo.Network.Address.{
  ℤ, pos, plain_tcp, localhost, new_address, network_address, is_public, is_private, valid,
  valid_pieces, second, is_port, split, split_from, to_conn_type,
}

-- The host before the first colon, and the port after it.
split_colon : Bytes → Option (Bytes × Bytes)
split_colon [] = none
split_colon (c ∷ s) =
    let rest = split_colon s in
    if c == b':' then some ([], s) else elim rest [ none ↦ none | some (h, p) ↦ some (c ∷ h, p) ]

read_digits : ℕ → Bytes → Option ℤ
read_digits n [] = some (pos n)
read_digits n (c ∷ s) = read_digits (10 * n + (c - b'0')) s

never : Bytes → Bool
never s = false

abbrev port_80 : Bytes
port_80 = b'8' ∷ b'0' ∷ []

abbrev web : Bytes
web = localhost ++ b':' ∷ port_80

-- tcp://localhost:80 is public, and tcp://10.0.0.4:80 is not.
localhost_run : is_public split_colon (read_digits 0) never (new_address plain_tcp web) ≡ true
unfolding is_public is_private network_address valid valid_pieces second is_port split split_from
    has_prefix new_address to_conn_type list_beq split_colon read_digits never
localhost_run = refl

abbrev ten : Bytes
ten = b'1' ∷ b'0' ∷ b'.' ∷ b'0' ∷ b'.' ∷ b'0' ∷ b'.' ∷ b'4' ∷ b':' ∷ port_80

private_run : is_public split_colon (read_digits 0) (λ s. true) (new_address plain_tcp ten) ≡ false
unfolding is_public is_private network_address valid valid_pieces second is_port split split_from
    has_prefix new_address to_conn_type list_beq split_colon read_digits
private_run = refl
