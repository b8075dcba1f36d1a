-- ===== src/Network/Host/Binding.antt =====
-- network/tcp.go and network/struct.go: which address a TCP listener binds to.
use mulsigo.Prelude.{
  ℕ, zero, suc, ◌+◌, ◌≡◌, ◌≢◌, refl, Bool, Option, none, some, List, [], ◌∷◌, ◌++◌, Bytes, length,
  Result, ◌==◌, ==_refl, ==_iff, Bool-cases, if◌then◌else◌, list_eq, nat_eq, arith, append-nil,
  append_assoc, ap, sym, inl, inr,
}
use mulsigo.Relay.Message.{Address}
use mulsigo.Network.Frame.{max_retry_connect, has_prefix}
use mulsigo.Network.Address.{ℤ, split, split_from, conn_type, network_address, plain_tcp}
use mulsigo.Network.Host.{
  any_host, bound_to, global_bind, or_empty, retry_loop, bind_tcp_listener, host_result,
}

abbrev colon : Bytes
colon = b':' ∷ []

-- How many colons stand in a text.
unfoldable pub colons : Bytes → ℕ
colons [] = 0
colons (c ∷ s) = if b':' == c then suc (colons s) else colons s

length-split_from : (piece s : Bytes) → length (split_from colon zero piece s) ≡ suc (colons s)
unfolding split_from colons has_prefix
length-split_from piece [] = refl
length-split_from piece (c ∷ s) =
    ground (arith, length-split_from [] s, length-split_from (piece ++ c ∷ []) s)

split_from_last :
    (piece s : Bytes) → colons s ≡ 0 → split_from colon zero piece s ≡ (piece ++ s) ∷ []
unfolding split_from colons has_prefix
split_from_last piece [] h = ap (λ q. q ∷ []) (sym (append-nil piece))
split_from_last piece (c ∷ s) h =
    ground (arith, append_assoc piece (c ∷ []) s, split_from_last (piece ++ c ∷ []) s)

split_from_two :
    (piece h p : Bytes)
    → colons h ≡ 0
    → colons p ≡ 0
    → split_from colon zero piece (h ++ b':' ∷ p) ≡ (piece ++ h) ∷ p ∷ []
unfolding split_from colons has_prefix
split_from_two piece [] p e k = ground (arith, append-nil piece, split_from_last [] p k)
split_from_two piece (c ∷ h) p e k =
    ground (arith, append_assoc piece (c ∷ []) h, split_from_two (piece ++ c ∷ []) h p)

bound_nowhere : (vs : List Bytes) → length vs ≢ 2 → bound_to vs ≡ none
unfolding bound_to
bound_nowhere [] h = refl
bound_nowhere (a ∷ []) h = refl
bound_nowhere (a ∷ b ∷ []) h = absurd (h refl)
bound_nowhere (a ∷ b ∷ c ∷ vs) h = refl

colons_append : (h p : Bytes) → colons (h ++ b':' ∷ p) ≡ suc (colons h + colons p)
unfolding colons
colons_append [] p = omega arith
colons_append (c ∷ h) p = ground (arith, colons_append h p)

global_bind_lem :
    (h p : Bytes)
    → colons p ≡ 0
    → global_bind (h ++ b':' ∷ p) ≡ (if colons h == 0 then some (any_host ++ p) else none)
unfolding global_bind split bound_to
global_bind_lem h p k = elim (Bool-cases (colons h == 0)) [
  | inl e ↦ rw (e, split_from_two [] h p ((==_iff (colons h) 0).0 e) k) refl
  | inr e ↦ rw e (
      bound_nowhere (split_from colon zero [] (h ++ b':' ∷ p))
        (λ two. ground (arith, two, e, length-split_from [] (h ++ b':' ∷ p), colons_append h p, k)))
]

module _ (split_host_port : Bytes → Option (Bytes × Bytes)) (atoi : Bytes → Option ℤ)
    (parse_ip : Bytes → Bool) where
  -- A listener for a TCP address is bound to its port on all interfaces, if its host has no colon. If
  -- the host has colons, as an IPv6 address does, then it asks the system for the empty address,
  -- without an error.
  pub bind_tcp_listener_lem :
      {E A : Type 0} (listen : Bytes → ℕ → Result E A) (addr : Address) (h p : Bytes)
      → conn_type addr ≡ plain_tcp
      → network_address split_host_port atoi parse_ip addr ≡ h ++ b':' ∷ p
      → colons p ≡ 0
      → bind_tcp_listener split_host_port atoi parse_ip listen addr
        ≡ host_result
            (retry_loop max_retry_connect 0 (listen (if colons h == 0 then any_host ++ p else [])))
  unfolding bind_tcp_listener or_empty
  bind_tcp_listener_lem listen addr h p t n k =
      ground (arith, ==_refl plain_tcp, t, n, global_bind_lem h p k)
