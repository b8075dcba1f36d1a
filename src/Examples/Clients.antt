-- ===== src/Examples/Clients.antt =====
-- client/keys.go, client/router.go, client/dkg.go and client/file.go at concrete inputs.
use mulsigo.Client.Files.{
  http_accept, starts_url, host_behind, after_prefix, starts_host, starts_host_rest,
  starts_two_lower, is_word_char, is_lower, find_file_fetcher, initial_fetchers, new_http_fetcher,
  http_grab, cannot_fetch,
}
use mulsigo.Client.Files.Accepted.{Contains, find_file_fetcher_lem}
use mulsigo.Prelude.{
  ◌⊎◌, false, err, ℕ, ◌≡◌, refl, Bool, not, none, some, List, [], ◌∷◌, Bytes, arith, ok, list_eq,
  nat_eq,
}
use mulsigo.Client.Identity.{compare_strings, channel_id}
use mulsigo.Client.Identity.Laws.{channel_id_symmetric, channel_id_collides}
use mulsigo.Client.Router.{new_router}
use mulsigo.Client.Router.Laws.{Attempt, send_all, count_opens, send_all-opens}

abbrev key : Bytes
key = 1 ∷ 2 ∷ 3 ∷ 4 ∷ 5 ∷ 6 ∷ 7 ∷ 171 ∷ 9 ∷ []

-- Identifiers of 16 characters that end in the given one.
abbrev name : ℕ → Bytes
name c = 0 ∷ 0 ∷ 0 ∷ 0 ∷ 0 ∷ 0 ∷ 0 ∷ 0 ∷ 0 ∷ 0 ∷ 0 ∷ 0 ∷ 0 ∷ 0 ∷ 0 ∷ c ∷ []

channel_id_symmetric_example :
    (c : Bytes) × (first : Bool) × (channel_id (λ s. s) (name 1) (name 2) ≡ some (c, first))
    × (channel_id (λ s. s) (name 2) (name 1) ≡ some (c, not first))
channel_id_symmetric_example =
    channel_id_symmetric (λ s. s) (name 1) (name 2) refl refl (λ h. ground arith)

channel_id_collides_example :
    channel_id (λ s. s) (name 1) (name 3) ≡ channel_id (λ s. s) (name 2) (name 3)
unfolding compare_strings
channel_id_collides_example =
    channel_id_collides (λ s. s) (name 1) (name 2) (name 3) refl refl refl refl refl

abbrev attempt : Attempt
attempt = record { remote = key; opened = ok 4; encoded = ok (1 ∷ []); sent = none }

send_all-opens_example : count_opens (send_all new_router (attempt ∷ attempt ∷ [])).1 ≡ 2
send_all-opens_example = (send_all-opens (attempt ∷ attempt ∷ [])).0

abbrev people : List Bytes
people = name 1 ∷ name 2 ∷ name 3 ∷ name 4 ∷ []

-- A host with a dash is not found, since the text before the dot has a dash in it.
dash_refused :
    http_accept (
      b'h' ∷ b't' ∷ b't' ∷ b'p' ∷ b':' ∷ b'/' ∷ b'/' ∷ b'a' ∷ b'-' ∷ b'b' ∷ b'.' ∷ b'c' ∷ b'o'
      ∷ b'm' ∷ [])
    ≡ false
unfolding http_accept starts_url host_behind after_prefix starts_host starts_host_rest
    starts_two_lower is_word_char is_lower
dash_refused = refl

abbrev plain_url : Bytes
plain_url =
    b's' ∷ b'e' ∷ b'e' ∷ b' ' ∷ b'h' ∷ b't' ∷ b't' ∷ b'p' ∷ b':' ∷ b'/' ∷ b'/' ∷ b'a' ∷ b'b' ∷ b'.'
    ∷ b'i' ∷ b'o' ∷ b'/' ∷ b'x' ∷ []

find_file_fetcher_lem_example :
    let found = find_file_fetcher (initial_fetchers (λ u. ok u)) plain_url in
    (Contains plain_url
      × (found ≡ some (new_http_fetcher (λ u. ok u)))
      × (http_grab (λ u. ok u) plain_url ≡ ok plain_url))
    ⊎ ((¬ Contains plain_url)
        × (found ≡ none)
        × (http_grab (λ u. ok u) plain_url ≡ err (cannot_fetch plain_url)))
find_file_fetcher_lem_example = find_file_fetcher_lem (λ u. ok u) plain_url
