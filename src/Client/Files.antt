-- ===== src/Client/Files.antt =====
-- client/file.go: fetching a file from a URL. The HTTP client is a parameter.
pub mod Accepted
use mulsigo.Prelude.{
  ℕ, Bool, true, false, ◌&&◌, ◌||◌, Option, none, some, List, [], ◌∷◌, ◌++◌, Bytes, Result, ok, err,
  ◌>>=◌, leb, ◌==◌, if◌then◌else◌, nat_eq,
}

-- The errors of a fetch: the URL is not accepted, or an error of the HTTP client, by a number.
pub data Error : Type 0 where
  cannot_fetch : Bytes → Error
  http_error : ℕ → Error

pub record FileFetcher : Type 0 where
  pub accept : Bytes → Bool
  pub grab : Bytes → Result Error Bytes

unfoldable pub register_file_fetcher : List FileFetcher → FileFetcher → List FileFetcher
register_file_fetcher fetchers ff = fetchers ++ ff ∷ []

-- `none` is nil.
unfoldable pub find_file_fetcher : List FileFetcher → Bytes → Option FileFetcher
find_file_fetcher [] url = none
find_file_fetcher (ff ∷ fetchers) url =
    let rest = find_file_fetcher fetchers url in if ff.accept url then some ff else rest

-- The parts of the expression `https?://\w+\.[a-z]{2,15}`, which may match anywhere.
unfoldable pub is_lower : ℕ → Bool
is_lower c = leb b'a' c && leb c b'z'

unfoldable pub is_word_char : ℕ → Bool
unfolding is_lower
is_word_char c = is_lower c || (leb b'A' c && leb c b'Z') || (leb b'0' c && leb c b'9') || c == b'_'

unfoldable pub starts_two_lower : Bytes → Bool
unfolding is_lower
starts_two_lower (a ∷ b ∷ s) = is_lower a && is_lower b
starts_two_lower (a ∷ []) = false
starts_two_lower [] = false

-- `\w*\.[a-z]{2,15}`: a dot is no character of a word.
unfoldable pub starts_host_rest : Bytes → Bool
unfolding is_word_char starts_two_lower
starts_host_rest [] = false
starts_host_rest (c ∷ s) =
    let rest = starts_host_rest s in
    if is_word_char c then rest else c == b'.' && starts_two_lower s

unfoldable pub starts_host : Bytes → Bool
unfolding is_word_char starts_host_rest
starts_host [] = false
starts_host (c ∷ s) = is_word_char c && starts_host_rest s

-- What stands behind a given text, if it begins with that.
unfoldable pub after_prefix : Bytes → Bytes → Option Bytes
after_prefix [] s = some s
after_prefix (c ∷ p) [] = none
after_prefix (c ∷ p) (d ∷ s) = let rest = after_prefix p s in if c == d then rest else none

abbrev pub http_slashes : Bytes
http_slashes = b'h' ∷ b't' ∷ b't' ∷ b'p' ∷ b':' ∷ b'/' ∷ b'/' ∷ []

abbrev pub https_slashes : Bytes
https_slashes = b'h' ∷ b't' ∷ b't' ∷ b'p' ∷ b's' ∷ b':' ∷ b'/' ∷ b'/' ∷ []

unfoldable pub host_behind : Bytes → Bytes → Bool
unfolding after_prefix starts_host
host_behind p s = elim (after_prefix p s) [ none ↦ false | some r ↦ starts_host r ]

unfoldable pub starts_url : Bytes → Bool
unfolding host_behind
starts_url s = host_behind http_slashes s || host_behind https_slashes s

-- `Accept` of the HTTP fetcher.
unfoldable pub http_accept : Bytes → Bool
unfolding starts_url
http_accept [] = false
http_accept (c ∷ s) = let rest = http_accept s in starts_url (c ∷ s) || rest

-- `Grab`, over the request and the reading of the answer's body.
unfoldable pub http_grab : (Bytes → Result Error Bytes) → Bytes → Result Error Bytes
unfolding http_accept
http_grab get url = if http_accept url then get url else err (cannot_fetch url)

unfoldable pub new_http_fetcher : (Bytes → Result Error Bytes) → FileFetcher
unfolding http_grab
new_http_fetcher get = record { accept = http_accept; grab = http_grab get }

-- `init`.
unfoldable pub initial_fetchers : (Bytes → Result Error Bytes) → List FileFetcher
unfolding register_file_fetcher new_http_fetcher
initial_fetchers get = register_file_fetcher [] (new_http_fetcher get)
