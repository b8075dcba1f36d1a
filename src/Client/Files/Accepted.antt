-- ===== src/Client/Files/Accepted.antt =====
-- client/file.go: which URLs are fetched, and by whom.
use mulsigo.Prelude.{
  Result, err, ℕ, ◌≡◌, ◌≢◌, ◌⊎◌, ◌↔◌, inl, inr, refl, sym, ap, ◌∙◌, true, false, none, some, [],
  ◌∷◌, ◌++◌, Bytes, All, Bool-cases, Option-cases, ==_iff, ==_refl, nat_eq, arith, subst,
}
use mulsigo.Client.Files.{
  is_lower, is_word_char, starts_two_lower, starts_host_rest, starts_host, after_prefix,
  http_slashes, https_slashes, Error, cannot_fetch, find_file_fetcher, initial_fetchers,
  new_http_fetcher, http_grab, host_behind, starts_url, http_accept,
}

-- A URL of the form that the fetcher looks for, at its beginning.
pub record IsUrl (s : Bytes) : Type 0 where
  pub scheme : Bytes
  pub word : Bytes
  pub a : ℕ
  pub b : ℕ
  pub rest : Bytes
  pub is_scheme : (scheme ≡ http_slashes) ⊎ (scheme ≡ https_slashes)
  pub some_word : word ≢ []
  pub word_chars : All (λ c. is_word_char c ≡ true) word
  pub lower_a : is_lower a ≡ true
  pub lower_b : is_lower b ≡ true
  pub parts : s ≡ scheme ++ (word ++ b'.' ∷ a ∷ b ∷ rest)

short_host : (c a : ℕ) → starts_host_rest (c ∷ a ∷ []) ≢ true
unfolding starts_host_rest starts_two_lower
short_host c a h = ground (arith, h)

host_rest_lem :
    (s : Bytes)
    → starts_host_rest s ≡ true
    → (word : Bytes) × (a : ℕ) × (b : ℕ) × (rest : Bytes) × All (λ c. is_word_char c ≡ true) word
      × (is_lower a ≡ true)
      × (is_lower b ≡ true)
      × (s ≡ word ++ b'.' ∷ a ∷ b ∷ rest)
unfolding starts_host_rest starts_two_lower
host_rest_lem [] h = ground (arith, h)
host_rest_lem (c ∷ []) h = ground (arith, h)
host_rest_lem (c ∷ a ∷ []) h = absurd (short_host c a h)
host_rest_lem (c ∷ a ∷ b ∷ s) h = elim (Bool-cases (is_word_char c)) [
  | inl is_char ↦
      let (word, x, y, rest, chars, lx, ly, e) =
        host_rest_lem (a ∷ b ∷ s) (ground (arith, h, is_char)) in
      (c ∷ word, x, y, rest, (is_char, chars), lx, ly, ap (◌∷◌ c) e)
  | inr no_char ↦ (
    [],
    a,
    b,
    s,
    tt,
    ground (arith, h, no_char),
    ground (arith, h, no_char),
    ground (arith, h, no_char, ==_iff c b'.'),
  )
]

rest_host :
    (word : Bytes) (a b : ℕ) (rest : Bytes)
    → All (λ c. is_word_char c ≡ true) word
    → is_lower a ≡ true
    → is_lower b ≡ true
    → starts_host_rest (word ++ b'.' ∷ a ∷ b ∷ rest) ≡ true
unfolding starts_host_rest starts_two_lower
rest_host [] a b rest chars la lb = unfold is_word_char is_lower in ground (arith, la, lb)
rest_host (c ∷ word) a b rest chars la lb =
    ground (arith, chars.0, rest_host word a b rest chars.1 la lb)

after_prefix_lem : (p s : Bytes) {r : Bytes} → after_prefix p s ≡ some r → s ≡ p ++ r
unfolding after_prefix
after_prefix_lem [] s e = ground (arith, e)
after_prefix_lem (c ∷ p) [] e = ground (arith, e)
after_prefix_lem (c ∷ p) (d ∷ s) {r} e = ground (arith, e, ==_iff c d, after_prefix_lem p s {r = r})

after_own : (p r : Bytes) → after_prefix p (p ++ r) ≡ some r
unfolding after_prefix
after_own [] r = refl
after_own (c ∷ p) r = ground (arith, ==_refl c, after_own p r)

found_parts :
    (p s : Bytes) (c : ℕ) (r word : Bytes) (a b : ℕ) (rest : Bytes)
    → (p ≡ http_slashes) ⊎ (p ≡ https_slashes)
    → s ≡ p ++ c ∷ r
    → r ≡ word ++ b'.' ∷ a ∷ b ∷ rest
    → is_word_char c ≡ true
    → All (λ x. is_word_char x ≡ true) word
    → is_lower a ≡ true
    → is_lower b ≡ true
    → IsUrl s
found_parts p s c r word a b rest known begins is_r is_char chars la lb = record {
  scheme = p;
  word = c ∷ word;
  a = a;
  b = b;
  rest = rest;
  is_scheme = known;
  some_word = λ x. ground (arith, x);
  word_chars = (is_char, chars);
  lower_a = la;
  lower_b = lb;
  parts = begins ∙ ap (λ x. p ++ c ∷ x) is_r;
}

host_behind_lem :
    (p s : Bytes) → (p ≡ http_slashes) ⊎ (p ≡ https_slashes) → host_behind p s ≡ true → IsUrl s
unfolding host_behind starts_host
host_behind_lem p s known h = elim (Option-cases (after_prefix p s)) [
  | inl other ↦ ground (arith, h, other)
  | inr ([], e) ↦ ground (arith, h, e)
  | inr (c ∷ r, e) ↦
      let (word, a, b, rest, chars, la, lb, is_r) = host_rest_lem r (ground (arith, h, e)) in
      found_parts p s c r word a b rest known (after_prefix_lem p s e) is_r (ground (arith, h, e))
        chars la lb
]

host_behind_url :
    (p word : Bytes) (a b : ℕ) (rest : Bytes)
    → word ≢ []
    → All (λ c. is_word_char c ≡ true) word
    → is_lower a ≡ true
    → is_lower b ≡ true
    → host_behind p (p ++ (word ++ b'.' ∷ a ∷ b ∷ rest)) ≡ true
unfolding host_behind starts_host
host_behind_url p [] a b rest w chars la lb = absurd (w refl)
host_behind_url p (c ∷ word) a b rest w chars la lb = ground (
  arith,
  after_own p (c ∷ word ++ b'.' ∷ a ∷ b ∷ rest),
  chars.0,
  rest_host word a b rest chars.1 la lb,
)

starts_url_lem : (s : Bytes) → (starts_url s ≡ true) ↔ IsUrl s
unfolding starts_url
starts_url_lem s = (
  λ h. elim (Bool-cases (host_behind http_slashes s)) [
    | inl plain ↦ host_behind_lem http_slashes s (inl refl) plain
    | inr other ↦ host_behind_lem https_slashes s (inr refl) (ground (arith, h, other))
  ],
  λ u.
      let there =
        subst (λ x. host_behind u.scheme x ≡ true) (sym u.parts)
          (host_behind_url u.scheme u.word u.a u.b u.rest u.some_word u.word_chars u.lower_a
            u.lower_b) in
      elim u.is_scheme [
        | inl plain ↦
            let here : host_behind http_slashes s ≡ true =
              subst (λ x. host_behind x s ≡ true) plain there in
            ground (arith, here)
        | inr secure ↦
            let here : host_behind https_slashes s ≡ true =
              subst (λ x. host_behind x s ≡ true) secure there in
            ground (arith, here)
      ],
)

-- A URL of that form somewhere in the text.
abbrev pub Contains : Bytes → Type 0
Contains text = (before : Bytes) × (s : Bytes) × (text ≡ before ++ s) × IsUrl s

nothing_in_nil : ¬ IsUrl []
nothing_in_nil u = elim u.is_scheme [
  | inl plain ↦ ground (arith, u.parts, plain)
  | inr secure ↦ ground (arith, u.parts, secure)
]

accepted_part : (text : Bytes) → http_accept text ≡ true → Contains text
unfolding http_accept
accepted_part [] h = ground (arith, h)
accepted_part (c ∷ text) h = elim (Bool-cases (starts_url (c ∷ text))) [
  | inl at_start ↦ ([], c ∷ text, refl, (starts_url_lem (c ∷ text)).0 at_start)
  | inr later ↦
      let (before, s, e, u) = accepted_part text (ground (arith, h, later)) in
      (c ∷ before, s, ap (◌∷◌ c) e, u)
]

accept_from : (before s : Bytes) → IsUrl s → http_accept (before ++ s) ≡ true
unfolding http_accept
accept_from [] [] u = absurd (nothing_in_nil u)
accept_from [] (c ∷ s) u = ground (arith, (starts_url_lem (c ∷ s)).1 u)
accept_from (c ∷ before) s u = ground (arith, accept_from before s u)

refused_again :
    (text before s : Bytes)
    → IsUrl s
    → http_accept text ≡ http_accept (before ++ s)
    → http_accept text ≢ false
refused_again text before s u same refused = ground (arith, accept_from before s u, same, refused)

-- At the start there is one fetcher. Either a text has somewhere in it `http://` or `https://`, then
-- letters, digits and underscores, a dot and two small letters; then that fetcher is found and
-- fetches it. Or it has not; then no fetcher is found, and the fetcher itself refuses the text.
pub find_file_fetcher_lem :
    (get : Bytes → Result Error Bytes) (text : Bytes)
    → let found = find_file_fetcher (initial_fetchers get) text in
      (Contains text × (found ≡ some (new_http_fetcher get)) × (http_grab get text ≡ get text))
      ⊎ ((¬ Contains text) × (found ≡ none) × (http_grab get text ≡ err (cannot_fetch text)))
unfolding find_file_fetcher initial_fetchers http_grab
find_file_fetcher_lem get text = elim (Bool-cases (http_accept text)) [
  | inl accepted ↦ inl (accepted_part text accepted, rw accepted refl, ground (arith, accepted))
  | inr refused ↦ inr (
    λ (before, s, is_text, u). refused_again text before s u (ap http_accept is_text) refused,
    rw refused refl,
    ground (arith, refused),
  )
]
