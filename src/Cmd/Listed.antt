-- ===== src/Cmd/Listed.antt =====
-- cmd/local.go and cmd/list.go: which names a key can have, and that a key that is made is listed.
use mulsigo.Prelude.{
  ℕ, ◌≡◌, ◌≢◌, refl, true, none, some, [], ◌∷◌, ◌++◌, Bytes, All, arith, ==_refl, ==_ne, sym, ◌∙◌,
  lookup, insert, lookup-insert, list_eq, nat_eq,
}
use mulsigo.Util.Config.{Config, path, Disk, System, write, read}
use mulsigo.Util.Config.Files.{made, made_there, made_files, written, found}
use mulsigo.Util.Base64.RoundTrip.{IsByte}
use mulsigo.Client.Keys.{
  Identity, Private, PrivateToml, IdentityToml, private_to_toml, to_toml, repr,
}
use mulsigo.Client.Keys.Saved.{private_from_toml_lem, from_toml_lem}
use mulsigo.Cmd.{
  secret_file, identity_file, is_name_char, all_name_chars, is_name, remove_spaces, process, Toml,
  key_config, save_key, generate_key, no_private, no_identity, read_private, read_identity,
  list_key, loaded, saved, no_error,
}

-- No space, no separator of paths and no dot.
abbrev pub IsPlain : ℕ → Type 0
IsPlain c = (c ≢ b' ') × (c ≢ b'/') × (c ≢ b'.')

separators_absent : (s : Bytes) → all_name_chars s ≡ true → All IsPlain s
unfolding all_name_chars is_name_char
separators_absent [] h = tt
separators_absent (c ∷ s) h =
    ((λ e. ground arith, λ e. ground arith, λ e. ground arith), separators_absent s (ground arith))

name_keeps : (s : Bytes) → all_name_chars s ≡ true → remove_spaces s ≡ s
unfolding all_name_chars remove_spaces is_name_char
name_keeps [] h = refl
name_keeps (c ∷ s) h = ground (arith, name_keeps s)

process_gives :
    (name n : Bytes) → process name ≡ some n → (remove_spaces name ≡ n) × (is_name n ≡ true)
unfolding process
process_gives name n h = ground arith

is_name_chars : (n : Bytes) → is_name n ≡ true → (n ≢ []) × (all_name_chars n ≡ true)
unfolding is_name
is_name_chars [] h = ground arith
is_name_chars (c ∷ s) h = (λ e. ground arith, h)

process_name : (n : Bytes) → is_name n ≡ true → process n ≡ some n
unfolding process
process_name n h = rw (name_keeps n (is_name_chars n h).1, h) refl

-- A name that a key can have is not empty, has no space, no separator of paths and no dot in it,
-- and is taken as it is.
pub process_lem :
    (name n : Bytes) → process name ≡ some n → (n ≢ []) × All IsPlain n × (process n ≡ some n)
process_lem name n h =
    let good = (process_gives name n h).1 in
    let (some_char, chars) = is_name_chars n good in
    (some_char, separators_absent n chars, process_name n good)

module _ (sys : System) (toml : Toml) where
  open sys use {join, stat_error, mkdir_error, open_error, read_error}
  open toml use {print_private, print_identity, parse_private, parse_identity}

  saved_key :
      (d d1 d2 : Disk) (c : Config) (p : Private) (i : Identity)
      → write sys d c secret_file (print_private (private_to_toml p)) none ≡ some (d1, none)
      → write sys d1 c identity_file (print_identity (to_toml i)) none ≡ some (d2, none)
      → save_key sys toml d c p i ≡ some d2
  saved_key d d1 d2 c p i w1 w2 = unfold save_key saved in ground (arith, w1, w2)

  pub private_back :
      (d : Disk) (c : Config) (p : Private) (text : Bytes)
      → All IsByte p.seed
      → parse_private text ≡ some (private_to_toml p)
      → read sys d c secret_file ≡ some (d, some text, none)
      → read_private sys toml d c ≡ some (d, record p { public = none })
  private_back d c p text seed parsed r =
      unfold read_private loaded no_error in
      ground (arith, r, parsed, private_from_toml_lem p (no_private sys toml) seed)

  pub identity_back :
      (d : Disk) (c : Config) (i : Identity) (text : Bytes)
      → All IsByte i.key
      → All IsByte i.signature
      → parse_identity text ≡ some (to_toml i)
      → read sys d c identity_file ≡ some (d, some text, none)
      → read_identity sys toml d c ≡ some (d, record i { created_at = 0 })
  identity_back d c i text key signature parsed r =
      unfold read_identity loaded no_error in
      ground (arith, r, parsed, from_toml_lem i (no_identity sys toml) key signature)

  pub listed :
      (d : Disk) (c : Config) (p : Private) (i : Identity)
      → read_private sys toml d c ≡ some (d, record p { public = none })
      → read_identity sys toml d c ≡ some (d, record i { created_at = 0 })
      → list_key sys toml d c ≡ some (d, repr i ++ b'\n' ∷ b'\n' ∷ [])
  listed d c p i r s = unfold list_key repr in ground (arith, r, s)

  generated :
      (d d' : Disk) (root_conf : Config) (name n : Bytes) (p : Private) (i : Identity)
      → process name ≡ some n
      → save_key sys toml d (key_config sys toml root_conf n) p i ≡ some d'
      → generate_key sys toml d root_conf name p i ≡ some d'
  generated d d' root_conf name n p i named kept = unfold generate_key in ground (arith, named)

  -- A key whose name is accepted is saved, and the list then shows what its identity prints, with
  -- the name and the public key, provided that no file operation fails, the two files have different
  -- paths, and TOML's parser reads back what its printer has printed.
  pub list_key-generate_key :
      (d : Disk) (root_conf : Config) (name n : Bytes) (p : Private) (i : Identity)
      → process name ≡ some n
      → All IsByte p.seed
      → All IsByte i.key
      → All IsByte i.signature
      → ((q : Bytes) → stat_error q ≡ none)
      → ((q : Bytes) → mkdir_error q ≡ none)
      → ((q : Bytes) → open_error q ≡ none)
      → ((q : Bytes) → read_error q ≡ none)
      → ((q : Bytes) → join q secret_file ≢ join q identity_file)
      → ((t : PrivateToml) → parse_private (print_private t) ≡ some t)
      → ((t : IdentityToml) → parse_identity (print_identity t) ≡ some t)
      → (d' : Disk) × (generate_key sys toml d root_conf name p i ≡ some d')
        × (list_key sys toml d' (key_config sys toml root_conf n)
            ≡ some (d', repr i ++ b'\n' ∷ b'\n' ∷ []))
  list_key-generate_key d root_conf name n p i named seed key signature st mk op rd differ pp pi =
      let c = key_config sys toml root_conf n in
      let at = path c in
      let p1 = join at secret_file in
      let p2 = join at identity_file in
      let t1 = print_private (private_to_toml p) in
      let t2 = print_identity (to_toml i) in
      let m1 = made sys d at in
      let d1 : Disk = record m1 { files = insert p1 t1 m1.files } in
      let m2 = made sys d1 at in
      let d2 : Disk = record m2 { files = insert p2 t2 m2.files } in
      let w1 = written sys d c secret_file t1 (st at) (mk at) (op p1) in
      let w2 = written sys d1 c identity_file t2 (st at) (mk at) (op p2) in
      let there = made_there sys d1 at p2 t2 in
      let kept : lookup p1 d2.files ≡ some t1 = ground (
        arith,
        lookup-insert p2 p1 t2 m2.files,
        ==_ne p2 p1 (λ e. differ at (sym e)),
        made_files sys d1 at,
        lookup-insert p1 p1 t1 m1.files,
        ==_refl p1,
      ) in
      let last : lookup p2 d2.files ≡ some t2 =
        lookup-insert p2 p2 t2 m2.files ∙ rw (==_refl p2) refl in
      let r1 = found sys d2 c secret_file t1 (st at) (st p1) (rd p1) there kept in
      let r2 = found sys d2 c identity_file t2 (st at) (st p2) (rd p2) there last in
      (
        d2,
        generated d d2 root_conf name n p i named (saved_key d d1 d2 c p i w1 w2),
        listed d2 c p i (private_back d2 c p t1 seed (pp (private_to_toml p)) r1)
            (identity_back d2 c i t2 key signature (pi (to_toml i)) r2),
      )
