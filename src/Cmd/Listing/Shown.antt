-- ===== src/Cmd/Listing/Shown.antt =====
-- cmd/list.go: what the list shows.
use mulsigo.Prelude.{
  append-nil, ◌≡◌, ◌⊎◌, inl, inr, refl, ◌||◌, Bool, true, false, none, some, List, [], ◌∷◌, ◌++◌,
  Bytes, All, arith, lookup, has, list_eq, nat_eq, map, ok,
}
use mulsigo.Util.Config.{Config, path, dir, Disk, System}
use mulsigo.Util.Config.Files.{found}
use mulsigo.Util.Config.Listing.{Folders, list_dir}
use mulsigo.Util.Base64.RoundTrip.{IsByte}
use mulsigo.Client.Keys.{
  Identity, Private, PrivateToml, IdentityToml, private_to_toml, to_toml, repr,
}
use mulsigo.Cmd.{secret_file, identity_file, identity_folder, Toml, list_key}
use mulsigo.Cmd.Listed.{private_back, identity_back, listed}
use mulsigo.Cmd.Listing.{heading, Screen, list_loop, list_local_keys, list_command}

-- A key as it stands on the disk.
pub record Key : Type 0 where
  pub name : Bytes
  pub private : Private
  pub identity : Identity

-- What is printed for a key.
abbrev pub text_of : Key → Bytes
text_of k = repr k.identity ++ b'\n' ∷ b'\n' ∷ []

-- Whether no folder is left.
abbrev pub is_done : List Bytes → Bool
is_done [] = true
is_done (name ∷ names) = false

module _ (sys : System) (toml : Toml) (folders : Folders) where
  open sys use {join, stat_error, read_error}
  open toml use {print_private, print_identity, parse_private, parse_identity}

  -- The folder and both files of the key are on the disk.
  pub record IsStored (d : Disk) (c : Config) (k : Key) : Type 0 where
    pub seed_bytes : All IsByte k.private.seed
    pub key_bytes : All IsByte k.identity.key
    pub signature_bytes : All IsByte k.identity.signature
    pub folder :
        (has (path (dir sys c k.name)) d.files || has (path (dir sys c k.name)) d.folders) ≡ true
    pub secret :
        lookup (join (path (dir sys c k.name)) secret_file) d.files
        ≡ some (print_private (private_to_toml k.private))
    pub public :
        lookup (join (path (dir sys c k.name)) identity_file) d.files
        ≡ some (print_identity (to_toml k.identity))

  module _ (no_stat : (q : Bytes) → stat_error q ≡ none)
      (no_read : (q : Bytes) → read_error q ≡ none)
      (parse_p : (t : PrivateToml) → parse_private (print_private t) ≡ some t)
      (parse_i : (t : IdentityToml) → parse_identity (print_identity t) ≡ some t) where
    key_shown :
        (d : Disk) (c : Config) (k : Key)
        → IsStored d c k
        → list_key sys toml d (dir sys c k.name) ≡ some (d, text_of k)
    key_shown d c k s =
        let at = dir sys c k.name in
        let t1 = print_private (private_to_toml k.private) in
        let t2 = print_identity (to_toml k.identity) in
        let r1 =
          found sys d at secret_file t1 (no_stat (path at)) (no_stat (join (path at) secret_file))
            (no_read (join (path at) secret_file)) s.folder s.secret in
        let r2 =
          found sys d at identity_file t2 (no_stat (path at))
            (no_stat (join (path at) identity_file)) (no_read (join (path at) identity_file))
            s.folder s.public in
        listed sys toml d at k.private k.identity
          (private_back sys toml d at k.private t1 s.seed_bytes
            (parse_p (private_to_toml k.private)) r1)
          (identity_back sys toml d at k.identity t2 s.key_bytes s.signature_bytes
            (parse_i (to_toml k.identity)) r2)

    abbrev after_keys : List Key → Screen → Screen
    after_keys ks s = record s { shown = map text_of ks ++ s.shown }

    loop_shows :
        (d : Disk) (c : Config) (ks : List Key) (rest : List Bytes)
        → All (IsStored d c) ks
        → list_loop sys toml folders d c (map (λ k. k.name) ks ++ rest)
          ≡ after_keys ks (list_loop sys toml folders d c rest)
    unfolding list_loop
    loop_shows d c [] rest stored = refl
    loop_shows d c (k ∷ ks) rest stored =
        ground (arith, key_shown d c k stored.0, loop_shows d c ks rest stored.1)

    loop_stops :
        (d : Disk) (c : Config) (bad : Bytes) (more : List Bytes)
        → list_key sys toml d (dir sys c bad) ≡ none
        → list_loop sys toml folders d c (bad ∷ more)
          ≡ record { disk = d; shown = []; goes_on = false }
    unfolding list_loop
    loop_stops d c bad more e = ground (arith, e)

    rest_shows :
        (d : Disk) (c : Config) (rest : List Bytes)
        → (rest ≡ [])
          ⊎ ((bad : Bytes) × (more : List Bytes) × (rest ≡ bad ∷ more)
              × (list_key sys toml d (dir sys c bad) ≡ none))
        → list_loop sys toml folders d c rest
          ≡ record { disk = d; shown = []; goes_on = is_done rest }
    unfolding list_loop
    rest_shows d c rest (inl done) = rw done refl
    rest_shows d c rest (inr (bad, more, e, fails)) = rw e (loop_stops d c bad more fails)

    -- The command without `--dist`, when the folder of keys has at least one key, every file can be
    -- looked at and read, and TOML's parser reads back what its printer has printed. It shows the
    -- heading and then the keys, in the order of the folder: all of them, or those before the first
    -- folder whose key cannot be loaded, which ends the program.
    pub list_command_lem :
        (d : Disk) (root_conf : Config) (k : Key) (ks : List Key) (rest : List Bytes)
        (local_only : Bool)
        → list_dir sys folders (dir sys root_conf identity_folder)
          ≡ ok (k.name ∷ (map (λ x. x.name) ks ++ rest))
        → All (IsStored d (dir sys root_conf identity_folder)) (k ∷ ks)
        → (rest ≡ [])
          ⊎ ((bad : Bytes) × (more : List Bytes) × (rest ≡ bad ∷ more)
              × (list_key sys toml d (dir sys (dir sys root_conf identity_folder) bad) ≡ none))
        → list_command sys toml folders local_only false d root_conf
          ≡ record { disk = d; shown = heading ∷ map text_of (k ∷ ks); goes_on = is_done rest }
    unfolding list_command list_local_keys
    list_command_lem d root_conf k ks rest local_only names stored end =
        let c = dir sys root_conf identity_folder in
        ground (
          arith,
          names,
          loop_shows d c (k ∷ ks) rest stored,
          rest_shows d c rest end,
          append-nil (map text_of (k ∷ ks)),
        )
