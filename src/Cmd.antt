-- ===== src/Cmd.antt =====
-- cmd/local.go and cmd/list.go: making a local identity and listing those that there are. The keys are
-- what client.NewPrivateIdentity gives; TOML's printer and parser are parameters.
pub mod Listed
pub mod Listing
use mulsigo.Prelude.{
  ℕ, Bool, true, false, ◌&&◌, ◌||◌, Option, none, some, List, [], ◌∷◌, ◌++◌, Bytes, Result, ok, err,
  leb, ◌==◌, if◌then◌else◌, nat_eq,
}
use mulsigo.Util.Config
use mulsigo.Util.Config.{Config, Disk, System, dir, write, read}
use mulsigo.Client.Keys.{
  Identity, Private, PrivateToml, IdentityToml, private_to_toml, private_from_toml, to_toml,
  from_toml, repr,
}

-- "identity", "secret.toml" and "public.toml"
abbrev pub identity_folder : Bytes
identity_folder = b'i' ∷ b'd' ∷ b'e' ∷ b'n' ∷ b't' ∷ b'i' ∷ b't' ∷ b'y' ∷ []

abbrev pub secret_file : Bytes
secret_file = b's' ∷ b'e' ∷ b'c' ∷ b'r' ∷ b'e' ∷ b't' ∷ b'.' ∷ b't' ∷ b'o' ∷ b'm' ∷ b'l' ∷ []

abbrev pub identity_file : Bytes
identity_file = b'p' ∷ b'u' ∷ b'b' ∷ b'l' ∷ b'i' ∷ b'c' ∷ b'.' ∷ b't' ∷ b'o' ∷ b'm' ∷ b'l' ∷ []

-- The expression `^[\w-_]+$`: `\w` is a letter of ASCII, a digit or `_`.
unfoldable pub is_name_char : ℕ → Bool
is_name_char c =
    (leb b'0' c && leb c b'9')
    || (leb b'A' c && leb c b'Z')
    || (leb b'a' c && leb c b'z')
    || c == b'_'
    || c == b'-'

unfoldable pub all_name_chars : Bytes → Bool
unfolding is_name_char
all_name_chars [] = true
all_name_chars (c ∷ s) = is_name_char c && all_name_chars s

unfoldable pub is_name : Bytes → Bool
unfolding all_name_chars
is_name [] = false
is_name (c ∷ s) = all_name_chars (c ∷ s)

-- strings.Replace of every " " by "".
unfoldable pub remove_spaces : Bytes → Bytes
remove_spaces [] = []
remove_spaces (c ∷ s) = let rest = remove_spaces s in if c == b' ' then rest else c ∷ rest

-- `process`; `none` is slog.Fatal.
unfoldable pub process : Bytes → Option Bytes
unfolding is_name remove_spaces
process name = let n = remove_spaces name in if is_name n then some n else none

-- The printer and the parser of TOML on the two forms.
pub record Toml : Type 0 where
  pub print_private : PrivateToml → Bytes
  pub print_identity : IdentityToml → Bytes
  pub parse_private : Bytes → Option PrivateToml
  pub parse_identity : Bytes → Option IdentityToml

-- `slog.ErrFatal` on the error of `Write`, of `Read` and of `FromToml`: `none` ends the program.
unfoldable pub saved : Option (Disk × Option Config.Error) → Option Disk
saved none = none
saved (some (d, some e)) = none
saved (some (d, none)) = some d

unfoldable pub loaded : Option (Disk × Option Bytes × Option Config.Error) → Option (Disk × Bytes)
loaded none = none
loaded (some (d, text, some e)) = none
loaded (some (d, none, none)) = none
loaded (some (d, some text, none)) = some (d, text)

unfoldable pub no_error : {A E : Type 0} → A × Option E → Option A
no_error (a, some e) = none
no_error (a, none) = some a

module _ (sys : System) (toml : Toml) where
  open toml use {print_private, print_identity, parse_private, parse_identity}

  -- The folder of a name.
  unfoldable pub key_config : Config → Bytes → Config
  unfolding dir
  key_config root_conf name = dir sys (dir sys root_conf identity_folder) name

  -- `generateKey`, whose `process` has given the name: the disk, or `none` if it ends the program.
  unfoldable pub save_key : Disk → Config → Private → Identity → Option Disk
  unfolding write saved
  save_key d c p i =
      elim (saved (write sys d c secret_file (print_private (private_to_toml p)) none)) [
        | none ↦ none
        | some d1 ↦ saved (write sys d1 c identity_file (print_identity (to_toml i)) none)
      ]

  unfoldable pub generate_key : Disk → Config → Bytes → Private → Identity → Option Disk
  unfolding process key_config save_key
  generate_key d root_conf name p i = elim (process name) [
    | none ↦ none
    | some n ↦ save_key d (key_config root_conf n) p i
  ]

  -- The zero values that `listLocalKeys` reads into.
  abbrev pub no_private : Private
  no_private = record { seed = []; public = none }

  abbrev pub no_identity : Identity
  no_identity = record { name = []; key = []; created_at = 0; signature = []; address = [] }

  unfoldable pub read_private : Disk → Config → Option (Disk × Private)
  unfolding read private_from_toml loaded no_error
  read_private d c = elim (loaded (read sys d c secret_file)) [
    | none ↦ none
    | some (d', text) ↦ elim (no_error (private_from_toml no_private (parse_private text))) [
      | none ↦ none
      | some p ↦ some (d', p)
    ]
  ]

  unfoldable pub read_identity : Disk → Config → Option (Disk × Identity)
  unfolding read from_toml loaded no_error
  read_identity d c = elim (loaded (read sys d c identity_file)) [
    | none ↦ none
    | some (d', text) ↦ elim (no_error (from_toml no_identity (parse_identity text))) [
      | none ↦ none
      | some i ↦ some (d', i)
    ]
  ]

  -- The body of the loop of `listLocalKeys`: what it prints for a folder; `none` ends the program.
  unfoldable pub list_key : Disk → Config → Option (Disk × Bytes)
  unfolding read_private read_identity repr
  list_key d c = elim (read_private d c) [
    | none ↦ none
    | some (d', p) ↦ elim (read_identity d' c) [
      | none ↦ none
      | some (d'', i) ↦ some (d'', repr i ++ b'\n' ∷ b'\n' ∷ [])
    ]
  ]
