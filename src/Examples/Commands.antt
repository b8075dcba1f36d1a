-- ===== src/Examples/Commands.antt =====
-- cmd/list.go, slog/log.go and old/pgp/keys.go at concrete inputs.
use mulsigo.Pgp.{GpgKeyInfo, batch, name_email, name_comment}
use mulsigo.Prelude.{
  ◌≡◌, refl, ap, true, false, none, some, List, [], ◌∷◌, ◌++◌, Bytes, ok, arith, inr, lookup,
  list_beq,
}
use mulsigo.Client.Keys.{private_to_toml, to_toml, repr}
use mulsigo.Util.Config.{root_config, Config, Disk, path, dir, read, create_folder, exists}
use mulsigo.Util.Config.Listing.{Folders, list_dir, only_dirs}
use mulsigo.Cmd.{secret_file, identity_file, identity_folder, list_key}
use mulsigo.Cmd.Listing.{heading, list_command}
use mulsigo.Cmd.Listing.Shown.{Key, IsStored, list_command_lem}
use mulsigo.Slog.{run, Fmt, new_logger, print, debug, fatal}
use mulsigo.Slog.Filter.{run_lem}
use mulsigo.Examples.Files.{plain, texts, someone, parse-print}

abbrev home : Config
home = root_config (1 ∷ [])

abbrev own_key : Key
own_key = record {
  name = b'm' ∷ b'e' ∷ [];
  private = record { seed = 8 ∷ []; public = none };
  identity = someone;
}

abbrev key_folder : Bytes
key_folder = 1 ∷ b'/' ∷ (identity_folder ++ b'/' ∷ own_key.name)

abbrev key_disk : Disk
key_disk = record {
  files =
      (key_folder ++ b'/' ∷ secret_file, texts.print_private (private_to_toml own_key.private))
      ∷ (key_folder ++ b'/' ∷ identity_file, texts.print_identity (to_toml someone))
      ∷ [];
  folders = (key_folder, true) ∷ (1 ∷ b'/' ∷ (identity_folder ++ b'/' ∷ b'x' ∷ []), true) ∷ [];
}

-- A key, a file, and a folder that holds no key.
abbrev entries : Folders
entries = record {
  glob = λ p. some [];
  split_path = λ p. ([], p);
  read_dir = λ p. ok ((own_key.name, true) ∷ (b'f' ∷ [], false) ∷ (b'x' ∷ [], true) ∷ []);
}

own_key-IsStored : IsStored plain texts entries key_disk (dir plain home identity_folder) own_key
unfolding dir path lookup list_beq
own_key-IsStored = record {
  seed_bytes = (omega arith, tt);
  key_bytes = (omega arith, tt);
  signature_bytes = (omega arith, tt);
  folder = refl;
  secret = refl;
  public = refl;
}

no_key_in_x :
    list_key plain texts key_disk (dir plain (dir plain home identity_folder) (b'x' ∷ [])) ≡ none
unfolding list_key read create_folder exists dir path lookup list_beq
no_key_in_x = refl

two_folders :
    list_dir plain entries (dir plain home identity_folder) ≡ ok (own_key.name ∷ (b'x' ∷ []) ∷ [])
unfolding list_dir only_dirs
two_folders = refl

list_command_lem_example :
    (list_command plain texts entries true false key_disk home).shown
    ≡ heading ∷ (repr someone ++ b'\n' ∷ b'\n' ∷ []) ∷ []
list_command_lem_example =
    ap (λ s. s.shown)
      (list_command_lem plain texts entries (λ q. refl) (λ q. refl) (λ t. refl) parse-print key_disk
        home own_key [] ((b'x' ∷ []) ∷ []) true two_folders (own_key-IsStored, tt)
        (inr (b'x' ∷ [], [], refl, no_key_in_x)))

abbrev line : List Bytes → Bytes
line [] = b'\n' ∷ []
line (a ∷ args) = a ++ line args

-- Arguments are texts, written without spaces.
abbrev plain_fmt : Fmt Bytes
plain_fmt = record {
  sprintln = λ args. line args;
  sprintf = λ str args. str;
  of_text = λ text. text;
}

run_lem_example :
    run plain_fmt new_logger (
      debug ((1 ∷ []) ∷ [])
      ∷ print ((2 ∷ []) ∷ [])
      ∷ fatal ((3 ∷ []) ∷ [])
      ∷ print ((4 ∷ []) ∷ [])
      ∷ [])
    ≡ some (record new_logger { output = 2 ∷ b'\n' ∷ 3 ∷ b'\n' ∷ [] }, false)
unfolding new_logger
run_lem_example = run_lem plain_fmt new_logger (
    debug ((1 ∷ []) ∷ [])
    ∷ print ((2 ∷ []) ∷ [])
    ∷ fatal ((3 ∷ []) ∷ [])
    ∷ print ((4 ∷ []) ∷ [])
    ∷ [])

abbrev alice_key : GpgKeyInfo
alice_key = record { name = b'a' ∷ []; comment = b'c' ∷ []; email = b'e' ∷ [] }

-- The end of the comment's line, and the line of the email up to its text.
abbrev name_end : Bytes
name_end = b'\n' ∷ (name_email ++ b'x' ∷ b'\n' ∷ (name_comment ++ b'y' ∷ []))

abbrev injecting : GpgKeyInfo
injecting = record {
  name = b'a' ∷ b'\n' ∷ (name_comment ++ b'c' ∷ b'\n' ∷ (name_email ++ b'x' ∷ []));
  comment = b'y' ∷ [];
  email = b'e' ∷ [];
}

-- A name of several lines gives the file of another key.
injected_name : batch injecting ≡ batch (record alice_key { comment = b'c' ∷ name_end })
unfolding batch
injected_name = refl
