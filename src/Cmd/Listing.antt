-- ===== src/Cmd/Listing.antt =====
-- cmd/list.go and cmd/root.go: the command that lists the keys, and the level of its messages.
pub mod Shown
use mulsigo.Prelude.{
  ℕ, Bool, true, false, ◌&&◌, Option, none, some, List, [], ◌∷◌, Bytes, Result, ok, err,
  if◌then◌else◌,
}
use mulsigo.Slog.{Logger, level_info, level_debug}
use mulsigo.Util.Config.{Config, Disk, System, dir}
use mulsigo.Util.Config.Listing.{Folders, list_dir}
use mulsigo.Cmd.{Toml, identity_folder, list_key}

-- "Local identities:"
abbrev pub heading : Bytes
heading =
    b'L' ∷ b'o' ∷ b'c' ∷ b'a' ∷ b'l' ∷ b' ' ∷ b'i' ∷ b'd' ∷ b'e' ∷ b'n' ∷ b't' ∷ b'i' ∷ b't' ∷ b'i'
    ∷ b'e' ∷ b's' ∷ b':' ∷ []

-- "no local keys found!"
abbrev pub no_keys : Bytes
no_keys =
    b'n' ∷ b'o' ∷ b' ' ∷ b'l' ∷ b'o' ∷ b'c' ∷ b'a' ∷ b'l' ∷ b' ' ∷ b'k' ∷ b'e' ∷ b'y' ∷ b's' ∷ b' '
    ∷ b'f' ∷ b'o' ∷ b'u' ∷ b'n' ∷ b'd' ∷ b'!' ∷ []

-- "can't list only local *and* dist"
abbrev pub not_both : Bytes
not_both =
    b'c' ∷ b'a' ∷ b'n' ∷ b'\'' ∷ b't' ∷ b' ' ∷ b'l' ∷ b'i' ∷ b's' ∷ b't' ∷ b' ' ∷ b'o' ∷ b'n' ∷ b'l'
    ∷ b'y' ∷ b' ' ∷ b'l' ∷ b'o' ∷ b'c' ∷ b'a' ∷ b'l' ∷ b' ' ∷ b'*' ∷ b'a' ∷ b'n' ∷ b'd' ∷ b'*'
    ∷ b' ' ∷ b'd' ∷ b'i' ∷ b's' ∷ b't' ∷ []

-- `PersistentPreRun`, up to the messages that it writes.
unfoldable pub pre_run : Bool → Bool → Logger → Logger
pre_run verbose debug l =
    let l' = if verbose then record l { level = level_info } else l in
    if debug then record l' { level = level_debug } else l'

-- The disk, the texts that are printed, and whether the program goes on: `slog.ErrFatal` ends it.
pub record Screen : Type 0 where
  pub disk : Disk
  pub shown : List Bytes
  pub goes_on : Bool

module _ (sys : System) (toml : Toml) (folders : Folders) where
  -- The loop over the names of folders.
  unfoldable pub list_loop : Disk → Config → List Bytes → Screen
  list_loop d c [] = record { disk = d; shown = []; goes_on = true }
  list_loop d c (name ∷ names) = elim (list_key sys toml d (dir sys c name)) [
    | none ↦ record { disk = d; shown = []; goes_on = false }
    | some (d', text) ↦ let rest = list_loop d' c names in record rest { shown = text ∷ rest.shown }
  ]

  unfoldable pub list_local_keys : Disk → Config → Screen
  unfolding list_loop list_dir
  list_local_keys d root_conf =
      let sec_config = dir sys root_conf identity_folder in
      elim (list_dir sys folders sec_config) [
        | err e ↦ record { disk = d; shown = heading ∷ []; goes_on = false }
        | ok fis ↦ elim fis [
          | [] ↦ record { disk = d; shown = heading ∷ no_keys ∷ []; goes_on = true }
          | name ∷ names ↦
              let rest = list_loop d sec_config (name ∷ names) in
              record rest { shown = heading ∷ rest.shown }
        ]
      ]

  -- The command, by its two flags; `listDistKeys` is empty.
  unfoldable pub list_command : Bool → Bool → Disk → Config → Screen
  list_command local_only dist_only d root_conf =
      if local_only && dist_only
      then record { disk = d; shown = not_both ∷ []; goes_on = false }
      else if local_only
      then list_local_keys d root_conf
      else if dist_only
      then record { disk = d; shown = []; goes_on = true }
      else list_local_keys d root_conf
