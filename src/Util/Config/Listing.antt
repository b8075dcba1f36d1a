-- ===== src/Util/Config/Listing.antt =====
-- util/config.go: the names in a folder of the configuration.
use mulsigo.Prelude.{
  ℕ, Bool, Option, none, some, List, [], ◌∷◌, Bytes, Result, ok, err, map, if◌then◌else◌,
}
use mulsigo.Util.Config.{Config, path, System}

-- What path/filepath and the operating system say of folders: the paths that match a pattern, the
-- folder and the name of a path, and the entries of a folder with whether they are folders.
pub record Folders : Type 0 where
  pub glob : Bytes → Option (List Bytes)
  pub split_path : Bytes → Bytes × Bytes
  pub read_dir : Bytes → Result ℕ (List (Bytes × Bool))

-- The loop of `ListDir`.
unfoldable pub only_dirs : List (Bytes × Bool) → List Bytes
only_dirs [] = []
only_dirs ((name, is_dir) ∷ fi) = let rest = only_dirs fi in if is_dir then name ∷ rest else rest

module _ (sys : System) (folders : Folders) where
  open sys use {join}
  open folders use {glob, split_path, read_dir}

  -- `List`; `none` is its panic.
  unfoldable pub list : Config → Bytes → Option (List Bytes)
  unfolding path
  list c match = elim (glob (join (path c) match)) [
    | none ↦ none
    | some m ↦ some (map (λ f. (split_path f).1) m)
  ]

  unfoldable pub list_dir : Config → Result ℕ (List Bytes)
  unfolding path only_dirs
  list_dir c = elim (read_dir (path c)) [ err e ↦ err e | ok fi ↦ ok (only_dirs fi) ]
