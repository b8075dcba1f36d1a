-- ===== src/Util/Config.antt =====
-- util/config.go: configuration folders and the files in them. A path is a string; the package
-- path/filepath is a parameter, and the disk is its files and folders.
pub mod Files
pub mod Listing
use mulsigo.Prelude.{
  ℕ, Bool, true, false, ◌||◌, Option, none, some, List, [], ◌∷◌, ◌++◌, Bytes, Map, lookup, insert,
  has, is_some, ◌==◌, if◌then◌else◌, list_eq, nat_eq,
}

pub data Error : Type 0 where
  missing : Error
  os_error : ℕ → Error

-- A configuration and its parents.
pub data Config : Type 0 where
  root_config : Bytes → Config
  in_folder : Config → Bytes → Config

-- `Path`.
unfoldable pub path : Config → Bytes
path (root_config dir) = dir
path (in_folder c dir) = dir

unfoldable pub root : Config → Config
root (root_config dir) = root_config dir
root (in_folder c dir) = root c

pub record Disk : Type 0 where
  pub files : Map Bytes Bytes
  pub folders : Map Bytes Bool

-- The package path/filepath, and what the operating system refuses: its error on a path, if any.
pub record System : Type 0 where
  pub join : Bytes → Bytes → Bytes
  pub rel : Bytes → Bytes → Option Bytes
  pub stat_error : Bytes → Option ℕ
  pub mkdir_error : Bytes → Option ℕ
  pub open_error : Bytes → Option ℕ
  pub read_error : Bytes → Option ℕ

module _ (sys : System) where
  open sys use {join, rel, stat_error, mkdir_error, open_error, read_error}

  -- `NewConfig`, from the folder of the user.
  unfoldable pub new_config : Bytes → Bytes → Config
  new_config home app = root_config (join home (b'.' ∷ app))

  unfoldable pub dir : Config → Bytes → Config
  unfolding path
  dir c folder = in_folder c (join (path c) folder)

  -- `none` is its panic.
  unfoldable pub rel_path : Config → Bytes → Option Bytes
  unfolding path root
  rel_path c fname = rel (path (root c)) (join (path c) fname)

  unfoldable pub exists : Disk → Bytes → Bool × Option ℕ
  exists d p = elim (stat_error p) [
    | some e ↦ (true, some e)
    | none ↦ (has p d.files || has p d.folders, none)
  ]

  -- `createFolderIfNotExists`; `none` is its panic.
  unfoldable pub create_folder : Disk → Bytes → Option Disk
  unfolding exists
  create_folder d p =
      let (there, e) = exists d p in
      if there || is_some e then some d else elim (mkdir_error p) [
        | some x ↦ none
        | none ↦ some (record d { folders = insert p true d.folders })
      ]

  -- `Write`, by what the encoder writes to the open file, and its error.
  unfoldable pub write : Disk → Config → Bytes → Bytes → Option ℕ → Option (Disk × Option Error)
  unfolding path create_folder
  write d c fname text encode_error = elim (create_folder d (path c)) [
    | none ↦ none
    | some d' ↦ elim (open_error (join (path c) fname)) [
      | some e ↦ some (d', some (os_error e))
      | none ↦ some (
        record d' { files = insert (join (path c) fname) text d'.files },
        elim encode_error [ none ↦ none | some e ↦ some (os_error e) ],
      )
    ]
  ]

  -- `Read` of a `Tomler`, up to its `FromToml`: the text of the file.
  unfoldable pub read : Disk → Config → Bytes → Option (Disk × Option Bytes × Option Error)
  unfolding path create_folder exists
  read d c fname = elim (create_folder d (path c)) [
    | none ↦ none
    | some d' ↦
        let p = join (path c) fname in
        let (there, e) = exists d' p in
        elim e [
          | some x ↦ some (d', none, some missing)
          | none ↦
              if there
              then elim (read_error p) [
                | some x ↦ some (d', none, some (os_error x))
                | none ↦ elim (lookup p d'.files) [
                  | none ↦ some (d', none, some (os_error 0))
                  | some text ↦ some (d', some text, none)
                ]
              ]
              else some (d', none, some missing)
        ]
  ]
