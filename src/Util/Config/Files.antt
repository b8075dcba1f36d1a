-- ===== src/Util/Config/Files.antt =====
-- util/config.go: what is written is what is read, and the folders of a configuration.
use mulsigo.Prelude.{
  ◌≡◌, ◌≢◌, refl, true, ◌||◌, none, some, Bytes, lookup, insert, has, ==_refl, ==_ne, if◌then◌else◌,
  list_eq, nat_eq, arith, lookup-insert, sym, ◌∙◌,
}
use mulsigo.Util.Config.{Config, path, Disk, System, exists, create_folder, write, read}

module _ (sys : System) where
  open sys use {join, rel, stat_error, mkdir_error, open_error, read_error}

  -- The disk after `create_folder`, if nothing fails.
  abbrev pub made : Disk → Bytes → Disk
  made d p =
      if has p d.files || has p d.folders then d else record d { folders = insert p true d.folders }

  folder_made :
      (d : Disk) (p : Bytes)
      → stat_error p ≡ none
      → mkdir_error p ≡ none
      → create_folder sys d p ≡ some (made d p)
  unfolding create_folder exists
  folder_made d p s m = ground arith

  folder_again :
      (d : Disk) (p : Bytes)
      → stat_error p ≡ none
      → (has p d.files || has p d.folders) ≡ true
      → create_folder sys d p ≡ some d
  unfolding create_folder exists
  folder_again d p s h = ground arith

  pub made_there :
      (d : Disk) (p q text : Bytes)
      → (has p (insert q text (made d p).files) || has p (made d p).folders) ≡ true
  made_there d p q text =
      ground (arith, lookup-insert q p text d.files, lookup-insert p p true d.folders, ==_refl p)

  pub made_files : (d : Disk) (p : Bytes) → (made d p).files ≡ d.files
  made_files d p = ground arith

  pub written :
      (d : Disk) (c : Config) (fname text : Bytes)
      → stat_error (path c) ≡ none
      → mkdir_error (path c) ≡ none
      → open_error (join (path c) fname) ≡ none
      → write sys d c fname text none
        ≡ some (
          record (made d (path c)) {
            files = insert (join (path c) fname) text (made d (path c)).files;
          },
          none,
        )
  unfolding write
  written d c fname text s m o = ground (arith, folder_made d (path c) s m)

  pub found :
      (d : Disk) (c : Config) (fname text : Bytes)
      → stat_error (path c) ≡ none
      → stat_error (join (path c) fname) ≡ none
      → read_error (join (path c) fname) ≡ none
      → (has (path c) d.files || has (path c) d.folders) ≡ true
      → lookup (join (path c) fname) d.files ≡ some text
      → read sys d c fname ≡ some (d, some text, none)
  unfolding read exists
  found d c fname text s s' r there at = ground (arith, folder_again d (path c) s there)

  -- If the configuration's folder can be looked at and made, and the file can be opened for writing,
  -- looked at and read, then a write whose callback has no error succeeds, what was written is read
  -- back by the same configuration, and the files at other paths stay as they were.
  pub read-write :
      (d : Disk) (c : Config) (fname text : Bytes)
      → stat_error (path c) ≡ none
      → mkdir_error (path c) ≡ none
      → open_error (join (path c) fname) ≡ none
      → stat_error (join (path c) fname) ≡ none
      → read_error (join (path c) fname) ≡ none
      → (d' : Disk) × (write sys d c fname text none ≡ some (d', none))
        × (read sys d' c fname ≡ some (d', some text, none))
        × ((p : Bytes) → p ≢ join (path c) fname → lookup p d'.files ≡ lookup p d.files)
  read-write d c fname text s m o s' r =
      let p = join (path c) fname in
      let d1 = made d (path c) in
      let d2 = record d1 { files = insert p text d1.files } in
      (
        d2,
        written d c fname text s m o,
        found d2 c fname text s s' r (made_there d (path c) p text)
            (lookup-insert p p text d1.files ∙ rw (==_refl p) refl),
        λ q differs. ground (
          arith,
          lookup-insert p q text d1.files,
          ==_ne p q (λ e. differs (sym e)),
          made_files d (path c),
        ),
      )
