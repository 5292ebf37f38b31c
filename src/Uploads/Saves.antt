-- ===== src/Uploads/Saves.antt =====
-- What a save leaves in the root, on every way out.
use stockstack.Common.{ℕ, ◌≡◌, false, none, some, if◌then◌else◌, arith}
use stockstack.Common.Exec.{ok, raise}
use stockstack.Common.Text.{Text, text_eq, text_eq→≡}
use stockstack.Uploads.{Bytes, ValidatedImage}
use stockstack.Uploads.Storage.{
  Files, Faults, StorageError, StoredImage, target_name, temporary_name, cleaned, store, save,
  names_apart,
}

-- Every call does what it is asked for.
abbrev pub IsWorking : Faults → Type 0
IsWorking f =
    (f.root_changed ≡ false)
    × (f.target_outside ≡ false)
    × (f.create ≡ false)
    × (f.write ≡ none)
    × (f.link ≡ false)
    × (f.unlink ≡ false)

module _ (f : Faults) (target temporary : Text) (i : ValidatedImage) (files : Files)
    (apart : text_eq temporary target ≡ false) (fresh : files temporary ≡ none) where
  store-kept :
      (j : Text) {b : Bytes} → files j ≡ some b → (store f target temporary i files).1 j ≡ some b
  unfolding store cleaned
  store-kept j {b} there = ground (arith, text_eq→≡ temporary j, text_eq→≡ target j)

  store-works :
      IsWorking f
      → files target ≡ none
      → (store f target temporary i files).0
        ≡ ok (record { path = target; url = target; size = i.size; mime = i.mime })
  unfolding store cleaned
  store-works (changed, outside, create, write, link, unlink) free = ground arith

  store-files :
      (j : Text) {r : StoredImage}
      → (store f target temporary i files).0 ≡ ok r
      → (store f target temporary i files).1 j
        ≡ (if text_eq target j then some i.content else files j)
  unfolding store cleaned
  store-files j e = ground (arith, text_eq→≡ temporary j, text_eq→≡ target j)

  store-raise :
      (j : Text) {e : StorageError}
      → f.clean_target ≡ false
      → f.clean_temporary ≡ false
      → (store f target temporary i files).0 ≡ raise e
      → (store f target temporary i files).1 j ≡ files j
  unfolding store cleaned
  store-raise j c d h = ground (arith, text_eq→≡ temporary j, text_eq→≡ target j)

module _ (f : Faults) (id other : ℕ) (i : ValidatedImage) (files : Files)
    (fresh : files (temporary_name other) ≡ none) where
  -- Whatever fails, a save neither removes nor overwrites a file that was there, if the temporary
  -- name is new.
  pub save-kept : (j : Text) {b : Bytes} → files j ≡ some b → (save f id other i files).1 j ≡ some b
  unfolding save
  save-kept j {b} there = ground (
    arith,
    store-kept f (target_name id i.extension) (temporary_name other) i files
        (names_apart id other i.extension) fresh j there,
  )

  -- If no call fails and both names are new, the save answers with the name, the size and the
  -- type; the new file holds the content, and every other file is as it was, so that the temporary
  -- one is gone.
  pub save-works :
      IsWorking f
      → files (target_name id i.extension) ≡ none
      → let name = target_name id i.extension in
        ((save f id other i files).0
          ≡ ok (record { path = name; url = name; size = i.size; mime = i.mime }))
        × ((j : Text)
            → (save f id other i files).1 j ≡ (if text_eq name j then some i.content else files j))
  unfolding save
  save-works works free =
      let t = target_name id i.extension in
      let m = temporary_name other in
      let apart = names_apart id other i.extension in
      let done = store-works f t m i files apart fresh works free in
      rw (works.0, works.1) (done, λ j. store-files f t m i files apart fresh j done)

  -- If the temporary name is new, a save fails and the calls that clean up work, the files are as
  -- they were.
  pub save-raise :
      (j : Text) {e : StorageError}
      → f.clean_target ≡ false
      → f.clean_temporary ≡ false
      → (save f id other i files).0 ≡ raise e
      → (save f id other i files).1 j ≡ files j
  unfolding save
  save-raise j {e} c d h = ground (
    arith,
    store-raise f (target_name id i.extension) (temporary_name other) i files
        (names_apart id other i.extension) fresh j {e = e} c d,
  )
