-- ===== src/Uploads/Root.antt =====
-- The directory of `LocalImageStorage` of backend/app/catalog/uploads.py: what `__init__` makes of
-- the place that is given to it, and what `save` then tests of it.
use stockstack.Common.{◌≡◌, refl, ap, subst, Bool, true, false, not, ◌||◌, if◌then◌else◌}
use stockstack.Common.Exec.{Result, ok, raise}
use stockstack.Common.Text.{Text, text_eq, text_eq_refl}
use stockstack.Uploads.{ValidatedImage}
use stockstack.Uploads.Storage.{
  Faults, StorageError, value_error, os_error, StoredImage, Files, save,
}
use stockstack.Common.{ℕ}

-- What stands at the place of the root: nothing, a directory with its resolved path, a file, or a
-- link, with whether it leads to a directory, and where.
pub data Entry : Type 0 where
  absent file : Entry
  directory : Text → Entry
  link : Bool → Text → Entry

abbrev pub is_symlink : Entry → Bool
is_symlink (link leads_to_dir path) = true
is_symlink _ = false

abbrev pub is_dir : Entry → Bool
is_dir (directory path) = true
is_dir (link leads_to_dir path) = leads_to_dir
is_dir _ = false

-- `resolve`, where `own` is the resolved path of the place itself.
abbrev pub resolved : Text → Entry → Text
resolved own (directory path) = path
resolved own (link leads_to_dir path) = path
resolved own _ = own

-- `mkdir(parents=True, exist_ok=True)`, which can fail for other reasons than a file.
abbrev pub made_dir : Bool → Text → Entry → Result StorageError Entry
made_dir fails own absent = if fails then raise os_error else ok (directory own)
made_dir fails own file = raise os_error
made_dir fails own (directory path) = ok (directory path)
made_dir fails own (link true path) = ok (link true path)
made_dir fails own (link false path) = raise os_error

abbrev pub resolved_root : Text → Result StorageError Entry → Result StorageError (Text × Entry)
resolved_root own (ok e) = if not (is_dir e) then raise value_error else ok (resolved own e, e)
resolved_root own (raise error) = raise error

-- `__init__`: the resolved root that the storage keeps, and what then stands at its place.
unfoldable pub make_storage : Bool → Text → Entry → Result StorageError (Text × Entry)
make_storage fails own e =
    if is_symlink e then raise value_error else resolved_root own (made_dir fails own e)

-- The test at the beginning of `save`.
unfoldable pub has_changed : Text → Text → Entry → Bool
has_changed root own e = is_symlink e || not (is_dir e) || not (text_eq (resolved own e) root)

-- `save`, of a storage with a root, over what stands at its place now.
unfoldable pub save_at :
    Text
    → Text
    → Entry
    → Faults
    → ℕ
    → ℕ
    → ValidatedImage
    → Files
    → Result StorageError StoredImage × Files
unfolding has_changed
save_at root own e f = save (record f { root_changed = has_changed root own e })

-- The root of a storage, if it could be made, is found as it was.
abbrev IsFound : Text → Result StorageError (Text × Entry) → Type 0
IsFound own (ok s) = has_changed s.0 own s.1 ≡ false
IsFound own (raise e) = Unit {0}

make_storage-IsFound :
    (fails : Bool) (own : Text) (e : Entry) → IsFound own (make_storage fails own e)
unfolding make_storage has_changed
make_storage-IsFound true own absent = tt
make_storage-IsFound false own absent = rw (text_eq_refl own) refl
make_storage-IsFound fails own file = tt
make_storage-IsFound fails own (directory path) = rw (text_eq_refl path) refl
make_storage-IsFound fails own (link leads_to_dir path) = tt

-- A storage that could be made finds its root unchanged, and so saves as its calls let it.
pub save_at-make_storage :
    (fails : Bool) (own : Text) (e : Entry) {s : Text × Entry}
    → make_storage fails own e ≡ ok s
    → (f : Faults) (id other : ℕ) (i : ValidatedImage) (files : Files)
    → save_at s.0 own s.1 f id other i files
      ≡ save (record f { root_changed = false }) id other i files
unfolding save_at
save_at-make_storage fails own e h f id other i files =
    ap (λ b. save (record f { root_changed = b }) id other i files)
      (subst (IsFound own) h (make_storage-IsFound fails own e))

-- A save is refused, and touches no file, if a link was put at the place of the root, wherever it
-- leads.
pub save_at-link :
    (root own path : Text) (leads_to_dir : Bool) (f : Faults) (id other : ℕ) (i : ValidatedImage)
    (files : Files)
    → save_at root own (link leads_to_dir path) f id other i files ≡ (raise value_error, files)
unfolding save_at save
save_at-link root own path leads_to_dir f id other i files = refl
