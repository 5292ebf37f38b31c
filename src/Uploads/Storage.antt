-- ===== src/Uploads/Storage.antt =====
-- `LocalImageStorage` of backend/app/catalog/uploads.py: an image is written beside its target,
-- linked to it, and the first name is removed. Each call of the operating system may fail.
use stockstack.Common.{
  ℕ, ◌≡◌, refl, Bool, true, false, ◌&&◌, ◌||◌, Option, none, some, ◌++◌, take, is_some, ◌==◌,
  if◌then◌else◌, not, arith,
}
use stockstack.Common.Exec.{Result, ok, raise}
use stockstack.Common.Text.{Text, codes, text_eq, hex, hex_digit, uuid_text}
use stockstack.Models.{MimeType}
use stockstack.Uploads.{Bytes, ValidatedImage}

-- The files of the root, by their names.
abbrev pub Files : Type 0
Files = Text → Option Bytes

abbrev pub put_file : Text → Option Bytes → Files → Files
put_file name content files j = if text_eq name j then content else files j

-- Which calls fail; a write fails after a number of bytes. A root that changed is a link, no
-- directory, or another directory than it was.
pub record Faults : Type 0 where
  pub root_changed : Bool
  pub target_outside : Bool
  pub create : Bool
  pub write : Option ℕ
  pub link : Bool
  pub unlink : Bool
  pub clean_target : Bool
  pub clean_temporary : Bool

pub data StorageError : Type 0 where
  value_error os_error : StorageError

pub record StoredImage : Type 0 where
  pub path : Text
  pub url : Text
  pub size : ℕ
  pub mime : MimeType

-- Of the two ids drawn, the first names the target and the second the temporary file.
unfoldable pub target_name : ℕ → Text → Text
target_name id extension = uuid_text id ++ extension

unfoldable pub temporary_name : ℕ → Text
temporary_name id = codes "." ++ uuid_text id ++ codes ".tmp"

module _ (f : Faults) (target temporary : Text) where
  abbrev pub removed_if : Bool → Text → Files → Files
  removed_if gone name files = if gone then put_file name none files else files

  -- The `except` clause.
  unfoldable pub cleaned : Bool → Files → Result StorageError StoredImage × Files
  cleaned published files = (
    raise os_error,
    removed_if (not f.clean_temporary) temporary
        (removed_if (published && not f.clean_target) target files),
  )

  abbrev pub unlinked : ValidatedImage → Files → Result StorageError StoredImage × Files
  unlinked i files = if f.unlink then cleaned true files else (
    ok (record { path = target; url = target; size = i.size; mime = i.mime }),
    put_file temporary none files,
  )

  -- `os.link` fails if the target is there.
  abbrev pub linked : ValidatedImage → Files → Result StorageError StoredImage × Files
  linked i files =
      if f.link || is_some (files target)
      then cleaned false files
      else unlinked i (put_file target (some i.content) files)

  abbrev pub written : Option ℕ → ValidatedImage → Files → Result StorageError StoredImage × Files
  written (some n) i files = cleaned false (put_file temporary (some (take n i.content)) files)
  written none i files = linked i (put_file temporary (some i.content) files)

  -- `open("xb")` fails if the file is there.
  unfoldable pub store : ValidatedImage → Files → Result StorageError StoredImage × Files
  unfolding cleaned
  store i files =
      if f.create || is_some (files temporary) then cleaned false files else written f.write i files

unfoldable pub save :
    Faults → ℕ → ℕ → ValidatedImage → Files → Result StorageError StoredImage × Files
unfolding store target_name temporary_name
save f id other i files =
    if f.root_changed || f.target_outside
    then (raise value_error, files)
    else store f (target_name id i.extension) (temporary_name other) i files

hex_digit-dot : (n : ℕ) → (46 == hex_digit n) ≡ false
hex_digit-dot n = ground arith

pub names_apart :
    (id other : ℕ) (extension : Text)
    → text_eq (temporary_name other) (target_name id extension) ≡ false
unfolding temporary_name target_name uuid_text hex
names_apart id other extension = rw (hex_digit-dot _) refl
