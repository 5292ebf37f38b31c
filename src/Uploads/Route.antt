-- ===== src/Uploads/Route.antt =====
-- `upload_image` of backend/app/catalog/router.py: an upload is read, checked and saved.
use stockstack.Common.{
  ℕ, ◌≡◌, refl, ◌≤◌, ◌<◌, ap, sym, ◌∙◌, String, Bool, true, false, Option, none, some, [], ◌∷◌,
  ◌++◌, length, length-take, take-all, take, ◌+◌, ltb, ◌==◌, if◌then◌else◌, Bool-cases, inl, inr,
  arith,
}
use stockstack.Common.Exec.{Result, ok, raise}
use stockstack.Common.Text.{Text, codes, text_eq}
use stockstack.Errors.{AppError, app_error}
use stockstack.Models.{MimeType}
use stockstack.Uploads.{
  Bytes, max_image_bytes, UploadValidationError, ValidatedImage, validate_image,
}
use stockstack.Uploads.Storage.{Files, Faults, StorageError, StoredImage, save}

pub record ImageUploadView : Type 0 where
  pub url : Text
  pub size_bytes : ℕ
  pub mime_type : MimeType

unfoldable pub upload_status : String → ℕ
upload_status code =
    if text_eq (codes code) (codes "empty_image")
    then 400
    else if text_eq (codes code) (codes "image_too_large")
    then 413
    else 415

-- `file.filename or "upload"`.
abbrev pub filename_or : Option Text → Text
filename_or none = codes "upload"
filename_or (some []) = codes "upload"
filename_or (some (c ∷ name)) = c ∷ name

-- `file.content_type or ""`.
abbrev pub content_type_or : Option Text → Text
content_type_or none = []
content_type_or (some t) = t

abbrev pub upload_failed : AppError
upload_failed = app_error "upload_failed" "Image could not be stored" 400

abbrev pub stored_view : Result StorageError StoredImage → Result AppError ImageUploadView
stored_view (ok i) =
    ok (record { url = codes "/uploads/" ++ i.path; size_bytes = i.size; mime_type = i.mime })
stored_view (raise e) = raise upload_failed

-- `no_root` says whether `LocalImageStorage(root)` raises.
module _ (f : Faults) (no_root : Bool) (id other : ℕ) (files : Files) where
  abbrev pub stored :
      Result UploadValidationError ValidatedImage → Result AppError ImageUploadView × Files
  stored (raise e) = (raise (app_error e.code e.message (upload_status e.code)), files)
  stored (ok i) =
      if no_root
      then (raise upload_failed, files)
      else (let t = save f id other i files in (stored_view t.0, t.1))

  unfoldable pub upload_image :
      Bytes → Option Text → Option Text → Result AppError ImageUploadView × Files
  unfolding upload_status
  upload_image body content_type filename = stored (
      validate_image (take (max_image_bytes + 1) body) (content_type_or content_type)
        (filename_or filename))

above : (n : ℕ) → max_image_bytes < n → (n == 0 ≡ false) × (ltb max_image_bytes n ≡ true)
above n large = (ground arith, ground arith)

beyond : (n : ℕ) → ltb max_image_bytes n ≡ true → max_image_bytes < n
beyond n large = ground arith

below : (n : ℕ) → ltb max_image_bytes n ≡ false → n ≤ max_image_bytes
below n small = ground arith

-- A large body is refused, however much of it was read.
validate_image-large :
    (content : Bytes) (declared name : Text)
    → max_image_bytes < length content
    → validate_image content declared name
      ≡ raise (record { code = "image_too_large"; message = "Image must not exceed 2097152 bytes" })
unfolding validate_image
validate_image-large content declared name large =
    let (some_bytes, too_large) = above (length content) large in rw (some_bytes, too_large) refl

validate_image-take :
    (n : ℕ) (content : Bytes) (declared name : Text)
    → max_image_bytes < n
    → validate_image (take n content) declared name ≡ validate_image content declared name
validate_image-take n content declared name more =
    elim (Bool-cases (ltb max_image_bytes (length content))) [
      | inl large ↦
          let long = beyond (length content) large in
          let still : max_image_bytes < length (take n content) =
            omega (arith, length-take n content) in
          validate_image-large (take n content) declared name still
          ∙ sym (validate_image-large content declared name long)
      | inr small ↦
          let fits = below (length content) small in
          ap (λ c. validate_image c declared name) (take-all content n (omega arith))
    ]

-- An upload is answered by the verdict on its whole body, though no more than a byte more than
-- 2 MiB of it are read: one that passes is saved, and one that does not is refused, with 400 if it
-- is empty, 413 if it is too large and 415 otherwise, and leaves the files alone.
pub upload_image_lem :
    (f : Faults) (no_root : Bool) (id other : ℕ) (files : Files) (body : Bytes)
    (content_type filename : Option Text)
    → upload_image f no_root id other files body content_type filename
      ≡ stored f no_root id other files
          (validate_image body (content_type_or content_type) (filename_or filename))
unfolding upload_image
upload_image_lem f no_root id other files body content_type filename =
    ap (stored f no_root id other files) (
      validate_image-take (max_image_bytes + 1) body (content_type_or content_type)
        (filename_or filename) (omega arith))
