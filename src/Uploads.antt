-- ===== src/Uploads.antt =====
-- Uploads of images: the checks of an upload, backend/app/catalog/uploads.py.
pub mod Storage
pub mod Checks
pub mod Saves
pub mod Root
pub mod Route
mod Tests
use stockstack.Common.{
  ℕ, ◌+◌, ◌*◌, String, Bool, true, false, not, ◌++◌, ◌&&◌, ◌||◌, Option, none, some, List, [], ◌∷◌,
  map, any, length, take, drop, leb, ltb, ◌==◌, if◌then◌else◌,
}
use stockstack.Common.Exec.{Result, ok, raise}
use stockstack.Common.Text.{Text, codes, text_eq, starts_with}
use stockstack.Models.{MimeType, jpeg, png, webp}

abbrev pub Bytes : Type 0
Bytes = List ℕ

-- 2 MiB.
abbrev pub max_image_bytes : ℕ
max_image_bytes = 2097152

-- `mime in _MIME_EXTENSIONS`, and which it is.
unfoldable pub mime_of : Text → Option MimeType
mime_of t =
    if text_eq t (codes "image/jpeg")
    then some jpeg
    else if text_eq t (codes "image/png")
    then some png
    else if text_eq t (codes "image/webp")
    then some webp
    else none

-- `_MIME_EXTENSIONS[mime]`.
abbrev pub mime_extensions : MimeType → List Text
mime_extensions jpeg = codes ".jpg" ∷ codes ".jpeg" ∷ []
mime_extensions png = codes ".png" ∷ []
mime_extensions webp = codes ".webp" ∷ []

-- `_OUTPUT_EXTENSIONS[mime]`.
abbrev pub output_extension : MimeType → Text
output_extension jpeg = codes ".jpg"
output_extension png = codes ".png"
output_extension webp = codes ".webp"

abbrev pub same_mime : MimeType → MimeType → Bool
same_mime jpeg jpeg = true
same_mime png png = true
same_mime webp webp = true
same_mime _ _ = false

pub record UploadValidationError : Type 0 where
  pub code : String
  pub message : String

pub record ValidatedImage : Type 0 where
  pub content : Bytes
  pub mime : MimeType
  pub size : ℕ
  pub extension : Text

-- `_detect_mime`.
unfoldable pub detect_mime : Bytes → Option MimeType
detect_mime content =
    if starts_with (0xff ∷ 0xd8 ∷ 0xff ∷ []) content
    then some jpeg
    else if starts_with (0x89 ∷ 80 ∷ 78 ∷ 71 ∷ 13 ∷ 10 ∷ 26 ∷ 10 ∷ []) content
    then some png
    else if (leb 12 (length content) && text_eq (take 4 content) (codes "RIFF"))
        && text_eq (take 4 (drop 8 content)) (codes "WEBP")
    then some webp
    else none

-- Parts of a path that are empty or a dot do not count.
abbrev last_part : Text → Text → Text
last_part last part = if text_eq part [] || text_eq part (codes ".") then last else part

-- `Path(name).name`.
unfoldable pub path_name : Text → Text → Text → Text
path_name last part [] = last_part last part
path_name last part (c ∷ s) =
    path_name (if c == 47 then last_part last part else last)
      (if c == 47 then [] else part ++ c ∷ []) s

-- `name[name.rfind("."):]`, if the last dot is neither first nor last.
unfoldable pub suffix_from : Bool → Text → Text
suffix_from started [] = []
suffix_from started (c ∷ s) =
    let rest = suffix_from true s in
    if not (text_eq rest [])
    then rest
    else if started && c == 46 && not (text_eq s []) && not (any (λ d. d == 46) s)
    then c ∷ s
    else []

abbrev lower_letter : ℕ → ℕ
lower_letter c = if leb 65 c && leb c 90 then c + 32 else c

-- `Path(name).suffix.lower()`. No letter beyond ASCII becomes a letter of the extensions.
unfoldable pub filename_extension : Text → Text
unfolding path_name suffix_from
filename_extension name = map lower_letter (suffix_from false (path_name [] [] name))

abbrev pub upload_error : String → String → Result UploadValidationError ValidatedImage
upload_error code message = raise (record { code = code; message = message })

abbrev pub checked_name : Bytes → Text → MimeType → Result UploadValidationError ValidatedImage
checked_name content name mime =
    if any (text_eq (filename_extension name)) (mime_extensions mime)
    then ok (record {
      content = content;
      mime = mime;
      size = length content;
      extension = output_extension mime;
    })
    else upload_error "extension_mismatch" "Filename extension does not match image content"

abbrev pub checked_signature :
    Bytes → Text → MimeType → Option MimeType → Result UploadValidationError ValidatedImage
checked_signature content name declared none =
    upload_error "invalid_image_signature" "Content is not a supported image"
checked_signature content name declared (some actual) =
    if same_mime actual declared
    then checked_name content name actual
    else upload_error "mime_mismatch" "Declared MIME type does not match image content"

abbrev pub checked_mime :
    Bytes → Text → Option MimeType → Result UploadValidationError ValidatedImage
checked_mime content name none = upload_error "unsupported_mime" "Unsupported image MIME type"
checked_mime content name (some declared) =
    checked_signature content name declared (detect_mime content)

unfoldable pub validate_image : Bytes → Text → Text → Result UploadValidationError ValidatedImage
unfolding detect_mime mime_of filename_extension
validate_image content declared_mime original_filename =
    if length content == 0
    then upload_error "empty_image" "Image must not be empty"
    else if ltb max_image_bytes (length content)
    then upload_error "image_too_large" "Image must not exceed 2097152 bytes"
    else checked_mime content original_filename (mime_of declared_mime)
