-- ===== src/Uploads/Checks.antt =====
-- Which uploads pass.
use stockstack.Common.{◌≤◌, ◌<◌, ◌≡◌, true, some, any, length}
use stockstack.Common.Exec.{Result, ok, raise}
use stockstack.Common.Text.{Text, text_eq}
use stockstack.Models.{MimeType}
use stockstack.Uploads.{
  Bytes, max_image_bytes, mime_of, mime_extensions, output_extension, ValidatedImage, detect_mime,
  filename_extension, UploadValidationError,
}

-- What an upload with a type must be.
abbrev pub IsImage : Bytes → Text → Text → MimeType → Type 0
IsImage content declared name mime =
    (0 < length content)
    × (length content ≤ max_image_bytes)
    × (mime_of declared ≡ some mime)
    × (detect_mime content ≡ some mime)
    × (any (text_eq (filename_extension name)) (mime_extensions mime) ≡ true)

abbrev accepted : Bytes → MimeType → ValidatedImage
accepted content mime = record {
  content = content;
  mime = mime;
  size = length content;
  extension = output_extension mime;
}

module _ (content : Bytes) (name : Text) where
  abbrev HasName : MimeType → Type 0
  HasName mime = any (text_eq (filename_extension name)) (mime_extensions mime) ≡ true

  abbrev mime_or : MimeType → Result UploadValidationError ValidatedImage → MimeType
  mime_or m (ok i) = i.mime
  mime_or m (raise e) = m
