-- ===== src/Uploads/Tests.antt =====
-- Uploads of a small image.
use stockstack.Common.{◌≡◌, refl, true, false, none, some, [], ◌∷◌, if◌then◌else◌}
use stockstack.Common.Exec.{ok, raise}
use stockstack.Common.Text.{Text, codes, text_eq, uuid_text}
use stockstack.Models.{png}
use stockstack.Uploads.{Bytes, ValidatedImage, validate_image, filename_extension}
use stockstack.Uploads.Storage.{Files, Faults, os_error, target_name, temporary_name, save}
use stockstack.Uploads.Root.{absent, file, link, directory, make_storage}
use stockstack.Uploads.Storage.{value_error, os_error}
use stockstack.Uploads.Saves.{save-kept, save-works}
use stockstack.Uploads.Route.{stored, upload_image, upload_image_lem}

abbrev pixels : Bytes
pixels = 0x89 ∷ 80 ∷ 78 ∷ 71 ∷ 13 ∷ 10 ∷ 26 ∷ 10 ∷ 1 ∷ []

extension : filename_extension (codes "shop/Lamp.v2.PNG") ≡ codes ".png"
unfolding filename_extension
extension = refl

hidden : filename_extension (codes "shop/.png") ≡ []
unfolding filename_extension
hidden = refl

abbrev image : ValidatedImage
image = record { content = pixels; mime = png; size = 9; extension = codes ".png" }

abbrev working : Faults
working = record {
  root_changed = false;
  target_outside = false;
  create = false;
  write = none;
  link = false;
  unlink = false;
  clean_target = false;
  clean_temporary = false;
}

-- A root with one file.
abbrev old_name : Text
old_name = codes "old.png"

abbrev root : Files
root name = if text_eq name old_name then some (1 ∷ []) else none

new_name : root (temporary_name 2) ≡ none
unfolding temporary_name
new_name = refl

free_name : root (target_name 1 (codes ".png")) ≡ none
unfolding target_name uuid_text
free_name = refl

save-kept_example :
    (save (record working { link = true }) 1 2 image root).1 old_name ≡ some (1 ∷ [])
save-kept_example = save-kept (record working { link = true }) 1 2 image root new_name old_name refl

save-works_example :
    let name = target_name 1 (codes ".png") in
    ((save working 1 2 image root).0
      ≡ ok (record { path = name; url = name; size = 9; mime = png }))
    × ((j : Text)
        → (save working 1 2 image root).1 j ≡ (if text_eq name j then some pixels else root j))
save-works_example =
    save-works working 1 2 image root new_name (refl, refl, refl, refl, refl, refl) free_name

-- The write stops after four bytes.
abbrev full : Faults
full = record working { write = some 4 }

fails : (save full 1 2 image root).0 ≡ raise os_error
unfolding save temporary_name
fails = refl

upload_image_lem_example :
    upload_image working false 1 2 root pixels (some (codes "image/png")) none
    ≡ stored working false 1 2 root (validate_image pixels (codes "image/png") (codes "upload"))
upload_image_lem_example =
    upload_image_lem working false 1 2 root pixels (some (codes "image/png")) none

made_root :
    make_storage false (codes "/srv/up") absent ≡ ok (codes "/srv/up", directory (codes "/srv/up"))
unfolding make_storage
made_root = refl

linked_root : make_storage false (codes "/srv/up") (link true (codes "/etc")) ≡ raise value_error
unfolding make_storage
linked_root = refl

occupied_root : make_storage false (codes "/srv/up") file ≡ raise os_error
unfolding make_storage
occupied_root = refl
