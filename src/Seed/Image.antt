-- ===== src/Seed/Image.antt =====
-- The image of scripts/seed.py: `ensure_demo_image`.
use stockstack.Common.{
  ℕ, ◌≡◌, refl, ap, ◌∙◌, Bool, true, false, Option, none, some, or_else, if◌then◌else◌,
  Option-cases, Bool-cases, inl, inr, arith,
}
use stockstack.Common.Exec.{ok}
use stockstack.Common.Text.{Text, text_eq, text_eq→≡, text_eq_refl}
use stockstack.Uploads.{Bytes}
use stockstack.Uploads.Storage.{Files, put_file}
use stockstack.Seed.Data.{png_bytes}
use stockstack.Seed.{
  DiskFaults, write_demo, unless_there, after_mkdir, ensure_demo_image, seed_main,
}
use stockstack.Seed.Adds.{or_else-none}

-- A file that is there, and one that is made where there was none.
file-kept :
    (name : Text) (b c : Bytes) (files : Files) (j : Text)
    → files name ≡ some c
    → files j ≡ or_else (files j) (if text_eq name j then some b else none)
file-kept name b c files j there = elim (Option-cases (files j)) [
  | inl free ↦ elim (Bool-cases (text_eq name j)) [
    | inl same ↦ absurd (ground (arith, text_eq→≡ name j))
    | inr other ↦ ground arith
  ]
  | inr (d, e) ↦ ground arith
]

file-made :
    (name : Text) (b : Bytes) (files : Files) (j : Text)
    → files name ≡ none
    → put_file name (some b) files j ≡ or_else (files j) (if text_eq name j then some b else none)
file-made name b files j free = elim (Bool-cases (text_eq name j)) [
  | inl same ↦ ground (arith, text_eq→≡ name j)
  | inr other ↦ ground (arith, or_else-none (files j))
]

write_demo-ok :
    (w : Option ℕ) (files : Files)
    → (write_demo w files).0 ≡ ok tt
    → (write_demo w files).1 ≡ put_file seed_main (some png_bytes) files
write_demo-ok (some n) files h = cc
write_demo-ok none files h = refl

ensured-ok :
    (f : DiskFaults) (files : Files) (o : Option Bytes) (j : Text)
    → files seed_main ≡ o
    → (unless_there f o files).0 ≡ ok tt
    → (unless_there f o files).1 j
      ≡ or_else (files j) (if text_eq seed_main j then some png_bytes else none)
ensured-ok f files (some b) j there h = file-kept seed_main png_bytes b files j there
ensured-ok f files none j free h =
    ap (λ fs. fs j) (write_demo-ok f.write files h) ∙ file-made seed_main png_bytes files j free

made-ok :
    (b : Bool) (f : DiskFaults) (files : Files)
    → (after_mkdir b f files).0 ≡ ok tt
    → (j : Text)
    → (after_mkdir b f files).1 j
      ≡ or_else (files j) (if text_eq seed_main j then some png_bytes else none)
made-ok true f files h j = cc
made-ok false f files h j = ensured-ok f files (files seed_main) j refl h

-- The image is there after the step that makes it, and every other file is as it was.
pub ensure_demo_image-ok :
    (f : DiskFaults) (files : Files)
    → (ensure_demo_image f files).0 ≡ ok tt
    → (j : Text)
    → (ensure_demo_image f files).1 j
      ≡ or_else (files j) (if text_eq seed_main j then some png_bytes else none)
unfolding ensure_demo_image
ensure_demo_image-ok f files = made-ok f.mkdir f files

or_else-some : (o : Option Bytes) (b : Bytes) → (c : Bytes) × (or_else o (some b) ≡ some c)
or_else-some none b = (b, refl)
or_else-some (some a) b = (a, refl)

-- A step after it leaves the files alone.
pub ensure_demo_image-again :
    (f g : DiskFaults) (files : Files)
    → (ensure_demo_image f files).0 ≡ ok tt
    → g.mkdir ≡ false
    → ensure_demo_image g (ensure_demo_image f files).1 ≡ (ok tt, (ensure_demo_image f files).1)
unfolding ensure_demo_image
ensure_demo_image-again f g files h works =
    let kept = (ensure_demo_image f files).1 in
    let (c, there) = or_else-some (files seed_main) png_bytes in
    ap (λ b. after_mkdir b g kept) works
    ∙ ap (λ o. unless_there g o kept)
        (ensure_demo_image-ok f files h seed_main
          ∙ ap (λ b. or_else (files seed_main) (if b then some png_bytes else none))
              (text_eq_refl seed_main)
          ∙ there)
