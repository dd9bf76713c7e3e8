-- ===== src/Sdk/Collection/Format.antt =====
-- What `format` of png-collection-encoder.ts writes, against the map of images.
use nouns_monorepo.Prelude.{
  suc, ◌≡◌, refl, Bool, true, false, not, ◌&&◌, ◌||◌, List, [], ◌∷◌, map, arith, ap, sym, ◌∙◌,
  if◌then◌else◌, ◌==◌, Option, none, some, length, Bool-cases, inl, inr,
}
use nouns_monorepo.Sdk.Text.{Text, codes, text_eq}
use nouns_monorepo.Sdk.Collection.{
  Images, get_image, delete_image, Folders, Encoder, EncodedImage, write_files, ImageData,
  write_folders, set_root, root_file, format,
}
use nouns_monorepo.Sdk.Collection.Maps.{
  IsMap, get_image-same, get_image_gone, get_image_left, delete_image-IsMap,
}

-- The data `d`, if there are any.
abbrev pub is_data : Text → Option Text → Bool
is_data d none = false
is_data d (some e) = text_eq e d

abbrev pub has_file : Text → Text → List EncodedImage → Bool
has_file n d [] = false
has_file n d (f ∷ files) = (text_eq f.filename n && is_data d f.data_of) || has_file n d files

abbrev pub is_written : Text → Text → ImageData → Bool
is_written n d [] = false
is_written n d ((folder, files) ∷ fields) = has_file n d files || is_written n d fields

write_files-has_file :
    (names : List Text) (images : Images) (n d : Text)
    → (has_file n d (write_files names images).0
        || is_data d (get_image n (write_files names images).1))
      ≡ is_data d (get_image n images)
unfolding write_files
write_files-has_file [] images n d = refl
write_files-has_file (m ∷ names) images n d =
    let rest = write_files-has_file names (delete_image m images) n d in
    elim (Bool-cases (text_eq m n)) [
      | inl e ↦ ground (
        arith,
        e,
        rest,
        ap (is_data d) (get_image_gone m n images e),
        ap (is_data d) (get_image-same m n images e),
      )
      | inr e ↦ ground (arith, e, rest, ap (is_data d) (get_image_left m n images e))
    ]

write_folders-is_written :
    (folders : Folders) (images : Images) (n d : Text)
    → (is_written n d (write_folders folders images).0
        || is_data d (get_image n (write_folders folders images).1))
      ≡ is_data d (get_image n images)
unfolding write_folders
write_folders-is_written [] images n d = refl
write_folders-is_written ((folder, names) ∷ folders) images n d = ground (
  arith,
  write_files-has_file names images n d,
  write_folders-is_written folders (write_files names images).1 n d,
)

has_file-root_file :
    (n d : Text) (images : Images)
    → IsMap images
    → has_file n d (map root_file images) ≡ is_data d (get_image n images)
unfolding get_image
has_file-root_file n d [] h = refl
has_file-root_file n d ((k, r) ∷ images) (new, h) =
    let rest = has_file-root_file n d images h in
    elim (Bool-cases (text_eq k n)) [
      | inl e ↦
          let gone = sym (get_image-same k n images e) ∙ new in
          ground (arith, e, rest, ap (is_data d) gone)
      | inr e ↦ ground (arith, e, rest)
    ]

write_files-IsMap :
    (names : List Text) (images : Images) → IsMap images → IsMap (write_files names images).1
unfolding write_files
write_files-IsMap [] images h = h
write_files-IsMap (m ∷ names) images h =
    write_files-IsMap names (delete_image m images) (delete_image-IsMap m images h)

write_folders-IsMap :
    (folders : Folders) (images : Images) → IsMap images → IsMap (write_folders folders images).1
unfolding write_folders
write_folders-IsMap [] images h = h
write_folders-IsMap ((folder, names) ∷ folders) images h =
    write_folders-IsMap folders (write_files names images).1 (write_files-IsMap names images h)

-- No folder is called `root`.
abbrev pub is_rootless : ImageData → Bool
is_rootless [] = true
is_rootless ((f, fs) ∷ fields) = not (text_eq f (codes "root")) && is_rootless fields

abbrev pub is_rootless_folders : Folders → Bool
is_rootless_folders [] = true
is_rootless_folders ((f, names) ∷ folders) =
    not (text_eq f (codes "root")) && is_rootless_folders folders

write_folders-is_rootless :
    (folders : Folders) (images : Images)
    → is_rootless (write_folders folders images).0 ≡ is_rootless_folders folders
unfolding write_folders
write_folders-is_rootless [] images = refl
write_folders-is_rootless ((f, names) ∷ folders) images =
    ap (λ t. not (text_eq f (codes "root")) && t)
      (write_folders-is_rootless folders (write_files names images).1)

set_root-is_written :
    (n d : Text) (files : List EncodedImage) (fields : ImageData)
    → is_rootless fields ≡ true
    → is_written n d (set_root files fields) ≡ (is_written n d fields || has_file n d files)
unfolding set_root
set_root-is_written n d files [] h = ground arith
set_root-is_written n d files ((f, fs) ∷ fields) h =
    ground (arith, h, set_root-is_written n d files fields)

root_written :
    (n d : Text) (images : Images) (fields : ImageData)
    → IsMap images
    → is_rootless fields ≡ true
    → is_written n d (if length images == 0 then fields else set_root (map root_file images) fields)
      ≡ (is_written n d fields || is_data d (get_image n images))
unfolding get_image
root_written n d [] fields h r = ground arith
root_written n d ((k, i) ∷ images) fields h r =
    let some_image : (suc (length images) == 0) ≡ false = ground arith in
    rw some_image (
      set_root-is_written n d (map root_file ((k, i) ∷ images)) fields r
      ∙ ap (λ t. is_written n d fields || t) (has_file-root_file n d ((k, i) ∷ images) h))

-- In a collection with one entry for each name and no folder called `root`: whether in folders or
-- flat, an image is written with its data exactly if it is in the collection with those data.
pub format-is_written :
    (flatten : Bool) (e : Encoder) (n d : Text)
    → IsMap e.images
    → is_rootless_folders e.folders ≡ true
    → is_written n d (format flatten e) ≡ is_data d (get_image n e.images)
unfolding format
format-is_written true e n d h r = root_written n d e.images [] h refl
format-is_written false e n d h r =
    root_written n d (write_folders e.folders e.images).1 (write_folders e.folders e.images).0
      (write_folders-IsMap e.folders e.images h) (write_folders-is_rootless e.folders e.images ∙ r)
    ∙ write_folders-is_written e.folders e.images n d
