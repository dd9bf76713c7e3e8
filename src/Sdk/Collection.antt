-- ===== src/Sdk/Collection.antt =====
-- packages/nouns-sdk/src/image/png-collection-encoder.ts: a collection of encoded images, with the
-- folders that they belong to. Maps are lists in the order of insertion.
pub mod Maps
pub mod Format
use nouns_monorepo.Prelude.{
  ℕ, ◌+◌, Bool, true, false, not, ◌&&◌, List, [], ◌∷◌, ◌++◌, map, if◌then◌else◌, ◌==◌, Option, none,
  some, length,
}
use nouns_monorepo.Sdk.Text.{Text, codes, text_eq}
use nouns_monorepo.Sdk.Image.{RgbaColor, Colors}
use nouns_monorepo.Sdk.Image.Encode.{new_image, to_rle}

abbrev pub Images : Type 0
Images = List (Text × Text)

unfoldable pub get_image : Text → Images → Option Text
unfolding text_eq
get_image name [] = none
get_image name ((n, rle) ∷ images) = if text_eq n name then some rle else get_image name images

-- `Map.set`: an entry that is there keeps its place.
unfoldable pub set_image : Text → Text → Images → Images
unfolding text_eq
set_image name rle [] = (name, rle) ∷ []
set_image name rle ((n, r) ∷ images) =
    let rest = set_image name rle images in
    if text_eq n name then (n, rle) ∷ images else (n, r) ∷ rest

unfoldable pub delete_image : Text → Images → Images
unfolding text_eq
delete_image name [] = []
delete_image name ((n, r) ∷ images) =
    let rest = delete_image name images in if text_eq n name then rest else (n, r) ∷ rest

abbrev pub Folders : Type 0
Folders = List (Text × List Text)

-- `(folders[folder] ||= []).push(name)`
unfoldable pub push_file : Text → Text → Folders → Folders
unfolding text_eq
push_file folder name [] = (folder, name ∷ []) ∷ []
push_file folder name ((f, names) ∷ folders) =
    let rest = push_file folder name folders in
    if text_eq f folder then (f, names ++ name ∷ []) ∷ folders else (f, names) ∷ rest

pub record Encoder : Type 0 where
  pub colors : Colors
  pub images : Images
  pub folders : Folders

unfoldable pub set_color : Text → ℕ → Colors → Colors
unfolding text_eq
set_color color i [] = (color, i) ∷ []
set_color color i ((c, j) ∷ colors) =
    let rest = set_color color i colors in
    if text_eq c color then (c, i) ∷ colors else (c, j) ∷ rest

unfoldable pub set_colors : List Text → ℕ → Colors → Colors
unfolding set_color
set_colors [] i colors = colors
set_colors (c ∷ cs) i colors = set_colors cs (i + 1) (set_color c i colors)

-- The constructor: index 0 is transparent, and a given palette numbers its colours from 0.
unfoldable pub new_encoder : List Text → Encoder
unfolding set_colors
new_encoder colors = record {
  colors = set_colors colors 0 ((codes "", 0) ∷ []);
  images = [];
  folders = [];
}

-- `[...this._colors.keys()]`
unfoldable pub palette : Colors → List Text
palette [] = []
palette ((c, i) ∷ colors) = c ∷ palette colors

pub record Png : Type 0 where
  pub width : ℕ
  pub height : ℕ
  pub rgba_at : ℕ → ℕ → RgbaColor

-- `if (folder)`: without a folder, or with the empty one, nothing is pushed.
unfoldable pub push_folder : Option Text → Text → Folders → Folders
unfolding push_file
push_folder none name folders = folders
push_folder (some []) name folders = folders
push_folder (some (c ∷ t)) name folders = push_file (c ∷ t) name folders

-- `none`: the image has rows but no column, on which `toRLE` throws.
unfoldable pub encode_image : Text → Png → Option Text → Encoder → Option (Text × Encoder)
unfolding to_rle set_image push_folder
encode_image name png folder e =
    elim (to_rle png.rgba_at (new_image png.width png.height) e.colors) [
      | none ↦ none
      | some (rle, image, colors) ↦ some (
        rle,
        record {
          colors = colors;
          images = set_image name rle e.images;
          folders = push_folder folder name e.folders;
        },
      )
    ]

-- The data of a file that has been written before are undefined: `none`.
pub record EncodedImage : Type 0 where
  pub filename : Text
  pub data_of : Option Text

-- The inner loop of `format`: each file is taken out of the map once it is written.
unfoldable pub write_files : List Text → Images → List EncodedImage × Images
unfolding get_image delete_image
write_files [] images = ([], images)
write_files (name ∷ names) images =
    let (files, rest) = write_files names (delete_image name images) in
    (record { filename = name; data_of = get_image name images } ∷ files, rest)

abbrev pub ImageData : Type 0
ImageData = List (Text × List EncodedImage)

unfoldable pub write_folders : Folders → Images → ImageData × Images
unfolding write_files
write_folders [] images = ([], images)
write_folders ((folder, names) ∷ folders) images =
    let (files, images1) = write_files names images in
    let (fields, images2) = write_folders folders images1 in ((folder, files) ∷ fields, images2)

-- `data.root = …`, over a folder of that name
unfoldable pub set_root : List EncodedImage → ImageData → ImageData
unfolding text_eq
set_root files [] = (codes "root", files) ∷ []
set_root files ((f, fs) ∷ fields) =
    let rest = set_root files fields in
    if text_eq f (codes "root") then (f, files) ∷ fields else (f, fs) ∷ rest

abbrev pub root_file : Text × Text → EncodedImage
root_file (name, rle) = record { filename = name; data_of = some rle }

unfoldable pub format : Bool → Encoder → ImageData
unfolding write_folders set_root
format flatten e =
    let (fields, images) = if flatten then ([], e.images) else write_folders e.folders e.images in
    if length images == 0 then fields else set_root (map root_file images) fields
