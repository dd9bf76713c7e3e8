-- ===== src/Sdk/Image/Encode.antt =====
-- `toRLE` and `encode` of packages/nouns-sdk/src/image/image.ts: the loops over the pixels.
use nouns_monorepo.Prelude.{
  ℕ, suc, zero, ◌+◌, ◌&&◌, List, [], ◌∷◌, ◌++◌, if◌then◌else◌, ltb, ◌==◌, Option, none, some,
  length,
}
use nouns_monorepo.Sdk.Text.{Text, codes}
use nouns_monorepo.Sdk.Image.{
  Rect, ImageRow, ImageBounds, ImageRows, RgbaColor, Colors, color_index_of, append_pixel,
  is_empty_row, shift_bounds, line_bounds, delete_empty_rows, min_left, max_right, encode_rows,
  encode_bounds,
}

-- The fields of the object that `encode` works on.
pub record ImageState : Type 0 where
  pub rows : ImageRows
  pub bounds : ImageBounds

pub record Image : Type 0 where
  pub width : ℕ
  pub height : ℕ
  pub state : ImageState
  pub rle : Option Text

abbrev pub no_bounds : ImageBounds
no_bounds = record { top = 0; right = 0; bottom = 0; left = 0 }

abbrev pub blank : ImageState
blank = record { rows = []; bounds = no_bounds }

-- The constructor.
abbrev pub new_image : ℕ → ℕ → Image
new_image width height = record { width = width; height = height; state = blank; rle = none }

module _ (rgba : ℕ → ℕ → RgbaColor) where
  -- The inner loop, from the column `x`, with `n` columns to go.
  unfoldable pub scan_line : ℕ → ℕ → ℕ → List Rect → Colors → List Rect × Colors
  unfolding color_index_of append_pixel
  scan_line y x zero rects colors = (rects, colors)
  scan_line y x (suc n) rects colors =
      let (index, colors') = color_index_of (rgba x y) colors in
      scan_line y (x + 1) n (append_pixel index rects) colors'

  -- The outer loop, from the row `y`, with `n` rows to go.
  unfoldable pub scan_rows : ℕ → ℕ → ℕ → ImageState → Colors → ImageState × Colors
  unfolding scan_line shift_bounds line_bounds
  scan_rows width y zero s colors = (s, colors)
  scan_rows width y (suc n) s colors =
      let (rects, colors') = scan_line y 0 width [] colors in
      let row : ImageRow = record { rects = rects; bounds = line_bounds width rects } in
      scan_rows width (y + 1) n
        (record { rows = s.rows ++ (y, row) ∷ []; bounds = shift_bounds width y rects s.bounds })
        colors'

-- `this._rows[0]?.rects || []`
unfoldable pub rects_of_row_0 : ImageRows → List Rect
rects_of_row_0 [] = []
rects_of_row_0 ((y, row) ∷ rows) = if y == 0 then row.rects else rects_of_row_0 rows

abbrev pub empty_image : Text
empty_image = codes "0x0000000000"

-- What follows the loops: the text, and the fields as they are left.
unfoldable pub finish : ℕ → ℕ → ImageState → Text × ImageState
unfolding delete_empty_rows min_left max_right rects_of_row_0 is_empty_row encode_rows encode_bounds
finish width height s =
    let rows = delete_empty_rows height s.bounds s.rows in
    let bounds =
      if length rows == 0
      then s.bounds
      else record s.bounds { left = min_left rows; right = max_right rows } in
    let text =
      if length rows == 1 && is_empty_row width (rects_of_row_0 rows)
      then empty_image
      else encode_bounds bounds ++ encode_rows width bounds rows in
    (text, record { rows = rows; bounds = bounds })

-- `none`: `updateImageBounds` throws on the rows of an image with no column.
unfoldable pub encode :
    (ℕ → ℕ → RgbaColor) → ℕ → ℕ → ImageState → Colors → Option (Text × ImageState × Colors)
unfolding scan_rows finish
encode rgba width height s colors =
    let (scanned, colors') = scan_rows rgba width 0 height s colors in
    let (text, s') = finish width height scanned in
    if width == 0 && ltb 0 height then none else some (text, s', colors')

-- `toRLE`: the text is kept, and a later call gives it back whatever the pixels are.
unfoldable pub to_rle : (ℕ → ℕ → RgbaColor) → Image → Colors → Option (Text × Image × Colors)
unfolding encode
to_rle rgba image colors = elim (image.rle) [
  | some text ↦ some (text, image, colors)
  | none ↦ elim (encode rgba image.width image.height image.state colors) [
    | none ↦ none
    | some (text, s, colors') ↦ some (text, record image { state = s; rle = some text }, colors')
  ]
]
