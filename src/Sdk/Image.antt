-- ===== src/Sdk/Image.antt =====
-- packages/nouns-sdk/src/image/image.ts: the class that run-length encodes an image. The object's
-- rows are a list of numbered rows in ascending order, as the language enumerates them.
pub mod Encode
pub mod Runs
pub mod Crop
pub mod Codec
pub mod Finish
pub mod Bounds
use nouns_monorepo.Prelude.{
  ℕ, suc, zero, ◌+◌, ◌-◌, ◌%◌, Bool, true, false, not, ◌&&◌, ◌||◌, List, [], ◌∷◌, ◌++◌, map,
  if◌then◌else◌, ltb, leb, ◌==◌, Option, none, some, length,
}
use Prim.Native.Nat.{min, max}
use nouns_monorepo.Sdk.Text.{Text, codes, text_eq}
use nouns_monorepo.Sdk.Hex.{to_padded_hex, rgb_to_hex}

pub record Rect : Type 0 where
  pub length : ℕ
  pub color_index : ℕ

pub record LineBounds : Type 0 where
  pub left : ℕ
  pub right : ℕ

pub record ImageRow : Type 0 where
  pub rects : List Rect
  pub bounds : LineBounds

pub record ImageBounds : Type 0 where
  pub top : ℕ
  pub right : ℕ
  pub bottom : ℕ
  pub left : ℕ

pub record RgbaColor : Type 0 where
  pub r : ℕ
  pub g : ℕ
  pub b : ℕ
  pub a : ℕ

abbrev pub ImageRows : Type 0
ImageRows = List (ℕ × ImageRow)

-- The palette: a map from a colour's text to its index, in the order of insertion.
abbrev pub Colors : Type 0
Colors = List (Text × ℕ)

unfoldable pub get_color : Text → Colors → Option ℕ
unfolding text_eq
get_color k [] = none
get_color k ((c, i) ∷ cs) = if text_eq c k then some i else get_color k cs

-- `if (!colors.has(hexColor)) colors.set(hexColor, colors.size)`
unfoldable pub insert_color : Text → Colors → Colors
unfolding get_color
insert_color k cs = elim (get_color k cs) [ none ↦ cs ++ (k, length cs) ∷ [] | some i ↦ cs ]

-- The index of a pixel's colour; a pixel of alpha 0 is transparent, but its colour is inserted too.
unfoldable pub color_index_of : RgbaColor → Colors → ℕ × Colors
unfolding insert_color rgb_to_hex
color_index_of p colors =
    let hex = rgb_to_hex p.r p.g p.b in
    let colors' = insert_color hex colors in
    ((if p.a == 0 then 0 else elim (get_color hex colors') [ none ↦ 0 | some i ↦ i ]), colors')

-- `appendPixelToRect`, on the row's rects
unfoldable pub append_pixel : ℕ → List Rect → List Rect
append_pixel c [] = record { length = 1; color_index = c } ∷ []
append_pixel c (r ∷ []) =
    if r.color_index == c
    then record r { length = r.length + 1 } ∷ []
    else r ∷ record { length = 1; color_index = c } ∷ []
append_pixel c (r ∷ r' ∷ rs) = r ∷ append_pixel c (r' ∷ rs)

unfoldable pub last_length : List Rect → ℕ
last_length [] = 0
last_length (r ∷ []) = r.length
last_length (r ∷ r' ∷ rs) = last_length (r' ∷ rs)

-- `isEmptyRow` of the first rect, which may be undefined
unfoldable pub is_empty_row : ℕ → List Rect → Bool
is_empty_row width [] = false
is_empty_row width (r ∷ rs) = r.length == width && r.color_index == 0

-- `updateImageBounds`: the bounds of the whole image
unfoldable pub shift_bounds : ℕ → ℕ → List Rect → ImageBounds → ImageBounds
unfolding is_empty_row
shift_bounds width y rects b =
    let empty = is_empty_row width rects in
    let top = if not empty && b.top == 0 then y else b.top in
    let bottom =
      if top == 0
      then b.bottom
      else if empty
      then (if b.bottom == 0 then y - 1 else b.bottom)
      else if y == 31
      then y
      else 0 in
    record b { top = top; bottom = bottom }

abbrev pub first_length : List Rect → ℕ
first_length [] = 0
first_length (r ∷ rs) = r.length

-- `updateImageBounds`: the bounds of the row
unfoldable pub line_bounds : ℕ → List Rect → LineBounds
unfolding last_length
line_bounds width rects = record { left = first_length rects; right = width - last_length rects }

-- `deleteEmptyRows`: the rows above the top bound, and those below the bottom bound
unfoldable pub is_kept : ℕ → ImageBounds → ℕ → Bool
is_kept height b y = not (ltb y b.top) && not (ltb y height && ltb b.bottom y)

unfoldable pub delete_empty_rows : ℕ → ImageBounds → ImageRows → ImageRows
unfolding is_kept
delete_empty_rows height b [] = []
delete_empty_rows height b ((y, row) ∷ rows) =
    if is_kept height b y
    then (y, row) ∷ delete_empty_rows height b rows
    else delete_empty_rows height b rows

unfoldable pub min_left : ImageRows → ℕ
min_left [] = 0
min_left ((y, row) ∷ []) = row.bounds.left
min_left ((y, row) ∷ e ∷ rows) = min row.bounds.left (min_left (e ∷ rows))

unfoldable pub max_right : ImageRows → ℕ
max_right [] = 0
max_right ((y, row) ∷ rows) = max row.bounds.right (max_right rows)

-- A number that may be negative as `Buffer.from` stores it: modulo 256.
abbrev pub byte_sub : ℕ → ℕ → ℕ
byte_sub a b = if leb b a then (a - b) % 256 else (256 - (b - a) % 256) % 256

unfoldable pub byte_hex : ℕ → Text
unfolding to_padded_hex
byte_hex n = to_padded_hex (n % 256) 2

-- `Buffer.from(…).toString('hex')`, on the pairs of a length and a colour index
unfoldable pub pairs_hex : List (ℕ × ℕ) → Text
pairs_hex [] = []
pairs_hex ((l, c) ∷ ps) = byte_hex l ++ (byte_hex c ++ pairs_hex ps)

-- The last rect of a row of several, cut at the right bound.
unfoldable pub last_pairs : ℕ → ImageBounds → Rect → List (ℕ × ℕ)
last_pairs width b r =
    if ltb (width - b.right) r.length
    then (r.length - (width - b.right), r.color_index) ∷ []
    else if r.length == width - b.right
    then []
    else (r.length, r.color_index) ∷ []

unfoldable pub rest_pairs : ℕ → ImageBounds → List Rect → List (ℕ × ℕ)
unfolding last_pairs
rest_pairs width b [] = []
rest_pairs width b (r ∷ []) = last_pairs width b r
rest_pairs width b (r ∷ r' ∷ rs) = (r.length, r.color_index) ∷ rest_pairs width b (r' ∷ rs)

-- The first rect of a row of several, cut at the left bound.
unfoldable pub first_pairs : ImageBounds → Rect → List (ℕ × ℕ)
first_pairs b r =
    if ltb b.left r.length
    then (r.length - b.left, r.color_index) ∷ []
    else if r.length == b.left
    then []
    else (r.length, r.color_index) ∷ []

-- The callback of `getEncodedRow`'s `flatMap`, over all rects of a row
unfoldable pub row_pairs : ℕ → ImageBounds → List Rect → List (ℕ × ℕ)
unfolding rest_pairs first_pairs
row_pairs width b [] = []
row_pairs width b (r ∷ []) = (byte_sub b.right b.left, r.color_index) ∷ []
row_pairs width b (r ∷ r' ∷ rs) = first_pairs b r ++ rest_pairs width b (r' ∷ rs)

-- `getEncodedRow`
unfoldable pub encode_row : ℕ → ImageBounds → List Rect → Text
encode_row width b rects = pairs_hex (row_pairs width b rects)

unfoldable pub encode_rows : ℕ → ImageBounds → ImageRows → Text
encode_rows width b [] = []
encode_rows width b ((y, row) ∷ rows) = encode_row width b row.rects ++ encode_rows width b rows

-- `getEncodedBounds`
unfoldable pub encode_bounds : ImageBounds → Text
encode_bounds b =
    codes "0x00"
    ++ (to_padded_hex b.top 2
        ++ (to_padded_hex b.right 2 ++ (to_padded_hex b.bottom 2 ++ to_padded_hex b.left 2)))
