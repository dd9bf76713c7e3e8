-- ===== src/Sdk/Image/Codec.antt =====
-- The scanned rows of image.ts against the pairs that svg-builder.ts decodes.
use nouns_monorepo.Prelude.{
  ℕ, suc, zero, ◌+◌, ◌-◌, ◌≤◌, ◌<◌, ◌≡◌, refl, List, [], ◌∷◌, ◌++◌, arith, ap, ◌∙◌, take, drop,
  length,
}
use nouns_monorepo.Sdk.Image.{
  ImageRow, ImageBounds, ImageRows, RgbaColor, Colors, last_length, first_length, line_bounds,
  row_pairs, min_left, max_right, delete_empty_rows,
}
use nouns_monorepo.Sdk.Image.Encode.{ImageState, scan_rows}
use nouns_monorepo.Sdk.Image.Runs.{expand, line_indices, expand-scan_line}
use nouns_monorepo.Sdk.Image.Crop.{
  expand_pairs, expand_pairs-append, row_pairs-crop, length-expand-ge,
}
use nouns_monorepo.Sdk.Svg.RoundTrip.{image_pairs}

-- A row as the loops of `encode` make it: `width` pixels, and the bounds of its runs.
pub record IsLine (width : ℕ) (row : ImageRow) : Type 0 where
  pub full : length (expand row.rects) ≡ width
  pub bounded : row.bounds ≡ line_bounds width row.rects

abbrev pub AllLines : ℕ → ImageRows → Type 0
AllLines width [] = Unit
AllLines width ((y, row) ∷ rows) = IsLine width row × AllLines width rows

AllLines-append :
    (width : ℕ) (rows more : ImageRows)
    → AllLines width rows
    → AllLines width more
    → AllLines width (rows ++ more)
AllLines-append width [] more h k = k
AllLines-append width (e ∷ rows) more (l, h) k = (l, AllLines-append width rows more h k)

length-line_indices :
    (rgba : ℕ → ℕ → RgbaColor) (y x n : ℕ) (colors : Colors)
    → length (line_indices rgba y x n colors) ≡ n
unfolding line_indices
length-line_indices rgba y x zero colors = refl
length-line_indices rgba y x (suc n) colors = ap suc (length-line_indices rgba y (x + 1) n _)

-- From rows of `width` pixels, each with the bounds of its runs, the loops lead to such rows.
pub scan_rows-AllLines :
    (rgba : ℕ → ℕ → RgbaColor) (width y n : ℕ) (s : ImageState) (colors : Colors)
    → AllLines width s.rows
    → AllLines width (scan_rows rgba width y n s colors).0.rows
unfolding scan_rows
scan_rows-AllLines rgba width y zero s colors h = h
scan_rows-AllLines rgba width y (suc n) s colors h = scan_rows-AllLines rgba width (y + 1) n _ _ (
    AllLines-append width s.rows _ h (
      record {
        full =
            ap length (expand-scan_line rgba y width colors)
            ∙ length-line_indices rgba y 0 width colors;
        bounded = refl;
      },
      tt,
    ))

pub delete_empty_rows-AllLines :
    (width height : ℕ) (b : ImageBounds) (rows : ImageRows)
    → AllLines width rows
    → AllLines width (delete_empty_rows height b rows)
unfolding delete_empty_rows
delete_empty_rows-AllLines width height b [] h = tt
delete_empty_rows-AllLines width height b ((y, row) ∷ rows) (l, h) =
    ground (arith, delete_empty_rows-AllLines width height b rows h)

-- The rows cut at the two bounds, one after another.
unfoldable pub crop_rows : ℕ → ℕ → ImageRows → List ℕ
crop_rows left right [] = []
crop_rows left right ((y, row) ∷ rows) =
    take (right - left) (drop left (expand row.rects)) ++ crop_rows left right rows

-- The bounds lie within the first and the last run of every row.
abbrev pub Within : ℕ → ImageBounds → ImageRows → Type 0
Within width b [] = Unit
Within width b ((y, row) ∷ rows) =
    (b.left ≤ first_length row.rects)
    × (width - b.right ≤ last_length row.rects)
    × Within width b rows

pub Within-min_max :
    (width : ℕ) (b : ImageBounds) (rows : ImageRows)
    → AllLines width rows
    → b.left ≤ min_left rows
    → max_right rows ≤ b.right
    → Within width b rows
unfolding min_left max_right line_bounds
Within-min_max width b [] h hl hr = tt
Within-min_max width b ((y, row) ∷ []) (l, h) hl hr =
    let left_lem = ap (λ lb. lb.left) l.bounded in
    let right_lem = ap (λ lb. lb.right) l.bounded in
    (omega arith, omega (arith, length-expand-ge row.rects), tt)
Within-min_max width b ((y, row) ∷ e ∷ rows) (l, h) hl hr =
    let left_lem = ap (λ lb. lb.left) l.bounded in
    let right_lem = ap (λ lb. lb.right) l.bounded in
    (
      omega arith,
      omega (arith, length-expand-ge row.rects),
      Within-min_max width b (e ∷ rows) h (omega arith) (omega arith),
    )

module _ (width : ℕ) (b : ImageBounds) (lr : b.left ≤ b.right) (in_width : b.right ≤ width)
    (small : width < 256) where
  pub image_pairs-crop_rows :
      (rows : ImageRows)
      → AllLines width rows
      → Within width b rows
      → expand_pairs (image_pairs width b rows) ≡ crop_rows b.left b.right rows
  unfolding crop_rows image_pairs
  image_pairs-crop_rows [] h k = refl
  image_pairs-crop_rows ((y, row) ∷ rows) (l, h) (hl, hr, k) =
      expand_pairs-append (row_pairs width b row.rects) (image_pairs width b rows)
      ∙ ap (λ t. t ++ expand_pairs (image_pairs width b rows))
          (row_pairs-crop width b row.rects l.full hl hr lr in_width small)
      ∙ ap (λ t. take (b.right - b.left) (drop b.left (expand row.rects)) ++ t)
          (image_pairs-crop_rows rows h k)
