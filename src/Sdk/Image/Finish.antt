-- ===== src/Sdk/Image/Finish.antt =====
-- The end of `encode` in image.ts, and what `decodeImage` of svg-builder.ts reads of its text.
use nouns_monorepo.Prelude.{
  ℕ, ◌≤◌, ◌<◌, ◌≡◌, false, ◌&&◌, List, [], ◌∷◌, ◌++◌, arith, ap, ◌∙◌, length, ◌==◌, some,
}
use nouns_monorepo.Sdk.Image.{
  Rect, ImageBounds, ImageRows, last_pairs, rest_pairs, first_pairs, row_pairs, min_left, max_right,
  delete_empty_rows, is_empty_row, first_length, line_bounds, pairs_hex, encode_bounds,
}
use nouns_monorepo.Sdk.Image.Encode.{ImageState, finish, rects_of_row_0}
use nouns_monorepo.Sdk.Image.Runs.{expand}
use nouns_monorepo.Sdk.Image.Crop.{expand_pairs, length-expand-cons}
use nouns_monorepo.Sdk.Image.Codec.{
  AllLines, delete_empty_rows-AllLines, crop_rows, Within-min_max, image_pairs-crop_rows,
}
use nouns_monorepo.Sdk.Svg.{decode_image}
use nouns_monorepo.Sdk.Svg.RoundTrip.{
  AllBytes, decoded, decode_image-encode_bounds, image_pairs, encode_rows-image_pairs,
}

-- Every colour index of a row fits a byte.
abbrev pub ByteColors : List Rect → Type 0
ByteColors [] = Unit
ByteColors (r ∷ rs) = (r.color_index < 256) × ByteColors rs

abbrev pub AllByteColors : ImageRows → Type 0
AllByteColors [] = Unit
AllByteColors ((y, row) ∷ rows) = ByteColors row.rects × AllByteColors rows

AllBytes-append : (ps qs : List (ℕ × ℕ)) → AllBytes ps → AllBytes qs → AllBytes (ps ++ qs)
AllBytes-append [] qs h k = k
AllBytes-append ((l, c) ∷ ps) qs (hl, hc, h) k = (hl, hc, AllBytes-append ps qs h k)

last_pairs-AllBytes :
    (width : ℕ) (b : ImageBounds) (r : Rect)
    → r.length < 256
    → r.color_index < 256
    → AllBytes (last_pairs width b r)
unfolding last_pairs
last_pairs-AllBytes width b r hl hc = ground arith

first_pairs-AllBytes :
    (b : ImageBounds) (r : Rect) → r.length < 256 → r.color_index < 256 → AllBytes (first_pairs b r)
unfolding first_pairs
first_pairs-AllBytes b r hl hc = ground arith

module _ (width : ℕ) (b : ImageBounds) where
  rest_pairs-AllBytes :
      (rs : List Rect) → length (expand rs) < 256 → ByteColors rs → AllBytes (rest_pairs width b rs)
  unfolding rest_pairs
  rest_pairs-AllBytes [] h k = tt
  rest_pairs-AllBytes (r ∷ []) h (hc, k) =
      last_pairs-AllBytes width b r (omega (arith, length-expand-cons r [])) hc
  rest_pairs-AllBytes (r ∷ r' ∷ rs) h (hc, k) =
      let total = length-expand-cons r (r' ∷ rs) in
      (omega arith, hc, rest_pairs-AllBytes (r' ∷ rs) (omega arith) k)

  row_pairs-AllBytes :
      (rs : List Rect) → length (expand rs) < 256 → ByteColors rs → AllBytes (row_pairs width b rs)
  unfolding row_pairs
  row_pairs-AllBytes [] h k = tt
  row_pairs-AllBytes (r ∷ []) h (hc, k) = (ground arith, hc, tt)
  row_pairs-AllBytes (r ∷ r' ∷ rs) h (hc, k) =
      let total = length-expand-cons r (r' ∷ rs) in
      AllBytes-append (first_pairs b r) (rest_pairs width b (r' ∷ rs))
        (first_pairs-AllBytes b r (omega arith) hc) (rest_pairs-AllBytes (r' ∷ rs) (omega arith) k)

  image_pairs-AllBytes :
      (rows : ImageRows)
      → width < 256
      → AllLines width rows
      → AllByteColors rows
      → AllBytes (image_pairs width b rows)
  unfolding image_pairs
  image_pairs-AllBytes [] small h k = tt
  image_pairs-AllBytes ((y, row) ∷ rows) small (l, h) (hc, k) =
      let full = l.full in
      AllBytes-append (row_pairs width b row.rects) (image_pairs width b rows)
        (row_pairs-AllBytes row.rects (omega arith) hc) (image_pairs-AllBytes rows small h k)

delete_empty_rows-AllByteColors :
    (height : ℕ) (b : ImageBounds) (rows : ImageRows)
    → AllByteColors rows
    → AllByteColors (delete_empty_rows height b rows)
unfolding delete_empty_rows
delete_empty_rows-AllByteColors height b [] h = tt
delete_empty_rows-AllByteColors height b ((y, row) ∷ rows) (l, h) =
    ground (arith, delete_empty_rows-AllByteColors height b rows h)

max_right-le : (width : ℕ) (rows : ImageRows) → AllLines width rows → max_right rows ≤ width
unfolding max_right line_bounds
max_right-le width [] h = omega arith
max_right-le width ((y, row) ∷ rows) (l, h) =
    let right_lem = ap (λ lb. lb.right) l.bounded in omega (arith, max_right-le width rows h)

first_length-le : (rs : List Rect) → first_length rs ≤ length (expand rs)
first_length-le [] = omega arith
first_length-le (r ∷ rs) = omega (arith, length-expand-cons r rs)

min_left-le : (width : ℕ) (rows : ImageRows) → AllLines width rows → min_left rows ≤ width
unfolding min_left line_bounds
min_left-le width [] h = omega arith
min_left-le width ((y, row) ∷ []) (l, h) =
    let left_lem = ap (λ lb. lb.left) l.bounded in
    let full = l.full in omega (arith, first_length-le row.rects)
min_left-le width ((y, row) ∷ e ∷ rows) (l, h) =
    let left_lem = ap (λ lb. lb.left) l.bounded in
    let full = l.full in omega (arith, first_length-le row.rects)

-- The rows that `encode` keeps.
abbrev pub kept : ℕ → ImageState → ImageRows
kept height s = delete_empty_rows height s.bounds s.rows

-- The bounds that `encode` leaves.
abbrev pub final_bounds : ℕ → ImageState → ImageBounds
final_bounds height s = record s.bounds {
  left = min_left (kept height s);
  right = max_right (kept height s);
}

-- The text that `encode` leaves, if rows are kept and they are not one empty row.
finish_text :
    (width height : ℕ) (s : ImageState)
    → (length (kept height s) == 0) ≡ false
    → (length (kept height s) == 1 && is_empty_row width (rects_of_row_0 (kept height s))) ≡ false
    → (finish width height s).0
      ≡ encode_bounds (final_bounds height s)
        ++ pairs_hex (image_pairs width (final_bounds height s) (kept height s))
unfolding finish
finish_text width height s some_row no_blank =
    rw (no_blank, some_row)
      (ap (λ t. encode_bounds (final_bounds height s) ++ t)
        (encode_rows-image_pairs width (final_bounds height s) (kept height s)))

module _ (width height : ℕ) (s : ImageState) (lines : AllLines width s.rows)
    (small : width < 256) where
  -- For rows of `width` pixels: if the width, the top and the bottom bound and every colour index
  -- fit a byte, rows are kept, and they are not one empty row, then what `decodeImage` reads of
  -- the text is the bounds and the pairs of the kept rows.
  pub decode_image-finish :
      AllByteColors s.rows
      → s.bounds.top < 256
      → s.bounds.bottom < 256
      → (length (kept height s) == 0) ≡ false
      → (length (kept height s) == 1 && is_empty_row width (rects_of_row_0 (kept height s))) ≡ false
      → decode_image (finish width height s).0 ≡ record {
        palette_index = some 0;
        bounds = record {
          top = some s.bounds.top;
          right = some (max_right (kept height s));
          bottom = some s.bounds.bottom;
          left = some (min_left (kept height s));
        };
        rects = decoded (image_pairs width (final_bounds height s) (kept height s));
      }
  decode_image-finish colors ht hb some_row no_blank =
      let rows = kept height s in
      let full = delete_empty_rows-AllLines width height s.bounds s.rows lines in
      let right_le = max_right-le width rows full in
      let left_le = min_left-le width rows full in
      ap decode_image (finish_text width height s some_row no_blank)
      ∙ decode_image-encode_bounds (final_bounds height s)
          (image_pairs width (final_bounds height s) rows) (ht, omega arith, hb, omega arith)
          (image_pairs-AllBytes width (final_bounds height s) rows small full
            (delete_empty_rows-AllByteColors height s.bounds s.rows colors))

  -- For rows of `width` pixels, a width that fits a byte: the pairs of the kept rows stand for the
  -- kept rows cut at the left and right bounds, if the left bound is not beyond the right one.
  pub image_pairs-kept :
      min_left (kept height s) ≤ max_right (kept height s)
      → expand_pairs (image_pairs width (final_bounds height s) (kept height s))
        ≡ crop_rows (min_left (kept height s)) (max_right (kept height s)) (kept height s)
  image_pairs-kept le =
      let rows = kept height s in
      let full = delete_empty_rows-AllLines width height s.bounds s.rows lines in
      image_pairs-crop_rows width (final_bounds height s) le (max_right-le width rows full) small
        rows full
        (Within-min_max width (final_bounds height s) rows full (omega arith) (omega arith))
