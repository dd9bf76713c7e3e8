-- ===== src/Sdk/Tests.antt =====
-- Runs of the image codec on a small picture.
use nouns_monorepo.Prelude.{
  ℕ, ◌≡◌, refl, ◌&&◌, ◌||◌, [], ◌∷◌, ◌++◌, arith, if◌then◌else◌, ◌==◌, false, true, some,
}
use nouns_monorepo.Sdk.Text.{codes, text_eq}
use nouns_monorepo.Sdk.Hex.{to_padded_hex}
use nouns_monorepo.Sdk.Image.{
  Rect, ImageRow, ImageBounds, RgbaColor, Colors, encode_bounds, encode_row, pairs_hex, row_pairs,
  byte_hex, line_bounds, delete_empty_rows, is_empty_row, min_left, max_right,
}
use nouns_monorepo.Sdk.Image.Encode.{ImageState, scan_line, scan_rows, finish, blank}
use nouns_monorepo.Sdk.Image.Runs.{expand, line_indices, expand-scan_line}
use nouns_monorepo.Sdk.Image.Crop.{expand_pairs}
use nouns_monorepo.Sdk.Image.Codec.{AllLines, IsLine, crop_rows}
use nouns_monorepo.Sdk.Image.Finish.{decode_image-finish, image_pairs-kept}
use nouns_monorepo.Sdk.Image.Bounds.{DeletedEmpty, scan_rows-DeletedEmpty}
use nouns_monorepo.Sdk.Collection.{Encoder, get_image, format}
use nouns_monorepo.Sdk.Collection.Format.{is_written, format-is_written}
use nouns_monorepo.Sdk.Svg.{decode_image}
use nouns_monorepo.Sdk.Svg.RoundTrip.{decoded, image_pairs, decode_image-encode_bounds}

abbrev red : RgbaColor
red = record { r = 255; g = 0; b = 0; a = 255 }

abbrev clear : RgbaColor
clear = record { r = 0; g = 0; b = 0; a = 0 }

-- Four columns and rows, with two red pixels, one above the other.
abbrev picture : ℕ → ℕ → RgbaColor
picture x y = if x == 1 && (y == 1 || y == 2) then red else clear

abbrev no_colors : Colors
no_colors = (codes "", 0) ∷ []

abbrev run : ℕ → ℕ → Rect
run n c = record { length = n; color_index = c }

abbrev empty_line : ImageRow
empty_line = record { rects = run 4 0 ∷ []; bounds = record { left = 4; right = 0 } }

abbrev drawn_line : ImageRow
drawn_line = record {
  rects = run 1 0 ∷ run 1 2 ∷ run 2 0 ∷ [];
  bounds = record { left = 1; right = 2 };
}

abbrev scanned : ImageState
scanned = record {
  rows = (0, empty_line) ∷ (1, drawn_line) ∷ (2, drawn_line) ∷ (3, empty_line) ∷ [];
  bounds = record { top = 1; right = 0; bottom = 2; left = 0 };
}

scan_rows-picture : (scan_rows picture 4 0 4 blank no_colors).0 ≡ scanned
unfolding scan_rows
scan_rows-picture = refl

finish-picture : (finish 4 4 scanned).0 ≡ codes "0x00010202010102" ++ codes "0102"
unfolding finish to_padded_hex encode_row pairs_hex row_pairs byte_hex
finish-picture = refl

scanned-AllLines : AllLines 4 scanned.rows
unfolding line_bounds
scanned-AllLines =
    let empty : IsLine 4 empty_line = record { full = refl; bounded = refl } in
    let drawn : IsLine 4 drawn_line = record { full = refl; bounded = refl } in
    (empty, (drawn, (drawn, (empty, tt))))

abbrev encoded_bounds : ImageBounds
encoded_bounds = record { top = 1; right = 2; bottom = 2; left = 1 }

decode_image-finish_example : decode_image (finish 4 4 scanned).0 ≡ record {
  palette_index = some 0;
  bounds = record { top = some 1; right = some 2; bottom = some 2; left = some 1 };
  rects = decoded (image_pairs 4 encoded_bounds ((1, drawn_line) ∷ (2, drawn_line) ∷ []));
}
unfolding delete_empty_rows min_left max_right is_empty_row
decode_image-finish_example =
    decode_image-finish 4 4 scanned scanned-AllLines (omega arith) (ground arith) (omega arith)
      (omega arith) refl refl

image_pairs-kept_example :
    expand_pairs (image_pairs 4 encoded_bounds ((1, drawn_line) ∷ (2, drawn_line) ∷ []))
    ≡ 2 ∷ 2 ∷ []
unfolding delete_empty_rows min_left max_right crop_rows
image_pairs-kept_example = image_pairs-kept 4 4 scanned scanned-AllLines (omega arith) (omega arith)

expand-scan_line_example :
    expand (scan_line picture 1 0 4 [] no_colors).0 ≡ line_indices picture 1 0 4 no_colors
expand-scan_line_example = expand-scan_line picture 1 4 no_colors

decode_image-encode_bounds_example :
    decode_image (encode_bounds encoded_bounds ++ pairs_hex ((1, 2) ∷ (1, 2) ∷ [])) ≡ record {
      palette_index = some 0;
      bounds = record { top = some 1; right = some 2; bottom = some 2; left = some 1 };
      rects = (some 1, some 2) ∷ (some 1, some 2) ∷ [];
    }
decode_image-encode_bounds_example =
    decode_image-encode_bounds encoded_bounds ((1, 2) ∷ (1, 2) ∷ [])
      (omega arith, omega arith, omega arith, omega arith)
      (omega arith, omega arith, (omega arith, omega arith, tt))

scan_rows-DeletedEmpty_example :
    DeletedEmpty 4 32
      (scan_rows picture 4 0 32 blank no_colors).0.bounds
      (scan_rows picture 4 0 32 blank no_colors).0.rows
scan_rows-DeletedEmpty_example = scan_rows-DeletedEmpty picture 4 no_colors

-- Three rows, all drawn on.
abbrev full_picture : ℕ → ℕ → RgbaColor
full_picture x y = red

abbrev collection : Encoder
collection = record {
  colors = no_colors;
  images = (codes "a", codes "0x00") ∷ (codes "b", codes "0x01") ∷ [];
  folders = (codes "heads", codes "b" ∷ []) ∷ [];
}

format-is_written_example : is_written (codes "b") (codes "0x01") (format false collection) ≡ true
unfolding get_image text_eq
format-is_written_example =
    format-is_written false collection (codes "b") (codes "0x01") (refl, (refl, tt)) refl
