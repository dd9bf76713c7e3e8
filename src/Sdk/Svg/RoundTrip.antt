-- ===== src/Sdk/Svg/RoundTrip.antt =====
-- `decodeImage` of svg-builder.ts against `getEncodedBounds` and `getEncodedRow` of image.ts.
use nouns_monorepo.Prelude.{
  ℕ, ◌/◌, ◌%◌, ◌<◌, ◌≡◌, refl, List, [], ◌∷◌, ◌++◌, map, some, arith, ap, sym, ◌∙◌,
}
use mathlib.Core.List.{append_assoc}
use nouns_monorepo.Sdk.Text.{Text}
use nouns_monorepo.Sdk.Hex.{parse_int16, hex_digit}
use nouns_monorepo.Sdk.Hex.RoundTrip.{to_padded_hex_byte, parse_int16-byte}
use nouns_monorepo.Sdk.Image.{
  ImageBounds, ImageRows, byte_hex, pairs_hex, row_pairs, encode_row, encode_rows, encode_bounds,
}
use nouns_monorepo.Sdk.Svg.{Num, chunks, decode_rect, decode_image}

-- Both numbers of every pair fit a byte.
abbrev pub AllBytes : List (ℕ × ℕ) → Type 0
AllBytes [] = Unit
AllBytes ((l, c) ∷ ps) = (l < 256) × (c < 256) × AllBytes ps

abbrev pub decoded : List (ℕ × ℕ) → List (Num × Num)
decoded [] = []
decoded ((l, c) ∷ ps) = (some l, some c) ∷ decoded ps

-- The two digits of a byte.
abbrev digits : ℕ → Text
digits n = hex_digit (n / 16) ∷ hex_digit (n % 16) ∷ []

byte_hex_lem : (n : ℕ) → n < 256 → byte_hex n ≡ digits n
unfolding byte_hex
byte_hex_lem n h = let e : n % 256 ≡ n = omega arith in rw e (to_padded_hex_byte n h)

parse_digits_byte : (n : ℕ) → n < 256 → parse_int16 (digits n) ≡ some n
parse_digits_byte n h = ap parse_int16 (sym (to_padded_hex_byte n h)) ∙ parse_int16-byte n h

decode_rect_lem :
    (l c : ℕ)
    → l < 256
    → c < 256
    → decode_rect (hex_digit (l / 16) ∷ hex_digit (l % 16) ∷ digits c) ≡ (some l, some c)
unfolding decode_rect
decode_rect_lem l c hl hc = rw (parse_digits_byte l hl, parse_digits_byte c hc)

pub chunks-pairs_hex :
    (ps : List (ℕ × ℕ)) → AllBytes ps → map decode_rect (chunks (pairs_hex ps)) ≡ decoded ps
unfolding chunks pairs_hex
chunks-pairs_hex [] h = refl
chunks-pairs_hex ((l, c) ∷ ps) (hl, hc, h) =
    rw (byte_hex_lem l hl, byte_hex_lem c hc)
      (rw (decode_rect_lem l c hl hc, chunks-pairs_hex ps h))

-- Every number of the bounds fits a byte.
abbrev pub IsByteBounds : ImageBounds → Type 0
IsByteBounds b = (b.top < 256) × (b.right < 256) × (b.bottom < 256) × (b.left < 256)

-- If every number fits a byte, a decoder reads the bounds and the pairs back, under palette 0.
pub decode_image-encode_bounds :
    (b : ImageBounds) (ps : List (ℕ × ℕ))
    → IsByteBounds b
    → AllBytes ps
    → decode_image (encode_bounds b ++ pairs_hex ps) ≡ record {
      palette_index = some 0;
      bounds = record {
        top = some b.top;
        right = some b.right;
        bottom = some b.bottom;
        left = some b.left;
      };
      rects = decoded ps;
    }
unfolding decode_image encode_bounds parse_int16
decode_image-encode_bounds b ps (ht, hr, hb, hl) h =
    rw (to_padded_hex_byte b.top ht, to_padded_hex_byte b.right hr)
      (rw (to_padded_hex_byte b.bottom hb, to_padded_hex_byte b.left hl)
        (rw (parse_digits_byte b.top ht, parse_digits_byte b.right hr)
          (rw (parse_digits_byte b.bottom hb, parse_digits_byte b.left hl)
            (rw (chunks-pairs_hex ps h)))))

-- The pairs of all rows of an image, one row after another.
unfoldable pub image_pairs : ℕ → ImageBounds → ImageRows → List (ℕ × ℕ)
image_pairs width b [] = []
image_pairs width b ((y, row) ∷ rows) = row_pairs width b row.rects ++ image_pairs width b rows

pairs_hex-append : (ps qs : List (ℕ × ℕ)) → pairs_hex (ps ++ qs) ≡ pairs_hex ps ++ pairs_hex qs
unfolding pairs_hex
pairs_hex-append [] qs = refl
pairs_hex-append ((l, c) ∷ ps) qs = simp (pairs_hex-append ps qs, append_assoc)

pub encode_rows-image_pairs :
    (width : ℕ) (b : ImageBounds) (rows : ImageRows)
    → encode_rows width b rows ≡ pairs_hex (image_pairs width b rows)
unfolding encode_rows encode_row image_pairs pairs_hex
encode_rows-image_pairs width b [] = refl
encode_rows-image_pairs width b ((y, row) ∷ rows) =
    ap (λ t. pairs_hex (row_pairs width b row.rects) ++ t) (encode_rows-image_pairs width b rows)
    ∙ sym (pairs_hex-append (row_pairs width b row.rects) (image_pairs width b rows))
