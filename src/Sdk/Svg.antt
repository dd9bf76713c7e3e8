-- ===== src/Sdk/Svg.antt =====
-- packages/nouns-sdk/src/image/svg-builder.ts: decoding a run-length encoded image and drawing it.
pub mod RoundTrip
use Prim.Native.String.{String}
use nouns_monorepo.Prelude.{
  ℕ, suc, zero, ◌+◌, ◌*◌, Bool, true, false, ◌&&◌, List, [], ◌∷◌, ◌++◌, map, if◌then◌else◌, ◌==◌,
  Option, none, some, get_elem?, drop,
}
use nouns_monorepo.Sdk.Text.{Text, codes, substring, decimal}
use nouns_monorepo.Sdk.Hex.{parse_int16}

-- A number that is not negative, or NaN (`none`).
abbrev pub Num : Type 0
Num = Option ℕ

abbrev pub add : Num → Num → Num
add none m = none
add (some a) none = none
add (some a) (some b) = some (a + b)

abbrev pub times_ten : Num → Num
times_ten none = none
times_ten (some a) = some (a * 10)

-- `===`: NaN is equal to nothing.
abbrev pub same : Num → Num → Bool
same none m = false
same (some a) none = false
same (some a) (some b) = a == b

pub record DecodedBounds : Type 0 where
  pub top : Num
  pub right : Num
  pub bottom : Num
  pub left : Num

pub record DecodedImage : Type 0 where
  pub palette_index : Num
  pub bounds : DecodedBounds
  pub rects : List (Num × Num)

-- `image.replace(/^0x/, '')`
unfoldable pub strip_prefix : Text → Text
strip_prefix [] = []
strip_prefix (c ∷ []) = c ∷ []
strip_prefix (c ∷ d ∷ t) = if c == b'0' && d == b'x' then t else c ∷ d ∷ t

-- `rects.match(/.{1,4}/g)`, on a text without line breaks
unfoldable pub chunks : Text → List Text
chunks [] = []
chunks (a ∷ []) = (a ∷ []) ∷ []
chunks (a ∷ b ∷ []) = (a ∷ b ∷ []) ∷ []
chunks (a ∷ b ∷ c ∷ []) = (a ∷ b ∷ c ∷ []) ∷ []
chunks (a ∷ b ∷ c ∷ d ∷ t) = (a ∷ b ∷ c ∷ d ∷ []) ∷ chunks t

unfoldable pub decode_rect : Text → Num × Num
decode_rect t = (parse_int16 (substring 0 2 t), parse_int16 (substring 2 4 t))

unfoldable pub decode_image : Text → DecodedImage
unfolding strip_prefix
decode_image image =
    let t = strip_prefix image in
    record {
      palette_index = parse_int16 (substring 0 2 t);
      bounds = record {
        top = parse_int16 (substring 2 4 t);
        right = parse_int16 (substring 4 6 t);
        bottom = parse_int16 (substring 6 8 t);
        left = parse_int16 (substring 8 10 t);
      };
      rects = map decode_rect (chunks (drop 10 t));
    }

-- A `<rect>` element, in units of a pixel of the image.
pub record SvgRect : Type 0 where
  pub width : Num
  pub x : Num
  pub y : Num
  pub fill : Option Text

-- `paletteColors[colorIndex]`; `none` is undefined
abbrev pub palette_at : List Text → Num → Option Text
palette_at palette none = none
palette_at palette (some i) = get_elem? palette i

-- The loop over the rects: a transparent one is passed over, and the cursor moves to the next line
-- exactly at the right bound.
unfoldable pub draw : List Text → DecodedBounds → Num → Num → List (Num × Num) → List SvgRect
draw palette b x y [] = []
draw palette b x y ((len, color) ∷ rects) =
    let x' = add x len in
    let wrap = same x' b.right in
    let rest =
      draw palette b (if wrap then b.left else x') (if wrap then add y (some 1) else y) rects in
    if same color (some 0)
    then rest
    else record { width = len; x = x; y = y; fill = palette_at palette color } ∷ rest

unfoldable pub draw_image : List Text → DecodedImage → List SvgRect
unfolding draw
draw_image palette d = draw palette d.bounds d.bounds.left d.bounds.top d.rects

-- A number in a template, and a palette entry in one.
abbrev print_num : Num → Text
print_num none = codes "NaN"
print_num (some n) = decimal n

abbrev print_fill : Option Text → Text
print_fill none = codes "undefined"
print_fill (some t) = t

unfoldable pub print_rect : SvgRect → Text
unfolding decimal
print_rect r =
    codes "<rect width=\""
    ++ (print_num (times_ten r.width)
        ++ (codes "\" height=\"10\" x=\""
            ++ (print_num (times_ten r.x)
                ++ (codes "\" y=\""
                    ++ (print_num (times_ten r.y)
                        ++ (codes "\" fill=\"#" ++ (print_fill r.fill ++ codes "\" />")))))))

unfoldable pub print_rects : List SvgRect → Text
unfolding print_rect
print_rects [] = []
print_rects (r ∷ rs) = print_rect r ++ print_rects rs

unfoldable pub print_parts : List Text → List Text → Text
unfolding decode_image draw_image print_rects
print_parts palette [] = []
print_parts palette (part ∷ parts) =
    print_rects (draw_image palette (decode_image part)) ++ print_parts palette parts

unfoldable pub build_svg : List Text → List Text → Text → Text
unfolding print_parts
build_svg parts palette bg =
    codes
      "<svg width=\"320\" height=\"320\" viewBox=\"0 0 320 320\" xmlns=\"http://www.w3.org/2000/svg\" shape-rendering=\"crispEdges\"><rect width=\"100%\" height=\"100%\" fill=\"#"
    ++ (bg ++ (codes "\" />" ++ (print_parts palette parts ++ codes "</svg>")))
