-- ===== src/Sdk/Image/Runs.antt =====
-- The runs that the loops of image.ts make of a line, against the line's pixels.
use nouns_monorepo.Prelude.{
  ℕ, suc, zero, ◌+◌, ◌≡◌, refl, List, [], ◌∷◌, ◌++◌, arith, ap, sym, ◌∙◌, replicate, ◌==◌,
  Bool-cases, inl, inr, ==_iff,
}
use mathlib.Core.List.{append_assoc, append-nil}
use nouns_monorepo.Sdk.Image.{Rect, RgbaColor, Colors, color_index_of, append_pixel}
use nouns_monorepo.Sdk.Image.Encode.{scan_line}

-- The colour indices of a line, one for each pixel.
abbrev pub expand : List Rect → List ℕ
expand [] = []
expand (r ∷ rs) = replicate r.length r.color_index ++ expand rs

replicate-append_one : (n c : ℕ) → replicate (n + 1) c ≡ replicate n c ++ c ∷ []
replicate-append_one zero c = refl
replicate-append_one (suc n) c =
    let e : suc n + 1 ≡ suc (n + 1) = omega arith in
    rw e (ap (λ t. c ∷ t) (replicate-append_one n c))

pub expand-append_pixel :
    (c : ℕ) (rs : List Rect) → expand (append_pixel c rs) ≡ expand rs ++ c ∷ []
unfolding append_pixel
expand-append_pixel c [] = refl
expand-append_pixel c (r ∷ []) = elim (Bool-cases (r.color_index == c)) [
  | inl e ↦
      let h : r.color_index ≡ c = (==_iff r.color_index c).0 e in
      rw (e, h) (simp (append-nil, replicate-append_one r.length c))
  | inr e ↦ rw e (simp append-nil)
]
expand-append_pixel c (r ∷ r' ∷ rs) =
    ap (λ t. replicate r.length r.color_index ++ t) (expand-append_pixel c (r' ∷ rs))
    ∙ sym (append_assoc (replicate r.length r.color_index) (expand (r' ∷ rs)) (c ∷ []))

-- The colour indices that a line's pixels get, in turn, with the palette growing on the way.
unfoldable pub line_indices : (ℕ → ℕ → RgbaColor) → ℕ → ℕ → ℕ → Colors → List ℕ
line_indices rgba y x zero colors = []
line_indices rgba y x (suc n) colors =
    let (index, colors') = color_index_of (rgba x y) colors in
    index ∷ line_indices rgba y (x + 1) n colors'

scan_line_from :
    (rgba : ℕ → ℕ → RgbaColor) (y x n : ℕ) (rects : List Rect) (colors : Colors)
    → expand (scan_line rgba y x n rects colors).0 ≡ expand rects ++ line_indices rgba y x n colors
unfolding scan_line line_indices
scan_line_from rgba y x zero rects colors = sym (append-nil _)
scan_line_from rgba y x (suc n) rects colors =
    let (index, colors') = color_index_of (rgba x y) colors in
    scan_line_from rgba y (x + 1) n (append_pixel index rects) colors'
    ∙ ap (λ t. t ++ line_indices rgba y (x + 1) n colors') (expand-append_pixel index rects)
    ∙ append_assoc (expand rects) (index ∷ []) _

-- The runs of a line stand for exactly its pixels.
pub expand-scan_line :
    (rgba : ℕ → ℕ → RgbaColor) (y n : ℕ) (colors : Colors)
    → expand (scan_line rgba y 0 n [] colors).0 ≡ line_indices rgba y 0 n colors
expand-scan_line rgba y n colors = scan_line_from rgba y 0 n [] colors
