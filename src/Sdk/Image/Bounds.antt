-- ===== src/Sdk/Image/Bounds.antt =====
-- What `updateImageBounds` and `deleteEmptyRows` of image.ts do to the rows of a picture.
use nouns_monorepo.Prelude.{
  ℕ, suc, zero, ◌+◌, ◌≤◌, ◌<◌, ◌≡◌, ◌≢◌, refl, Bool, true, false, not, ◌&&◌, ◌||◌, List, [], ◌∷◌,
  ◌++◌, arith, ap, ◌∙◌, ltb, ◌==◌, Bool-cases, inl, inr,
}
use nouns_monorepo.Sdk.Image.{
  Rect, ImageRow, ImageBounds, ImageRows, RgbaColor, Colors, shift_bounds, is_kept, is_empty_row,
}
use nouns_monorepo.Sdk.Image.Encode.{ImageState, scan_line, scan_rows, blank, no_bounds}

-- A row other than the first that the bounds cut away, with no top bound all of them.
abbrev pub is_hidden : ImageBounds → ℕ → Bool
is_hidden b y =
    not (y == 0) && (b.top == 0 || (ltb y b.top || (not (b.bottom == 0) && ltb b.bottom y)))

-- Every hidden row is empty, and the rows have numbers below `n`.
abbrev pub HiddenEmpty : ℕ → ℕ → ImageBounds → ImageRows → Type 0
HiddenEmpty width n b [] = Unit
HiddenEmpty width n b ((y, row) ∷ rows) =
    (y < n)
    × ((is_hidden b y ≡ true) → is_empty_row width row.rects ≡ true)
    × HiddenEmpty width n b rows

-- The bounds after `n` of at most 32 rows: with a top bound and no bottom bound, the last row was
-- not empty and was not row 31.
abbrev pub Sound : ℕ → ImageBounds → Type 0
Sound n b =
    (b.top ≡ 0 → b.bottom ≡ 0)
    × (b.top ≢ 0 → (b.top < n) × (b.bottom < n))
    × (b.top ≢ 0 → b.bottom ≡ 0 → n < 32)

shift_bounds-Sound :
    (width n : ℕ) (rects : List Rect) (b : ImageBounds)
    → n < 32
    → Sound n b
    → Sound (n + 1) (shift_bounds width n rects b)
unfolding shift_bounds
shift_bounds-Sound width n rects b lt h = elim (Bool-cases (is_empty_row width rects)) [
  | inl e ↦ rw e (ground (arith, h))
  | inr e ↦ rw e (ground (arith, h))
]

-- What is hidden after one more row was hidden before it.
shift_bounds-is_hidden :
    (width n y : ℕ) (rects : List Rect) (b : ImageBounds)
    → Sound n b
    → n < 32
    → y < n
    → is_hidden (shift_bounds width n rects b) y ≡ true
    → is_hidden b y ≡ true
unfolding shift_bounds
shift_bounds-is_hidden width n y rects b h small lt e = ground arith

-- The new row is empty if it is hidden.
shift_bounds-new :
    (width n : ℕ) (rects : List Rect) (b : ImageBounds)
    → Sound n b
    → is_hidden (shift_bounds width n rects b) n ≡ true
    → is_empty_row width rects ≡ true
unfolding shift_bounds
shift_bounds-new width n rects b h e = ground arith

HiddenEmpty-append :
    (width n : ℕ) (rects : List Rect) (b : ImageBounds) (row : ImageRow) (rows : ImageRows)
    → row.rects ≡ rects
    → Sound n b
    → n < 32
    → HiddenEmpty width n b rows
    → HiddenEmpty width (n + 1) (shift_bounds width n rects b) (rows ++ (n, row) ∷ [])
HiddenEmpty-append width n rects b row [] same h small k =
    (omega arith, (λ e. ap (is_empty_row width) same ∙ shift_bounds-new width n rects b h e), tt)
HiddenEmpty-append width n rects b row ((y, r) ∷ rows) same h small (lt, e, k) = (
  omega arith,
  (λ hidden. e (shift_bounds-is_hidden width n y rects b h small lt hidden)),
  HiddenEmpty-append width n rects b row rows same h small k,
)

-- The two facts after the loops, for at most 32 rows.
scan_rows-HiddenEmpty :
    (rgba : ℕ → ℕ → RgbaColor) (width y n : ℕ) (s : ImageState) (colors : Colors)
    → y + n ≤ 32
    → Sound y s.bounds
    → HiddenEmpty width y s.bounds s.rows
    → let t = (scan_rows rgba width y n s colors).0 in
      Sound (y + n) t.bounds × HiddenEmpty width (y + n) t.bounds t.rows
unfolding scan_rows
scan_rows-HiddenEmpty rgba width y zero s colors le h k =
    let e : y + 0 ≡ y = omega arith in rw e (h, k)
scan_rows-HiddenEmpty rgba width y (suc n) s colors le h k =
    let e : y + suc n ≡ (y + 1) + n = omega arith in
    let rects = (scan_line rgba y 0 width [] colors).0 in
    rw e (
      scan_rows-HiddenEmpty rgba width (y + 1) n _ _ (omega arith)
        (shift_bounds-Sound width y rects s.bounds (omega arith) h)
        (HiddenEmpty-append width y rects s.bounds _ s.rows refl h (omega arith) k))

-- Every row that is deleted, other than the first, is empty.
abbrev pub DeletedEmpty : ℕ → ℕ → ImageBounds → ImageRows → Type 0
DeletedEmpty width height b [] = Unit
DeletedEmpty width height b ((y, row) ∷ rows) =
    (y ≢ 0 → is_kept height b y ≡ false → is_empty_row width row.rects ≡ true)
    × DeletedEmpty width height b rows

is_kept-is_hidden :
    (b : ImageBounds) (y : ℕ) → Sound 32 b → y ≢ 0 → is_kept 32 b y ≡ false → is_hidden b y ≡ true
unfolding is_kept
is_kept-is_hidden b y (h1, h2, h3) some_row deleted = ground arith

DeletedEmpty-hidden :
    (width : ℕ) (b : ImageBounds) (rows : ImageRows)
    → Sound 32 b
    → HiddenEmpty width 32 b rows
    → DeletedEmpty width 32 b rows
DeletedEmpty-hidden width b [] h k = tt
DeletedEmpty-hidden width b ((y, row) ∷ rows) h (lt, e, k) = (
  (λ some_row deleted. e (is_kept-is_hidden b y h some_row deleted)),
  DeletedEmpty-hidden width b rows h k,
)

-- In a picture of 32 rows, whatever its width, only empty rows are deleted, apart from the first.
pub scan_rows-DeletedEmpty :
    (rgba : ℕ → ℕ → RgbaColor) (width : ℕ) (colors : Colors)
    → let s = (scan_rows rgba width 0 32 blank colors).0 in DeletedEmpty width 32 s.bounds s.rows
scan_rows-DeletedEmpty rgba width colors =
    let (h, k) =
      scan_rows-HiddenEmpty rgba width 0 32 blank colors (omega arith) (ground arith) tt in
    DeletedEmpty-hidden width _ _ h k

-- The top bound stays where it is once it is not 0.
shift_bounds-top :
    (width y : ℕ) (rects : List Rect) (b : ImageBounds)
    → b.top ≢ 0
    → (shift_bounds width y rects b).top ≡ b.top
unfolding shift_bounds
shift_bounds-top width y rects b h = ground arith

scan_rows-top :
    (rgba : ℕ → ℕ → RgbaColor) (width y n : ℕ) (s : ImageState) (colors : Colors)
    → s.bounds.top ≢ 0
    → (scan_rows rgba width y n s colors).0.bounds.top ≡ s.bounds.top
unfolding scan_rows
scan_rows-top rgba width y zero s colors h = refl
scan_rows-top rgba width y (suc n) s colors h =
    let rects = (scan_line rgba y 0 width [] colors).0 in
    let e = shift_bounds-top width y rects s.bounds h in
    scan_rows-top rgba width (y + 1) n _ _ (ground arith) ∙ e

scan_rows-top_one :
    (rgba : ℕ → ℕ → RgbaColor) (width y n : ℕ) (s : ImageState) (colors : Colors)
    → s.bounds.top ≡ 1
    → (scan_rows rgba width y n s colors).0.bounds.top ≡ 1
scan_rows-top_one rgba width y n s colors h =
    scan_rows-top rgba width y n s colors (ground arith) ∙ h

deleted_row_0 : (b : ImageBounds) (height : ℕ) → b.top ≡ 1 → is_kept height b 0 ≡ false
unfolding is_kept
deleted_row_0 b height h = ground arith

second_row_top :
    (width : ℕ) (first second : List Rect)
    → is_empty_row width second ≡ false
    → (shift_bounds width 1 second (shift_bounds width 0 first no_bounds)).top ≡ 1
unfolding shift_bounds
second_row_top width first second h = rw h (ground arith)

-- If the second row of a picture is not empty, the first row is deleted, whatever it shows.
pub first_row_deleted :
    (rgba : ℕ → ℕ → RgbaColor) (width height n : ℕ) (colors : Colors)
    → let colors' = (scan_line rgba 0 0 width [] colors).1 in
      is_empty_row width (scan_line rgba 1 0 width [] colors').0 ≡ false
      → is_kept height (scan_rows rgba width 0 (suc (suc n)) blank colors).0.bounds 0 ≡ false
unfolding scan_rows is_kept
first_row_deleted rgba width height n colors h =
    let rects = (scan_line rgba 0 0 width [] colors).0 in
    let colors' = (scan_line rgba 0 0 width [] colors).1 in
    let rects' = (scan_line rgba 1 0 width [] colors').0 in
    deleted_row_0 (scan_rows rgba width 0 (suc (suc n)) blank colors).0.bounds height (
      scan_rows-top_one rgba width 2 n _ (scan_line rgba 1 0 width [] colors').1
        (second_row_top width rects rects' h))
