-- ===== src/Sdk/Image/Crop.antt =====
-- What `getEncodedRow` of image.ts keeps of a row: the row cut at the left and the right bound.
use nouns_monorepo.Prelude.{
  ℕ, suc, zero, ◌+◌, ◌-◌, ◌≤◌, ◌<◌, ◌≡◌, refl, true, List, [], ◌∷◌, ◌++◌, arith, ap, sym, ◌∙◌, take,
  drop, replicate, length, ltb, ◌==◌, length-append, length-replicate, Bool-cases, inl, inr,
}
use mathlib.Core.List.{append_assoc, append-nil}
use nouns_monorepo.Sdk.Image.{
  Rect, ImageBounds, last_length, last_pairs, rest_pairs, first_pairs, row_pairs, byte_sub,
  first_length,
}
use nouns_monorepo.Sdk.Image.Runs.{expand}

-- The colour indices that a list of pairs stands for.
abbrev pub expand_pairs : List (ℕ × ℕ) → List ℕ
expand_pairs [] = []
expand_pairs ((l, c) ∷ ps) = replicate l c ++ expand_pairs ps

pub expand_pairs-append :
    (ps qs : List (ℕ × ℕ)) → expand_pairs (ps ++ qs) ≡ expand_pairs ps ++ expand_pairs qs
expand_pairs-append [] qs = refl
expand_pairs-append ((l, c) ∷ ps) qs =
    ap (λ t. replicate l c ++ t) (expand_pairs-append ps qs)
    ∙ sym (append_assoc (replicate l c) (expand_pairs ps) (expand_pairs qs))

module _ (c : ℕ) where
  drop-replicate :
      (n m : ℕ) (xs : List ℕ) → n ≤ m → drop n (replicate m c ++ xs) ≡ replicate (m - n) c ++ xs
  drop-replicate zero m xs h = let e : m - 0 ≡ m = omega arith in rw e
  drop-replicate (suc n) zero xs h = absurd (omega arith)
  drop-replicate (suc n) (suc m) xs h =
      let e : suc m - suc n ≡ m - n = omega arith in rw e (drop-replicate n m xs (omega arith))

  take-replicate : (n m : ℕ) (xs : List ℕ) → n ≤ m → take n (replicate m c ++ xs) ≡ replicate n c
  take-replicate zero m xs h = refl
  take-replicate (suc n) zero xs h = absurd (omega arith)
  take-replicate (suc n) (suc m) xs h = ap (λ t. c ∷ t) (take-replicate n m xs (omega arith))

  take-replicate_add :
      (n m k : ℕ) (xs : List ℕ)
      → m + k ≡ n
      → take n (replicate m c ++ xs) ≡ replicate m c ++ take k xs
  take-replicate_add n zero k xs h = let e : n ≡ k = omega arith in rw e
  take-replicate_add zero (suc m) k xs h = absurd (omega arith)
  take-replicate_add (suc n) (suc m) k xs h =
      ap (λ t. c ∷ t) (take-replicate_add n m k xs (omega arith))

pub length-expand-ge : (rs : List Rect) → last_length rs ≤ length (expand rs)
unfolding last_length
length-expand-ge [] = omega arith
length-expand-ge (r ∷ []) = omega (
  arith,
  length-append (replicate r.length r.color_index) [],
  length-replicate r.length r.color_index,
)
length-expand-ge (r ∷ r' ∷ rs) = omega (
  arith,
  length-append (replicate r.length r.color_index) (expand (r' ∷ rs)),
  length-expand-ge (r' ∷ rs),
)

take-nil : (n : ℕ) → take {A = ℕ} n [] ≡ []
take-nil zero = refl
take-nil (suc n) = refl

drop-nil : (n : ℕ) → drop {A = ℕ} n [] ≡ []
drop-nil zero = refl
drop-nil (suc n) = refl

pub length-expand-cons :
    (r : Rect) (rs : List Rect) → length (expand (r ∷ rs)) ≡ r.length + length (expand rs)
length-expand-cons r rs = omega (
  arith,
  length-append (replicate r.length r.color_index) (expand rs),
  length-replicate r.length r.color_index,
)

first_pairs_lem :
    (b : ImageBounds) (r : Rect)
    → b.left ≤ r.length
    → expand_pairs (first_pairs b r) ≡ replicate (r.length - b.left) r.color_index
unfolding first_pairs
first_pairs_lem b r h = elim (Bool-cases (ltb b.left r.length)) [
  | inl e ↦ rw e (append-nil _)
  | inr e ↦
      let same : (r.length == b.left) ≡ true = ground arith in
      let z : r.length - b.left ≡ 0 = ground arith in rw (e, same, z)
]

last_pairs_lem :
    (width : ℕ) (b : ImageBounds) (r : Rect)
    → width - b.right ≤ r.length
    → expand_pairs (last_pairs width b r) ≡ replicate (r.length - (width - b.right)) r.color_index
unfolding last_pairs
last_pairs_lem width b r h = elim (Bool-cases (ltb (width - b.right) r.length)) [
  | inl e ↦ rw e (append-nil _)
  | inr e ↦
      let same : (r.length == width - b.right) ≡ true = ground arith in
      let z : r.length - (width - b.right) ≡ 0 = ground arith in rw (e, same, z)
]

module _ (width : ℕ) (b : ImageBounds) where
  rest_pairs_lem :
      (rs : List Rect)
      → width - b.right ≤ last_length rs
      → expand_pairs (rest_pairs width b rs)
        ≡ take (length (expand rs) - (width - b.right)) (expand rs)
  unfolding rest_pairs last_length
  rest_pairs_lem [] h = sym (take-nil _)
  rest_pairs_lem (r ∷ []) h =
      last_pairs_lem width b r h
      ∙ sym (take-replicate r.color_index _ r.length [] (omega arith))
      ∙ ap (λ n. take (n - (width - b.right)) (expand (r ∷ [])))
          (omega (arith, length-expand-cons r []))
  rest_pairs_lem (r ∷ r' ∷ rs) h =
      ap (λ t. replicate r.length r.color_index ++ t) (rest_pairs_lem (r' ∷ rs) h)
      ∙ sym (
          take-replicate_add r.color_index _ r.length
            (length (expand (r' ∷ rs)) - (width - b.right)) (expand (r' ∷ rs))
            (omega (
              arith,
              length-append (replicate r.length r.color_index) (expand (r' ∷ rs)),
              length-replicate r.length r.color_index,
              length-expand-ge (r' ∷ rs),
            )))

  -- The pairs of a row of `width` pixels stand for the row cut at the bounds, if the left bound is
  -- within the first run and the right bound within the last one.
  pub row_pairs-crop :
      (rs : List Rect)
      → length (expand rs) ≡ width
      → b.left ≤ first_length rs
      → width - b.right ≤ last_length rs
      → b.left ≤ b.right
      → b.right ≤ width
      → width < 256
      → expand_pairs (row_pairs width b rs) ≡ take (b.right - b.left) (drop b.left (expand rs))
  unfolding row_pairs last_length
  row_pairs-crop [] e hl hr lr le_width small =
      sym (ap (take (b.right - b.left)) (drop-nil b.left) ∙ take-nil _)
  row_pairs-crop (r ∷ []) e hl hr lr le_width small =
      let full : r.length ≡ width = omega (arith, length-expand-cons r []) in
      let cut : byte_sub b.right b.left ≡ b.right - b.left = ground arith in
      rw (cut, drop-replicate r.color_index b.left r.length [] hl)
        (append-nil _
          ∙ sym (
              take-replicate r.color_index (b.right - b.left) (r.length - b.left) [] (omega arith)))
  row_pairs-crop (r ∷ r' ∷ rs) e hl hr lr le_width small =
      let more = expand (r' ∷ rs) in
      let cut = length more - (width - b.right) in
      let total = length-expand-cons r (r' ∷ rs) in
      let enough = length-expand-ge (r' ∷ rs) in
      expand_pairs-append (first_pairs b r) (rest_pairs width b (r' ∷ rs))
      ∙ ap (λ t. t ++ expand_pairs (rest_pairs width b (r' ∷ rs))) (first_pairs_lem b r hl)
      ∙ ap (λ t. replicate (r.length - b.left) r.color_index ++ t) (rest_pairs_lem (r' ∷ rs) hr)
      ∙ sym (
          take-replicate_add r.color_index (b.right - b.left) (r.length - b.left) cut more
            (omega (arith, total, enough)))
      ∙ ap (take (b.right - b.left)) (sym (drop-replicate r.color_index b.left r.length more hl))
