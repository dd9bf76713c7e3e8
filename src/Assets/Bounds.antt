-- ===== src/Assets/Bounds.antt =====
-- Seeds within the images' bounds, for getNounData of utils.ts.
use nouns_monorepo.Prelude.{
  ℕ, zero, suc, ◌*◌, ◌/◌, ◌<◌, ◌≡◌, refl, [], ◌∷◌, some, arith, length, List, get_elem?,
}
use native.Mathlib.Nat.{mul_comm, mul-lt-mul_of_pos_right, div-lt_iff_lt-mul}
use mathlib.Core.List.{Memᴰ}
use nouns_monorepo.Sdk.Text.{Text}
use nouns_monorepo.Assets.{
  NounSeed, EncodedImage, ImageData, NounData, get_noun_data, get_random_noun_seed,
}
use nouns_monorepo.Assets.Seeds.{HasImages, generate_seed}

-- Every part and the background of a seed are among the images.
IsWithin : ImageData → NounSeed → Type 0
IsWithin images seed =
    (seed.background < length images.bgcolors)
    × (seed.body < length images.bodies)
    × (seed.accessory < length images.accessories)
    × (seed.head < length images.heads)
    × (seed.glasses < length images.glasses_images)

generate_seed-IsWithin :
    (images : ImageData) (p : ℕ) → HasImages images → IsWithin images (generate_seed images p)
unfolding generate_seed IsWithin
generate_seed-IsWithin images p (b, o, a, h, g) =
    (omega arith, omega arith, omega arith, omega arith, omega arith)

draw_within : (r d n : ℕ) → 0 < n → r < d → r * n / d < n
draw_within r d n p h =
    let m : r * n < n * d =
      rw (mul_comm n d) (mul-lt-mul_of_pos_right {m = r} {n = d} {k = n} h p) in
    (div-lt_iff_lt-mul {k = d} {x = r * n} {y = n} (omega arith)).1 m

get_random_noun_seed-IsWithin :
    (images : ImageData) (random : ℕ → ℕ) (denominator : ℕ)
    → HasImages images
    → ((i : ℕ) → random i < denominator)
    → IsWithin images (get_random_noun_seed images random denominator)
unfolding get_random_noun_seed IsWithin
get_random_noun_seed-IsWithin images random denominator (b, o, a, h, g) below = (
  draw_within _ _ _ b (below 0),
  draw_within _ _ _ o (below 1),
  draw_within _ _ _ a (below 2),
  draw_within _ _ _ h (below 3),
  draw_within _ _ _ g (below 4),
)

elem_within {ℓ} :
    {A : Type ℓ} (xs : List A) (i : ℕ)
    → i < length xs
    → (x : A) × (get_elem? xs i ≡ some x) × Memᴰ x xs
elem_within [] i h = absurd (omega arith)
elem_within (x ∷ xs) zero h = (x, refl, Memᴰ.head refl)
elem_within (x ∷ xs) (suc i) h =
    let (y, e, m) = elem_within xs i (omega arith) in (y, e, Memᴰ.tail m)

-- There are exactly four parts, a body, an accessory, a head and glasses of the images, in this order,
-- and a background of theirs.
pub AllThere : ImageData → NounData → Type 0
AllThere images noun =
    (body accessory head glasses : EncodedImage) × (background : Text) × (noun.parts
      ≡ some body ∷ some accessory ∷ some head ∷ some glasses ∷ [])
    × (noun.noun_background ≡ some background)
    × Memᴰ body images.bodies
    × Memᴰ accessory images.accessories
    × Memᴰ head images.heads
    × Memᴰ glasses images.glasses_images
    × Memᴰ background images.bgcolors

get_noun_data-AllThere :
    (images : ImageData) (seed : NounSeed)
    → IsWithin images seed
    → AllThere images (get_noun_data images seed)
unfolding get_noun_data IsWithin AllThere
get_noun_data-AllThere images seed (b, o, a, h, g) =
    let (background, e0, m0) = elem_within images.bgcolors seed.background b in
    let (body, e1, m1) = elem_within images.bodies seed.body o in
    let (accessory, e2, m2) = elem_within images.accessories seed.accessory a in
    let (head, e3, m3) = elem_within images.heads seed.head h in
    let (glasses, e4, m4) = elem_within images.glasses_images seed.glasses g in
    (body, accessory, head, glasses, background, rw (e1, e2, e3, e4) refl, e0, m1, m2, m3, m4, m0)

-- If there are images of every kind and the fractions that are drawn are below 1, a random seed
-- gives exactly four parts, a body, an accessory, a head and glasses of the images, in this order,
-- and a background of theirs.
pub get_noun_data-get_random_noun_seed :
    (images : ImageData) (random : ℕ → ℕ) (denominator : ℕ)
    → HasImages images
    → ((i : ℕ) → random i < denominator)
    → AllThere images (get_noun_data images (get_random_noun_seed images random denominator))
get_noun_data-get_random_noun_seed images random denominator has below =
    get_noun_data-AllThere images (get_random_noun_seed images random denominator)
      (get_random_noun_seed-IsWithin images random denominator has below)

-- If there are images of every kind, the same of a seed from a block.
pub get_noun_data-generate_seed :
    (images : ImageData) (p : ℕ)
    → HasImages images
    → AllThere images (get_noun_data images (generate_seed images p))
get_noun_data-generate_seed images p has =
    get_noun_data-AllThere images (generate_seed images p) (generate_seed-IsWithin images p has)
