-- ===== src/Sdk/Collection/Maps.antt =====
-- The encoder's map of images in png-collection-encoder.ts, one entry for each name.
use nouns_monorepo.Prelude.{
  ◌≡◌, refl, true, false, [], ◌∷◌, arith, ap, ◌∙◌, if◌then◌else◌, Option, none, some, Bool-cases,
  Option-cases, inl, inr,
}
use nouns_monorepo.Sdk.Text.{Text, text_eq, text_eq_iff}
use nouns_monorepo.Sdk.Image.Encode.{new_image, to_rle}
use nouns_monorepo.Sdk.Collection.{
  Images, get_image, set_image, delete_image, Encoder, Png, encode_image,
}

get_image-delete_image :
    (m n : Text) (images : Images)
    → get_image n (delete_image m images) ≡ (if text_eq m n then none else get_image n images)
unfolding get_image delete_image
get_image-delete_image m n [] = ground arith
get_image-delete_image m n ((k, r) ∷ images) =
    ground
      (arith, get_image-delete_image m n images, text_eq_iff k m, text_eq_iff k n, text_eq_iff m n)

pub get_image-same :
    (m n : Text) (images : Images) → text_eq m n ≡ true → get_image m images ≡ get_image n images
get_image-same m n images e = ap (λ t. get_image t images) ((text_eq_iff m n).0 e)

pub get_image_gone :
    (m n : Text) (images : Images) → text_eq m n ≡ true → get_image n (delete_image m images) ≡ none
get_image_gone m n images e = get_image-delete_image m n images ∙ rw e refl

pub get_image_left :
    (m n : Text) (images : Images)
    → text_eq m n ≡ false
    → get_image n (delete_image m images) ≡ get_image n images
get_image_left m n images e = get_image-delete_image m n images ∙ rw e refl

-- No name stands for two images.
abbrev pub IsMap : Images → Type 0
IsMap [] = Unit
IsMap ((n, r) ∷ images) = (get_image n images ≡ none) × IsMap images

get_image-delete_none :
    (m n : Text) (images : Images)
    → get_image n images ≡ none
    → get_image n (delete_image m images) ≡ none
get_image-delete_none m n images h = elim (Bool-cases (text_eq m n)) [
  | inl e ↦ get_image_gone m n images e
  | inr e ↦ get_image_left m n images e ∙ h
]

pub delete_image-IsMap : (m : Text) (images : Images) → IsMap images → IsMap (delete_image m images)
unfolding delete_image
delete_image-IsMap m [] h = tt
delete_image-IsMap m ((k, r) ∷ images) (new, h) =
    ground (arith, get_image-delete_none m k images new, delete_image-IsMap m images h)

get_image-set_image_other :
    (m n r : Text) (images : Images)
    → text_eq m n ≡ false
    → get_image n (set_image m r images) ≡ get_image n images
unfolding get_image set_image
get_image-set_image_other m n r [] e = rw e refl
get_image-set_image_other m n r ((k, i) ∷ images) e = ground (
  arith,
  e,
  get_image-set_image_other m n r images e,
  text_eq_iff k m,
  text_eq_iff k n,
  text_eq_iff m n,
)

set_image-IsMap : (m r : Text) (images : Images) → IsMap images → IsMap (set_image m r images)
unfolding set_image get_image
set_image-IsMap m r [] h = (refl, tt)
set_image-IsMap m r ((k, i) ∷ images) (new, h) = elim (Bool-cases (text_eq k m)) [
  | inl e ↦ ground (arith, e, new, h)
  | inr e ↦
      let other : text_eq m k ≡ false = ground (arith, e, text_eq_iff k m, text_eq_iff m k) in
      ground
        (arith, e, get_image-set_image_other m k r images other ∙ new, set_image-IsMap m r images h)
]

abbrev pub IsMapAfter : Option (Text × Encoder) → Type 0
IsMapAfter none = Unit
IsMapAfter (some (rle, e)) = IsMap e.images

-- Encoding an image keeps one entry for each name.
pub encode_image-IsMapAfter :
    (name : Text) (png : Png) (folder : Option Text) (e : Encoder)
    → IsMap e.images
    → IsMapAfter (encode_image name png folder e)
unfolding encode_image
encode_image-IsMapAfter name png folder e h =
    elim (Option-cases (to_rle png.rgba_at (new_image png.width png.height) e.colors)) [
      | inl n ↦ rw (n, encode_image) tt
      | inr ((t, image, colors), n) ↦ rw (n, encode_image) (set_image-IsMap name t e.images h)
    ]
