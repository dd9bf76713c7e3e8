-- ===== src/Assets/Tests.antt =====
-- The theorems about seeds at concrete images and numbers.
use nouns_monorepo.Prelude.{
  ℕ, ◌+◌, ◌≡◌, refl, arith, [], ◌∷◌, some, none, ◌^◌, if◌then◌else◌, Option,
}
use nouns_monorepo.Sdk.Text.{Text, codes}
use nouns_monorepo.Sdk.Hex.{parse_digits}
use nouns_monorepo.Assets.{
  EncodedImage, ImageData, get_noun_data, get_random_noun_seed, get_noun_seed_from_block_hash,
}
use nouns_monorepo.Assets.Hexes.{even_hex, is_hex}
use nouns_monorepo.Assets.Seeds.{generate_seed, get_noun_seed_from_block_hash_lem}
use nouns_monorepo.Assets.Bounds.{AllThere, get_noun_data-get_random_noun_seed}

abbrev image : EncodedImage
image = record { filename = codes "a"; fields = codes "0x" }

abbrev images : ImageData
images = record {
  bgcolors = codes "d5d7e1" ∷ codes "e1d7d5" ∷ [];
  bodies = image ∷ [];
  accessories = image ∷ image ∷ image ∷ [];
  heads = image ∷ [];
  glasses_images = image ∷ image ∷ [];
}

abbrev print : ℕ → Text
print n = b'0' ∷ b'x' ∷ even_hex n

abbrev read : Text → Option ℕ
read [] = none
read (z ∷ []) = none
read (z ∷ x ∷ t) = if is_hex t then parse_digits none t else none

abbrev hash : Text → ℕ → ℕ
hash block noun_id = 2 ^ 255 + 2 ^ 50 + noun_id

get_noun_seed_from_block_hash_lem_example :
    get_noun_seed_from_block_hash print read hash images 11 (codes "b")
    ≡ some (generate_seed images (hash (codes "b") 11))
get_noun_seed_from_block_hash_lem_example =
    get_noun_seed_from_block_hash_lem print read (λ n. refl) (λ t. refl) hash images 11 (codes "b")
      (omega arith, omega arith, omega arith, omega arith, omega arith)

get_noun_data-get_random_noun_seed_example :
    AllThere images (get_noun_data images (get_random_noun_seed images (λ i. 7) 10))
get_noun_data-get_random_noun_seed_example =
    get_noun_data-get_random_noun_seed images (λ i. 7) 10
      (omega arith, omega arith, omega arith, omega arith, omega arith) (λ i. omega arith)
