-- ===== src/Assets.antt =====
-- packages/nouns-assets/src/utils.ts: the parts of a noun, and its seed from a block hash. The big
-- numbers' printing and reading, the hash and the random numbers are parameters.
pub mod Hexes
pub mod Seeds
pub mod Bounds
mod Tests
use nouns_monorepo.Prelude.{
  ℕ, ◌+◌, ◌-◌, ◌*◌, ◌/◌, ◌%◌, ◌^◌, List, [], ◌∷◌, ◌++◌, if◌then◌else◌, ◌==◌, Option, none, some,
  length, get_elem?, drop, ◌>>=◌,
}
use nouns_monorepo.Sdk.Text.{Text}

pub record NounSeed : Type 0 where
  pub background : ℕ
  pub body : ℕ
  pub accessory : ℕ
  pub head : ℕ
  pub glasses : ℕ

pub record EncodedImage : Type 0 where
  pub filename : Text
  pub fields : Text

-- The contents of image-data.json
pub record ImageData : Type 0 where
  pub bgcolors : List Text
  pub bodies : List EncodedImage
  pub accessories : List EncodedImage
  pub heads : List EncodedImage
  pub glasses_images : List EncodedImage

-- A part that is out of range is undefined.
pub record NounData : Type 0 where
  pub parts : List (Option EncodedImage)
  pub noun_background : Option Text

unfoldable pub get_noun_data : ImageData → NounSeed → NounData
get_noun_data images seed = record {
  parts =
      get_elem? images.bodies seed.body
      ∷ get_elem? images.accessories seed.accessory
      ∷ get_elem? images.heads seed.head
      ∷ get_elem? images.glasses_images seed.glasses
      ∷ [];
  noun_background = get_elem? images.bgcolors seed.background;
}

-- A random number is a fraction of `denominator`; the draws are made in this order.
unfoldable pub get_random_noun_seed : ImageData → (ℕ → ℕ) → ℕ → NounSeed
get_random_noun_seed images random denominator = record {
  background = random 0 * length images.bgcolors / denominator;
  body = random 1 * length images.bodies / denominator;
  accessory = random 2 * length images.accessories / denominator;
  head = random 3 * length images.heads / denominator;
  glasses = random 4 * length images.glasses_images / denominator;
}

-- A start before the text's beginning counts as its beginning.
unfoldable pub shift_right_and_cast : (ℕ → Text) → ℕ → ℕ → ℕ → Text
shift_right_and_cast to_hex_string value shift_amount uint_size =
    let shifted = to_hex_string (value / 2 ^ shift_amount) in
    b'0' ∷ b'x' ∷ drop (length shifted - uint_size / 4) shifted

-- `none` where the reading throws, or the division by 0.
abbrev pub mod_count : ℕ → Option ℕ → Option ℕ
mod_count part_count none = none
mod_count part_count (some value) = if part_count == 0 then none else some (value % part_count)

abbrev pub seed_of_parts : (background body accessory head glasses : Option ℕ) → Option NounSeed
seed_of_parts background body accessory head glasses = do
  b ← background
  o ← body
  a ← accessory
  h ← head
  g ← glasses
  some (record { background = b; body = o; accessory = a; head = h; glasses = g })

module _ (to_hex_string : ℕ → Text) (big_number_from : Text → Option ℕ) where
  unfoldable pub get_pseudorandom_part : ℕ → ℕ → ℕ → ℕ → Option ℕ
  unfolding shift_right_and_cast
  get_pseudorandom_part pseudorandomness part_count shift_amount uint_size =
      mod_count part_count (
        big_number_from
          (shift_right_and_cast to_hex_string pseudorandomness shift_amount uint_size))

  unfoldable pub get_noun_seed_from_block_hash :
      (Text → ℕ → ℕ) → ImageData → ℕ → Text → Option NounSeed
  unfolding get_pseudorandom_part
  get_noun_seed_from_block_hash keccak256 images noun_id block_hash =
      let pseudorandomness = keccak256 block_hash noun_id in
      seed_of_parts (get_pseudorandom_part pseudorandomness (length images.bgcolors) 0 48)
        (get_pseudorandom_part pseudorandomness (length images.bodies) 48 48)
        (get_pseudorandom_part pseudorandomness (length images.accessories) 96 48)
        (get_pseudorandom_part pseudorandomness (length images.heads) 144 48)
        (get_pseudorandom_part pseudorandomness (length images.glasses_images) 192 48)
