-- ===== src/Assets/Seeds.antt =====
-- The part that getPseudorandomPart of utils.ts picks, and seeds within the images' bounds.
use nouns_monorepo.Prelude.{
  ℕ, suc, ◌+◌, ◌-◌, ◌/◌, ◌%◌, ◌^◌, ◌≤◌, ◌<◌, ◌≡◌, refl, true, false, ◌∷◌, if◌then◌else◌, leb, ◌==◌,
  none, some, Option, arith, ap, ◌∙◌, length, drop, Bool-cases, inl, inr,
}
use nouns_monorepo.Sdk.Text.{Text}
use nouns_monorepo.Sdk.Hex.{parse_digits, digit_value}
use nouns_monorepo.Assets.{
  seed_of_parts, NounSeed, ImageData, shift_right_and_cast, get_pseudorandom_part,
  get_noun_seed_from_block_hash,
}
use nouns_monorepo.Assets.Hexes.{
  even_hex, digits, is_hex, is_hex-digits, parse_digits-digits, drop-digits, length-even_hex_large,
  length-even_hex_small, even_hex-digits, cast_lem, shifted_large, shifted_small,
}

-- There is something to choose from.
abbrev pub HasImages : ImageData → Type 0
HasImages images =
    (0 < length images.bgcolors)
    × (0 < length images.bodies)
    × (0 < length images.accessories)
    × (0 < length images.heads)
    × (0 < length images.glasses_images)

-- `uint48(pseudorandomness >> shift) % count`
abbrev uint48_part : ℕ → ℕ → ℕ → ℕ
uint48_part pseudorandomness shift count = pseudorandomness / 2 ^ shift % 281474976710656 % count

-- generateSeed of NounsSeeder.sol
unfoldable pub generate_seed : ImageData → ℕ → NounSeed
generate_seed images p = record {
  background = uint48_part p 0 (length images.bgcolors);
  body = uint48_part p 48 (length images.bodies);
  accessory = uint48_part p 96 (length images.accessories);
  head = uint48_part p 144 (length images.heads);
  glasses = uint48_part p 192 (length images.glasses_images);
}

seed_of_parts-none : (b o a h : Option ℕ) → seed_of_parts b o a h none ≡ none
seed_of_parts-none b o a h = ground arith

module _ (to_hex_string : ℕ → Text) (big_number_from : Text → Option ℕ)
    (to_hex_string_lem : (n : ℕ) → to_hex_string n ≡ b'0' ∷ b'x' ∷ even_hex n)
    (big_number_from_lem : (t : Text)
      → big_number_from (b'0' ∷ b'x' ∷ t) ≡ (if is_hex t then parse_digits none t else none)) where
  abbrev part : ℕ → ℕ → ℕ → Option ℕ
  part p count shift = get_pseudorandom_part to_hex_string big_number_from p count shift 48

  last_digits :
      (n : ℕ)
      → 12 ≤ length (even_hex n)
      → drop (suc (suc (length (even_hex n))) - 12) (b'0' ∷ b'x' ∷ even_hex n) ≡ digits 12 n
  last_digits n h =
      let l : ℕ = length (even_hex n) in
      let k : suc (suc l) - 12 ≡ suc (suc (l - 12)) = omega arith in
      let m : l ≡ l - 12 + 12 = omega arith in
      rw k (
        ap (drop (l - 12)) (even_hex-digits n ∙ ap (λ j. digits j n) m) ∙ drop-digits (l - 12) 12 n)

  cast_large :
      (value shift_amount : ℕ)
      → 1099511627776 ≤ value / 2 ^ shift_amount
      → shift_right_and_cast to_hex_string value shift_amount 48
        ≡ b'0' ∷ b'x' ∷ digits 12 (value / 2 ^ shift_amount)
  unfolding shift_right_and_cast
  cast_large value shift_amount h =
      let n : ℕ = value / 2 ^ shift_amount in
      rw (to_hex_string_lem n)
        (ap (λ t. b'0' ∷ b'x' ∷ t) (last_digits n (length-even_hex_large n (shifted_large n h))))

  cast_small :
      (value shift_amount : ℕ)
      → value / 2 ^ shift_amount < 1099511627776
      → shift_right_and_cast to_hex_string value shift_amount 48
        ≡ b'0' ∷ b'x' ∷ b'0' ∷ b'x' ∷ even_hex (value / 2 ^ shift_amount)
  unfolding shift_right_and_cast
  cast_small value shift_amount h =
      let n : ℕ = value / 2 ^ shift_amount in
      let k : suc (suc (length (even_hex n))) - 12 ≡ 0 =
        omega (arith, length-even_hex_small n (shifted_small n h)) in
      rw (to_hex_string_lem n) (ap (λ j. b'0' ∷ b'x' ∷ drop j (b'0' ∷ b'x' ∷ even_hex n)) k)

  read_large :
      (value shift_amount : ℕ)
      → 1099511627776 ≤ value / 2 ^ shift_amount
      → big_number_from (shift_right_and_cast to_hex_string value shift_amount 48)
        ≡ some (value / 2 ^ shift_amount % 281474976710656)
  read_large value shift_amount h =
      let n : ℕ = value / 2 ^ shift_amount in
      ap big_number_from (cast_large value shift_amount h)
      ∙ big_number_from_lem (digits 12 n)
      ∙ rw (is_hex-digits 12 n) (parse_digits-digits 11 n ∙ ap some (cast_lem n))

  read_small :
      (value shift_amount : ℕ)
      → value / 2 ^ shift_amount < 1099511627776
      → big_number_from (shift_right_and_cast to_hex_string value shift_amount 48) ≡ none
  unfolding digit_value
  read_small value shift_amount h =
      let n : ℕ = value / 2 ^ shift_amount in
      ap big_number_from (cast_small value shift_amount h)
      ∙ big_number_from_lem (b'0' ∷ b'x' ∷ even_hex n)

  -- The 48 bits above the shift
  pub get_pseudorandom_part_lem :
      (value part_count shift_amount : ℕ)
      → 0 < part_count
      → get_pseudorandom_part to_hex_string big_number_from value part_count shift_amount 48 ≡ (
          if leb 1099511627776 (value / 2 ^ shift_amount)
          then some (value / 2 ^ shift_amount % 281474976710656 % part_count)
          else none)
  unfolding get_pseudorandom_part
  get_pseudorandom_part_lem value part_count shift_amount h =
      let p : (part_count == 0) ≡ false = ground (arith, h) in
      elim (Bool-cases (leb 1099511627776 (value / 2 ^ shift_amount))) [
        | inl large ↦ rw (large, read_large value shift_amount (ground (arith, large)), p) refl
        | inr small ↦ rw (small, read_small value shift_amount (ground (arith, small))) refl
      ]

  part_large :
      (value part_count shift_amount : ℕ)
      → 0 < part_count
      → 1099511627776 ≤ value / 2 ^ shift_amount
      → get_pseudorandom_part to_hex_string big_number_from value part_count shift_amount 48
        ≡ some (uint48_part value shift_amount part_count)
  part_large value part_count shift_amount h l =
      let e : leb 1099511627776 (value / 2 ^ shift_amount) ≡ true = ground (arith, l) in
      get_pseudorandom_part_lem value part_count shift_amount h ∙ rw e refl

  part_small :
      (value part_count shift_amount : ℕ)
      → 0 < part_count
      → value / 2 ^ shift_amount < 1099511627776
      → get_pseudorandom_part to_hex_string big_number_from value part_count shift_amount 48 ≡ none
  part_small value part_count shift_amount h l =
      let e : leb 1099511627776 (value / 2 ^ shift_amount) ≡ false = ground (arith, l) in
      get_pseudorandom_part_lem value part_count shift_amount h ∙ rw e refl

  -- If there are images of every kind, and hexadecimal numbers are printed and read as documented:
  -- the seed of a block is made of the five 48-bit pieces of the hash, each modulo the number of
  -- images, provided that the hash is at least 2 ^ 232; below that there is no seed.
  pub get_noun_seed_from_block_hash_lem :
      (keccak256 : Text → ℕ → ℕ) (images : ImageData) (noun_id : ℕ) (block_hash : Text)
      → HasImages images
      → get_noun_seed_from_block_hash to_hex_string big_number_from keccak256 images noun_id
          block_hash
        ≡ (if leb 1099511627776 (keccak256 block_hash noun_id / 2 ^ 192)
            then some (generate_seed images (keccak256 block_hash noun_id))
            else none)
  unfolding get_noun_seed_from_block_hash generate_seed
  get_noun_seed_from_block_hash_lem keccak256 images noun_id block_hash (b, o, a, h, g) =
      let p : ℕ = keccak256 block_hash noun_id in
      elim (Bool-cases (leb 1099511627776 (p / 2 ^ 192))) [
        | inl large ↦
            rw
              (
                large,
                part_large p (length images.bgcolors) 0 b (ground (arith, large)),
                part_large p (length images.bodies) 48 o (ground (arith, large)),
                part_large p (length images.accessories) 96 a (ground (arith, large)),
                part_large p (length images.heads) 144 h (ground (arith, large)),
                part_large p (length images.glasses_images) 192 g (ground (arith, large)),
              )
              refl
        | inr small ↦
            rw (small, part_small p (length images.glasses_images) 192 g (ground (arith, small)))
              (seed_of_parts-none (part p (length images.bgcolors) 0)
                (part p (length images.bodies) 48) (part p (length images.accessories) 96)
                (part p (length images.heads) 144))
      ]
