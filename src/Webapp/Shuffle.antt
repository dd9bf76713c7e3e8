-- ===== src/Webapp/Shuffle.antt =====
-- packages/nouns-webapp/src/utils/pseudoRandomPredictableShuffle.ts. The fraction that is drawn for a
-- seed, of the sine, is a parameter.
pub mod Total
pub mod Table
use nouns_monorepo.Prelude.{
  ℕ, zero, suc, ◌+◌, ◌*◌, ◌/◌, List, [], ◌∷◌, ◌++◌, if◌then◌else◌, ◌==◌, Option, none, some, length,
  get_elem?,
}

abbrev pub not_0 : ℕ → ℕ
not_0 seed = if seed == 0 then 1 else seed

module _ {ℓ} {A : Type ℓ} where
  -- `input.splice(index, 1)`
  unfoldable pub remove_at : ℕ → List A → List A
  remove_at i [] = []
  remove_at zero (x ∷ xs) = xs
  remove_at (suc i) (x ∷ xs) = x ∷ remove_at i xs

  module _ (random : ℕ → ℕ) (denominator : ℕ) where
    abbrev pub index_for : ℕ → List A → ℕ
    index_for seed input = length input * random seed / denominator

    -- The loop, with fuel; an index beyond the end pushes `undefined` and takes nothing out.
    unfoldable pub shuffle_loop : ℕ → ℕ → List A → List (Option A) → Option (List (Option A))
    unfolding remove_at
    shuffle_loop fuel seed [] output = some output
    shuffle_loop zero seed (x ∷ xs) output = none
    shuffle_loop (suc fuel) seed (x ∷ xs) output =
        let i = index_for (not_0 seed) (x ∷ xs) in
        shuffle_loop fuel (suc (not_0 seed)) (remove_at i (x ∷ xs))
          (output ++ get_elem? (x ∷ xs) i ∷ [])

    -- One round for each element
    unfoldable pub pseudo_random_predictable_shuffle : List A → ℕ → Option (List (Option A))
    unfolding shuffle_loop
    pseudo_random_predictable_shuffle input seed = shuffle_loop (length input) seed input []
