-- ===== src/Contracts/Chunks.antt =====
-- packages/nouns-contracts/utils.ts: lists in chunks.
use nouns_monorepo.Prelude.{
  ℕ, zero, suc, ◌≤◌, ◌≡◌, refl, arith, ap, ◌∙◌, Bool, true, ◌&&◌, List, [], ◌∷◌, ◌++◌, Option, none,
  some, length, length-take, length-drop, take, drop, take-append-drop, leb, ltb,
}

module _ {ℓ} {A : Type ℓ} where
  abbrev pub push_chunk : List A → Option (List (List A)) → Option (List (List A))
  push_chunk chunk none = none
  push_chunk chunk (some chunks) = some (chunk ∷ chunks)

  -- The loop, with fuel; chunks of size 0 would never end it.
  unfoldable pub chunk_loop : ℕ → ℕ → List A → Option (List (List A))
  chunk_loop fuel size [] = some []
  chunk_loop zero size (x ∷ xs) = none
  chunk_loop (suc fuel) size (x ∷ xs) =
      push_chunk (take size (x ∷ xs)) (chunk_loop fuel size (drop size (x ∷ xs)))

  -- One round for each element
  unfoldable pub chunk_array : List A → ℕ → Option (List (List A))
  unfolding chunk_loop
  chunk_array array size = chunk_loop (length array) size array

  abbrev pub concat : List (List A) → List A
  concat [] = []
  concat (chunk ∷ chunks) = chunk ++ concat chunks

  abbrev pub all_within : ℕ → List (List A) → Bool
  all_within size [] = true
  all_within size (chunk ∷ chunks) =
      (ltb 0 (length chunk) && leb (length chunk) size) && all_within size chunks

  chunk_loop-concat :
      (fuel size : ℕ) (array : List A)
      → length array ≤ fuel
      → (chunks : List (List A)) × (chunk_loop fuel (suc size) array ≡ some chunks)
        × (concat chunks ≡ array)
        × (all_within (suc size) chunks ≡ true)
  unfolding chunk_loop
  chunk_loop-concat fuel size [] h = ([], refl, refl, refl)
  chunk_loop-concat zero size (x ∷ xs) h = absurd (omega arith)
  chunk_loop-concat (suc fuel) size (x ∷ xs) h =
      let (chunks, e, c, w) =
        chunk_loop-concat fuel size (drop size xs) (omega (arith, length-drop size xs)) in
      let l : length (take size xs) ≤ size = omega (arith, length-take size xs) in
      (
        (x ∷ take size xs) ∷ chunks,
        ap (push_chunk (x ∷ take size xs)) e,
        ap (λ t. x ∷ t) (ap (λ t. take size xs ++ t) c ∙ take-append-drop size xs),
        ground (arith, w, l),
      )

  -- For a size that is not 0 the loop ends; the chunks hold the list in its order, and none is
  -- empty or longer than the size.
  pub chunk_array-concat :
      (array : List A) (size : ℕ)
      → (chunks : List (List A)) × (chunk_array array (suc size) ≡ some chunks)
        × (concat chunks ≡ array)
        × (all_within (suc size) chunks ≡ true)
  unfolding chunk_array
  chunk_array-concat array size = chunk_loop-concat (length array) size array (omega arith)
