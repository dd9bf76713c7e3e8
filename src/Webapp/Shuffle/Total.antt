-- ===== src/Webapp/Shuffle/Total.antt =====
-- That the loop of pseudoRandomPredictableShuffle.ts ends, and what it leaves.
use mathlib.Core.List.{Perm, append_assoc, append-nil}
use mathlib.Core.List.Perm
use mathlib.Core.Path.{subst}
use native.Mathlib.Nat.{mul-lt-mul_of_pos_left, div-lt_iff_lt-mul}
use nouns_monorepo.Prelude.{
  ℕ, zero, suc, ◌*◌, ◌<◌, ◌≤◌, ◌≡◌, refl, arith, ap, sym, ◌∙◌, List, [], ◌∷◌, ◌++◌, map, Option,
  some, length, get_elem?,
}
use nouns_monorepo.Webapp.Shuffle.{
  remove_at, not_0, index_for, shuffle_loop, pseudo_random_predictable_shuffle,
}

module _ {ℓ} {A : Type ℓ} where
  -- The element at an index, and that the others are left
  taken :
      (i : ℕ) (xs : List A)
      → i < length xs
      → (x : A) × (get_elem? xs i ≡ some x)
        × Perm (x ∷ remove_at i xs) xs
        × (length xs ≡ suc (length (remove_at i xs)))
  unfolding remove_at
  taken i [] h = absurd (omega arith)
  taken zero (x ∷ xs) h = (x, refl, Perm.refl (x ∷ xs), refl)
  taken (suc i) (x ∷ xs) h =
      let (y, e, p, l) = taken i xs (omega arith) in
      (y, e, Perm.trans (Perm.swap x y (remove_at i xs)) (Perm.cons x p), ap suc l)

  map-some-append : (ys : List A) (y : A) → map some ys ++ some y ∷ [] ≡ map some (ys ++ y ∷ [])
  map-some-append [] y = refl
  map-some-append (z ∷ ys) y = ap (λ t. some z ∷ t) (map-some-append ys y)

  module _ (random : ℕ → ℕ) (denominator : ℕ) (below : (seed : ℕ) → random seed < denominator) where
    index_for-lt :
        (seed : ℕ) (x : A) (xs : List A)
        → index_for random denominator seed (x ∷ xs) < length (x ∷ xs)
    index_for-lt seed x xs =
        (div-lt_iff_lt-mul {k = denominator} {x = length (x ∷ xs) * random seed}
            {y = length (x ∷ xs)} (omega (arith, below seed))).1
          (mul-lt-mul_of_pos_left {m = random seed} {n = denominator} {k = length (x ∷ xs)}
            (below seed) (omega arith))

    abbrev loop : ℕ → ℕ → List A → List (Option A) → Option (List (Option A))
    loop = shuffle_loop random denominator

    shuffle_loop-Perm :
        (fuel seed : ℕ) (input ys : List A)
        → length input ≤ fuel
        → (zs : List A) × (shuffle_loop random denominator fuel seed input (map some ys)
            ≡ some (map some zs))
          × Perm zs (ys ++ input)
    unfolding shuffle_loop
    shuffle_loop-Perm fuel seed [] ys h =
        (ys, refl, subst (λ t. Perm ys t) (sym (append-nil ys)) (Perm.refl ys))
    shuffle_loop-Perm zero seed (x ∷ xs) ys h = absurd (omega arith)
    shuffle_loop-Perm (suc fuel) seed (x ∷ xs) ys h =
        let i : ℕ = index_for random denominator (not_0 seed) (x ∷ xs) in
        let (y, e, p, l) = taken i (x ∷ xs) (index_for-lt (not_0 seed) x xs) in
        let (zs, r, q) =
          shuffle_loop-Perm fuel (suc (not_0 seed)) (remove_at i (x ∷ xs)) (ys ++ y ∷ [])
            (omega (arith, l, h)) in
        (
          zs,
          ap (λ o. loop fuel (suc (not_0 seed)) (remove_at i (x ∷ xs)) (map some ys ++ o ∷ [])) e
              ∙ ap (λ t. loop fuel (suc (not_0 seed)) (remove_at i (x ∷ xs)) t)
                  (map-some-append ys y)
              ∙ r,
          Perm.trans (subst (λ t. Perm zs t) (append_assoc ys (y ∷ []) (remove_at i (x ∷ xs))) q)
              (Perm.append (Perm.refl ys) p),
        )

    -- If the fractions that are drawn are below 1: the loop ends after one round for each element,
    -- and leaves each element once, and no other.
    pub shuffle-Perm :
        (input : List A) (seed : ℕ)
        → (zs : List A) × (pseudo_random_predictable_shuffle random denominator input seed
            ≡ some (map some zs))
          × Perm zs input
    unfolding pseudo_random_predictable_shuffle
    shuffle-Perm input seed = shuffle_loop-Perm (length input) seed input [] (omega arith)
