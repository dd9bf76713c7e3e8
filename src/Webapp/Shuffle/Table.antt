-- ===== src/Webapp/Shuffle/Table.antt =====
-- packages/nouns-webapp/src/components/NounImageVoteTable: the nouns of a vote card, shuffled, in a
-- table of three rows.
use mathlib.Core.List.{Perm}
use nouns_monorepo.Prelude.{
  ℕ, zero, suc, ◌+◌, ◌*◌, ◌<◌, ◌≤◌, ◌≡◌, refl, arith, ap, Bool, true, false, List, [], ◌∷◌, ◌++◌,
  map, if◌then◌else◌, Option, none, some, length, length-take, take, get_elem?,
}
use nouns_monorepo.Webapp.Shuffle.{pseudo_random_predictable_shuffle}
use nouns_monorepo.Webapp.Shuffle.Total.{shuffle-Perm}

abbrev pub nouns_per_vote_card_desktop : ℕ
nouns_per_vote_card_desktop = 15

-- A noun, by its id, or a grey circle
pub data Cell {ℓ} (A : Type ℓ) : Type ℓ where
  noun_circular : Option A → Cell A
  gray_circle : Cell A

abbrev pub row_length : Bool → ℕ
row_length is_xl_screen = if is_xl_screen then 5 else 4

module _ {ℓ} {A : Type ℓ} where
  abbrev pub gray_circles : ℕ → List (Cell A)
  gray_circles zero = []
  gray_circles (suc n) = gray_circle ∷ gray_circles n

  abbrev pub padded : List (Option A) → List (Cell A)
  padded shuffled =
      take nouns_per_vote_card_desktop
        (map noun_circular shuffled ++ gray_circles nouns_per_vote_card_desktop)

  -- `n` cells from an index on
  abbrev pub table_row : List (Cell A) → ℕ → ℕ → List (Option (Cell A))
  table_row cells index zero = []
  table_row cells index (suc n) = get_elem? cells index ∷ table_row cells (suc index) n

  abbrev pub table_content : Bool → List (Cell A) → List (List (Option (Cell A)))
  table_content is_xl_screen cells =
      let n = row_length is_xl_screen in
      table_row cells 0 n ∷ table_row cells n n ∷ table_row cells (2 * n) n ∷ []

  module _ (random : ℕ → ℕ) (denominator : ℕ) where
    abbrev pub padded_or_none : Option (List (Option A)) → Option (List (Cell A))
    padded_or_none none = none
    padded_or_none (some shuffled) = some (padded shuffled)

    unfoldable pub padded_noun_ids : List A → ℕ → Option (List (Cell A))
    unfolding pseudo_random_predictable_shuffle
    padded_noun_ids noun_ids prop_id =
        padded_or_none (pseudo_random_predictable_shuffle random denominator noun_ids prop_id)

  length-gray_circles :
      (cells : List (Cell A)) (n : ℕ) → length (cells ++ gray_circles n) ≡ length cells + n
  length-gray_circles [] zero = refl
  length-gray_circles [] (suc n) = omega (arith, length-gray_circles [] n)
  length-gray_circles (c ∷ cells) n = omega (arith, length-gray_circles cells n)

  length-padded : (shuffled : List (Option A)) → length (padded shuffled) ≡ 15
  length-padded shuffled = omega (
    arith,
    length-take 15 (map noun_circular shuffled ++ gray_circles 15),
    length-gray_circles (map noun_circular shuffled) 15,
  )

  abbrev all_filled : List (Option (Cell A)) → Bool
  all_filled [] = true
  all_filled (none ∷ cells) = false
  all_filled (some cell ∷ cells) = all_filled cells

  get_elem?-lt :
      (i : ℕ) (cells : List (Cell A))
      → i < length cells
      → (c : Cell A) × (get_elem? cells i ≡ some c)
  get_elem?-lt i [] h = absurd (omega arith)
  get_elem?-lt zero (c ∷ cells) h = (c, refl)
  get_elem?-lt (suc i) (c ∷ cells) h = get_elem?-lt i cells (omega arith)

  all_filled-table_row :
      (n index : ℕ) (cells : List (Cell A))
      → index + n ≤ length cells
      → all_filled (table_row cells index n) ≡ true
  all_filled-table_row zero index cells h = refl
  all_filled-table_row (suc n) index cells h =
      let (c, e) = get_elem?-lt index cells (omega arith) in
      rw e (all_filled-table_row n (suc index) cells (omega arith))

  -- Every place of a table
  abbrev pub all_rows_filled : List (List (Option (Cell A))) → Bool
  all_rows_filled [] = true
  all_rows_filled (row ∷ rows) = if all_filled row then all_rows_filled rows else false

  all_rows_filled-table_content :
      (is_xl_screen : Bool) (cells : List (Cell A))
      → length cells ≡ 15
      → all_rows_filled (table_content is_xl_screen cells) ≡ true
  all_rows_filled-table_content true cells h =
      rw
        (
          all_filled-table_row 5 0 cells (omega (arith, h)),
          all_filled-table_row 5 5 cells (omega (arith, h)),
          all_filled-table_row 5 10 cells (omega (arith, h)),
        )
        refl
  all_rows_filled-table_content false cells h =
      rw
        (
          all_filled-table_row 4 0 cells (omega (arith, h)),
          all_filled-table_row 4 4 cells (omega (arith, h)),
          all_filled-table_row 4 8 cells (omega (arith, h)),
        )
        refl

  -- If the fractions that are drawn are below 1: the cells are the first 15 of the nouns in some order
  -- and of grey circles, and every place of the table is filled, on either screen.
  pub padded_noun_ids_lem :
      (random : ℕ → ℕ) (denominator : ℕ)
      → ((seed : ℕ) → random seed < denominator)
      → (noun_ids : List A) (prop_id : ℕ) (is_xl_screen : Bool)
      → (zs : List A) × (padded_noun_ids random denominator noun_ids prop_id
          ≡ some (padded (map some zs)))
        × Perm zs noun_ids
        × (all_rows_filled (table_content is_xl_screen (padded (map some zs))) ≡ true)
  unfolding padded_noun_ids
  padded_noun_ids_lem random denominator below noun_ids prop_id is_xl_screen =
      let (zs, e, p) = shuffle-Perm random denominator below noun_ids prop_id in
      (
        zs,
        ap (padded_or_none random denominator) e,
        p,
        all_rows_filled-table_content is_xl_screen (padded (map some zs))
            (length-padded (map some zs)),
      )
