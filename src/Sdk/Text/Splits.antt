-- ===== src/Sdk/Text/Splits.antt =====
-- `split` and `join` of the language, for a separator of one character.
use nouns_monorepo.Prelude.{
  ℕ, ◌≡◌, refl, Bool, true, false, ◌&&◌, not, List, [], ◌∷◌, ◌++◌, if◌then◌else◌, ◌==◌, arith, ap,
  ◌∙◌, Bool-cases, inl, inr,
}
use nouns_monorepo.Sdk.Text.{Text}

abbrev pub push_char : ℕ → List Text → List Text
push_char c [] = (c ∷ []) ∷ []
push_char c (t ∷ ts) = (c ∷ t) ∷ ts

-- `text.split(sep)`
unfoldable pub split : ℕ → Text → List Text
split sep [] = [] ∷ []
split sep (c ∷ t) = let rest = split sep t in if c == sep then [] ∷ rest else push_char c rest

-- `texts.join(sep)`
unfoldable pub join : ℕ → List Text → Text
join sep [] = []
join sep (t ∷ []) = t
join sep (t ∷ u ∷ ts) = t ++ sep ∷ join sep (u ∷ ts)

-- `!text.includes(c)`
unfoldable pub is_free : ℕ → Text → Bool
is_free c [] = true
is_free c (d ∷ t) = not (d == c) && is_free c t

abbrev pub all_free : ℕ → List Text → Bool
all_free c [] = true
all_free c (t ∷ ts) = is_free c t && all_free c ts

pub is_free-append : (c : ℕ) (t u : Text) → is_free c (t ++ u) ≡ (is_free c t && is_free c u)
unfolding is_free
is_free-append c [] u = refl
is_free-append c (d ∷ t) u = ground (arith, is_free-append c t u)

pub split_free : (sep : ℕ) (t : Text) → is_free sep t ≡ true → split sep t ≡ t ∷ []
unfolding split is_free
split_free sep [] h = refl
split_free sep (c ∷ t) h = elim (Bool-cases (c == sep)) [
  | inl e ↦ absurd (ground (arith, e, h))
  | inr e ↦ rw (e, split_free sep t (ground (arith, h))) refl
]

pub split_first :
    (sep : ℕ) (t u : Text) → is_free sep t ≡ true → split sep (t ++ sep ∷ u) ≡ t ∷ split sep u
unfolding split is_free
split_first sep [] u h = ground arith
split_first sep (c ∷ t) u h = elim (Bool-cases (c == sep)) [
  | inl e ↦ absurd (ground (arith, e, h))
  | inr e ↦ rw (e, split_first sep t u (ground (arith, h))) refl
]

-- Texts without the separator are found again.
pub split-join :
    (sep : ℕ) (t : Text) (ts : List Text)
    → all_free sep (t ∷ ts) ≡ true
    → split sep (join sep (t ∷ ts)) ≡ t ∷ ts
unfolding join
split-join sep t [] h = split_free sep t (ground (arith, h))
split-join sep t (u ∷ ts) h =
    split_first sep t (join sep (u ∷ ts)) (ground (arith, h))
    ∙ ap (λ r. t ∷ r) (split-join sep u ts (ground (arith, h)))

join-push_char : (sep c : ℕ) (ts : List Text) → join sep (push_char c ts) ≡ c ∷ join sep ts
unfolding join
join-push_char sep c [] = refl
join-push_char sep c (t ∷ []) = refl
join-push_char sep c (t ∷ u ∷ ts) = refl

abbrev is_empty : List Text → Bool
is_empty [] = true
is_empty (t ∷ ts) = false

is_empty-push_char : (c : ℕ) (ts : List Text) → is_empty (push_char c ts) ≡ false
is_empty-push_char c [] = refl
is_empty-push_char c (t ∷ ts) = refl

is_empty-split : (sep : ℕ) (t : Text) → is_empty (split sep t) ≡ false
unfolding split
is_empty-split sep [] = refl
is_empty-split sep (c ∷ t) = elim (Bool-cases (c == sep)) [
  | inl e ↦ rw e refl
  | inr e ↦ rw e (is_empty-push_char c (split sep t))
]

join_after :
    (sep : ℕ) (ts : List Text) → is_empty ts ≡ false → join sep ([] ∷ ts) ≡ sep ∷ join sep ts
unfolding join
join_after sep [] h = ground arith
join_after sep (t ∷ ts) h = refl

-- Joining the pieces again gives the text.
pub join-split : (sep : ℕ) (t : Text) → join sep (split sep t) ≡ t
unfolding split join
join-split sep [] = refl
join-split sep (c ∷ t) = elim (Bool-cases (c == sep)) [
  | inl e ↦
      let same : c ≡ sep = ground (arith, e) in
      rw (e, join_after sep (split sep t) (is_empty-split sep t), join-split sep t, same) refl
  | inr e ↦ rw (e, join-push_char) (ap (λ r. c ∷ r) (join-split sep t))
]
