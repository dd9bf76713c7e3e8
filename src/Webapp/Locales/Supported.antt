-- ===== src/Webapp/Locales/Supported.antt =====
-- Which languages hooks/useActivateLocale.ts gives.
use nouns_monorepo.Prelude.{
  ◌≡◌, ◌⊎◌, inl, inr, refl, List, [], ◌∷◌, ◌++◌, Option, none, some, Bool-cases,
}
use nouns_monorepo.Sdk.Text.{Text, codes}
use nouns_monorepo.Sdk.Text.Splits.{split}
use nouns_monorepo.Webapp.Titles.{or_else}
use nouns_monorepo.Webapp.Locales.{
  to_lower_case, to_upper_case, matches_locale, find_locale, parse_locale, locale_of_pieces,
  navigator_locale, or_default, initial_locale,
}

-- One of the two
unfoldable pub IsSupported : Text → Type 0
IsSupported t = (t ≡ codes "en-US") ⊎ (t ≡ codes "ja-JP")

-- None, or one of the two
AnySupported : Option Text → Type 0
AnySupported none = Unit
AnySupported (some t) = IsSupported t

none-AnySupported : AnySupported none
unfolding AnySupported
none-AnySupported = tt

parse_locale-AnySupported : (t : Option Text) → AnySupported (parse_locale t)
unfolding parse_locale find_locale AnySupported IsSupported
parse_locale-AnySupported none = tt
parse_locale-AnySupported (some t) =
    elim (Bool-cases (matches_locale (to_lower_case t) (codes "en-US"))) [
      | inl h ↦ rw h (inl refl)
      | inr h ↦ elim (Bool-cases (matches_locale (to_lower_case t) (codes "ja-JP"))) [
        | inl k ↦ rw (h, k) (inr refl)
        | inr k ↦ rw (h, k) tt
      ]
    ]

or_else-AnySupported :
    (a b : Option Text) → AnySupported a → AnySupported b → AnySupported (or_else a b)
unfolding AnySupported
or_else-AnySupported none b p q = q
or_else-AnySupported (some t) b p q = p

locale_of_pieces-AnySupported : (pieces : List Text) → AnySupported (locale_of_pieces pieces)
unfolding locale_of_pieces
locale_of_pieces-AnySupported [] = none-AnySupported
locale_of_pieces-AnySupported (language ∷ []) = parse_locale-AnySupported (some language)
locale_of_pieces-AnySupported (language ∷ [] ∷ more) = parse_locale-AnySupported (some language)
locale_of_pieces-AnySupported (language ∷ (c ∷ t) ∷ more) =
    let regional : Option Text = some (language ++ b'-' ∷ to_upper_case (c ∷ t)) in
    or_else-AnySupported (parse_locale regional) (parse_locale (some language))
      (parse_locale-AnySupported regional) (parse_locale-AnySupported (some language))

navigator_locale-AnySupported : (language : Option Text) → AnySupported (navigator_locale language)
unfolding navigator_locale
navigator_locale-AnySupported none = none-AnySupported
navigator_locale-AnySupported (some []) = none-AnySupported
navigator_locale-AnySupported (some (c ∷ t)) = locale_of_pieces-AnySupported (split b'-' (c ∷ t))

or_default-IsSupported : (a : Option Text) → AnySupported a → IsSupported (or_default a)
unfolding AnySupported IsSupported
or_default-IsSupported none p = inl refl
or_default-IsSupported (some t) p = p

-- The first language is one of the two that there are, whatever is stored and whatever the
-- navigator says.
pub initial_locale-IsSupported :
    (stored language : Option Text) → IsSupported (initial_locale stored language)
unfolding initial_locale
initial_locale-IsSupported stored language = or_default-IsSupported _ (
    or_else-AnySupported _ _ (parse_locale-AnySupported stored)
      (navigator_locale-AnySupported language))
