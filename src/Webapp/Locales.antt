-- ===== src/Webapp/Locales.antt =====
-- packages/nouns-webapp/src/hooks/useActivateLocale.ts and i18n/locales.ts: the language that is shown.
-- A change of case changes the ASCII letters. What a library detects is an argument.
pub mod Supported
use nouns_monorepo.Prelude.{
  ℕ, ◌+◌, ◌-◌, Bool, true, false, ◌&&◌, ◌||◌, List, [], ◌∷◌, ◌++◌, if◌then◌else◌, leb, Option, none,
  some, map,
}
use nouns_monorepo.Sdk.Text.{Text, codes, text_eq}
use nouns_monorepo.Sdk.Text.Splits.{split}
use nouns_monorepo.Webapp.Titles.{or_else}

abbrev pub supported_locales : List Text
supported_locales = codes "en-US" ∷ codes "ja-JP" ∷ []

abbrev pub default_locale : Text
default_locale = codes "en-US"

unfoldable pub to_lower_case : Text → Text
to_lower_case t = map (λ c. if leb 65 c && leb c 90 then c + 32 else c) t

unfoldable pub to_upper_case : Text → Text
to_upper_case t = map (λ c. if leb 97 c && leb c 122 then c - 32 else c) t

abbrev pub first_piece : List Text → Text
first_piece [] = []
first_piece (t ∷ ts) = t

unfoldable pub matches_locale : Text → Text → Bool
unfolding to_lower_case split text_eq
matches_locale lower locale =
    text_eq (to_lower_case locale) lower || text_eq (first_piece (split b'-' locale)) lower

unfoldable pub find_locale : Text → List Text → Option Text
unfolding matches_locale
find_locale lower [] = none
find_locale lower (locale ∷ locales) =
    if matches_locale lower locale then some locale else find_locale lower locales

-- Nothing that is not a text
unfoldable pub parse_locale : Option Text → Option Text
unfolding find_locale to_lower_case
parse_locale none = none
parse_locale (some t) = find_locale (to_lower_case t) supported_locales

-- A language with a region, which may be empty or missing
unfoldable pub locale_of_pieces : List Text → Option Text
unfolding parse_locale to_upper_case
locale_of_pieces [] = none
locale_of_pieces (language ∷ []) = parse_locale (some language)
locale_of_pieces (language ∷ [] ∷ more) = parse_locale (some language)
locale_of_pieces (language ∷ (c ∷ t) ∷ more) =
    or_else (parse_locale (some (language ++ b'-' ∷ to_upper_case (c ∷ t))))
      (parse_locale (some language))

unfoldable pub navigator_locale : Option Text → Option Text
unfolding locale_of_pieces split
navigator_locale none = none
navigator_locale (some []) = none
navigator_locale (some (c ∷ t)) = locale_of_pieces (split b'-' (c ∷ t))

abbrev pub or_default : Option Text → Text
or_default none = default_locale
or_default (some t) = t

-- From the stored text and the navigator's language
unfoldable pub initial_locale : Option Text → Option Text → Text
unfolding parse_locale navigator_locale
initial_locale stored language =
    or_default (or_else (parse_locale stored) (navigator_locale language))

-- The stored text as it is, before all else
unfoldable pub use_active_locale : Option Text → Option Text → Option Text → Text
unfolding navigator_locale
use_active_locale stored language detected =
    or_default (or_else stored (or_else (navigator_locale language) detected))
