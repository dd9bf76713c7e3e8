-- ===== src/Webapp/Titles.antt =====
-- The title of a proposal, which packages/nouns-webapp/src/wrappers/nounsDao.ts reads off its
-- description. A regular expression tries the longest run first and gives back characters one by one.
pub mod Entered
use nouns_monorepo.Prelude.{
  ℕ, zero, suc, Bool, true, false, ◌&&◌, ◌||◌, List, [], ◌∷◌, ◌++◌, if◌then◌else◌, ltb, leb, ◌==◌,
  Option, none, some,
}
use nouns_monorepo.Sdk.Text.{Text, codes, is_space}

-- `text.replace(/\\n/g, '\n')`
unfoldable pub unescape_lines : Text → Text
unescape_lines [] = []
unescape_lines (c ∷ []) = c ∷ []
unescape_lines (c ∷ d ∷ t) =
    let shorter = unescape_lines t in
    let longer = unescape_lines (d ∷ t) in
    if c == b'\\' && d == b'n' then b'\n' ∷ shorter else c ∷ longer

-- `[^\n]+`: the rest of a line that is not empty
unfoldable pub line : Text → Option Text
line [] = none
line (c ∷ t) =
    let rest = line t in
    if c == b'\n' then none else some (c ∷ elim rest [ none ↦ [] | some r ↦ r ])

abbrev pub or_else : Option Text → Option Text → Option Text
or_else none second = second
or_else (some t) second = some t

-- `\s*([^\n]+)`, behind a first character that is space
unfoldable pub spaced_line : Text → Option Text
unfolding is_space line
spaced_line [] = none
spaced_line (c ∷ t) =
    let further = spaced_line t in
    if is_space c then or_else further (line (c ∷ t)) else line (c ∷ t)

-- `\s+([^\n]+)`
unfoldable pub after_space : Text → Option Text
unfolding is_space spaced_line
after_space [] = none
after_space (c ∷ t) = if is_space c then spaced_line t else none

-- `#{1,6}\s+([^\n]+)`, of which at most `n + 1` are left
unfoldable pub after_hashes : ℕ → Text → Option Text
unfolding after_space
after_hashes n [] = none
after_hashes zero (c ∷ t) = if c == b'#' then after_space t else none
after_hashes (suc n) (c ∷ t) =
    let more = or_else (after_hashes n t) (after_space t) in if c == b'#' then more else none

-- `hashRegex`, `/^\s*#{1,6}\s+([^\n]+)/`; a space is no `#`.
unfoldable pub extract_hash_title : Text → Option Text
unfolding is_space after_hashes
extract_hash_title [] = none
extract_hash_title (c ∷ t) =
    let further = extract_hash_title t in if is_space c then further else after_hashes 5 (c ∷ t)

-- `={3,25}|-{3,25}`
unfoldable pub is_rule : Text → Bool
is_rule (c ∷ d ∷ e ∷ t) =
    (c == b'=' && (d == b'=' && e == b'=')) || (c == b'-' && (d == b'-' && e == b'-'))
is_rule _ = false

-- `[^\n]+\n(={3,25}|-{3,25})`
unfoldable pub is_ruled : Text → Bool
unfolding is_rule
is_ruled [] = false
is_ruled (c ∷ t) = let further = is_ruled t in if c == b'\n' then is_rule t else further

unfoldable pub ruled_line : Text → Option Text
unfolding line is_ruled
ruled_line t = if is_ruled t then line t else none

-- `equalTitleRegex`, `/^\s*([^\n]+)\n(={3,25}|-{3,25})/`
unfoldable pub extract_equal_title : Text → Option Text
unfolding is_space ruled_line
extract_equal_title [] = none
extract_equal_title (c ∷ t) =
    let further = extract_equal_title t in
    if is_space c then or_else further (ruled_line (c ∷ t)) else ruled_line (c ∷ t)

-- `none` is null; an empty body has no title.
unfoldable pub extract_title : Option Text → Option Text
unfolding extract_hash_title extract_equal_title
extract_title none = none
extract_title (some body) = or_else (extract_hash_title body) (extract_equal_title body)

-- `text.replace(/cc/g, '')`
unfoldable pub remove_pairs : ℕ → Text → Text
remove_pairs m [] = []
remove_pairs m (c ∷ []) = c ∷ []
remove_pairs m (c ∷ d ∷ t) =
    let shorter = remove_pairs m t in
    let longer = remove_pairs m (d ∷ t) in if c == m && d == m then shorter else c ∷ longer

abbrev pub remove_from : ℕ → Option Text → Option Text
remove_from m none = none
remove_from m (some t) = some (remove_pairs m t)

unfoldable pub remove_bold : Option Text → Option Text
unfolding remove_pairs
remove_bold text = remove_from b'*' text

unfoldable pub remove_italics : Option Text → Option Text
unfolding remove_pairs
remove_italics text = remove_from b'_' text

unfoldable pub remove_markdown_style : Option Text → Option Text
unfolding remove_bold remove_italics
remove_markdown_style text = remove_bold (remove_italics text)

abbrev pub or_untitled : Option Text → Text
or_untitled none = codes "Untitled"
or_untitled (some t) = t

-- The title that is shown for a description
unfoldable pub title_of : Option Text → Text
unfolding extract_title remove_markdown_style
title_of description = or_untitled (remove_markdown_style (extract_title description))
