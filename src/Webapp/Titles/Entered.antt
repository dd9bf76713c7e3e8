-- ===== src/Webapp/Titles/Entered.antt =====
-- The title that is entered on the page for a new proposal, pages/CreateProposal, and the one that
-- wrappers/nounsDao.ts reads.
use nouns_monorepo.Prelude.{
  ℕ, ◌≡◌, refl, Bool, true, false, not, ◌&&◌, [], ◌∷◌, ◌++◌, ◌==◌, some, arith, ap, ◌∙◌,
}
use nouns_monorepo.Sdk.Text.{Text, is_space}
use nouns_monorepo.Webapp.Titles.{
  unescape_lines, line, spaced_line, after_space, after_hashes, extract_hash_title, extract_title,
  remove_pairs, remove_bold, remove_italics, remove_markdown_style, or_untitled, title_of,
}

-- `# ${title}\n\n${body}`
unfoldable pub description_text : Text → Text → Text
description_text title body = b'#' ∷ b' ' ∷ title ++ b'\n' ∷ b'\n' ∷ body

-- No character is `c`.
unfoldable pub lacks : ℕ → Text → Bool
lacks c [] = true
lacks c (d ∷ t) = not (d == c) && lacks c t

-- The title begins with a character that is no space, and has no line break, backslash or marks.
unfoldable pub is_plain_title : Text → Bool
unfolding lacks
is_plain_title [] = false
is_plain_title (c ∷ t) =
    not (is_space c)
    && (lacks b'\n' (c ∷ t) && (lacks b'\\' (c ∷ t) && (lacks b'*' (c ∷ t) && lacks b'_' (c ∷ t))))

line-append :
    (t u : Text) (c : ℕ) → lacks b'\n' (c ∷ t) ≡ true → line (c ∷ t ++ b'\n' ∷ u) ≡ some (c ∷ t)
unfolding line lacks
line-append [] u c h = let n : (c == b'\n') ≡ false = ground (arith, h) in rw n refl
line-append (d ∷ t) u c h =
    let n : (c == b'\n') ≡ false = ground (arith, h) in
    rw (n, line-append t u d (ground (arith, h))) refl

unescape_lines-append :
    (t u : Text) (c : ℕ)
    → lacks b'\\' (c ∷ t) ≡ true
    → unescape_lines (c ∷ t ++ b'\n' ∷ u) ≡ c ∷ t ++ unescape_lines (b'\n' ∷ u)
unfolding unescape_lines lacks
unescape_lines-append [] u c h = let n : (c == b'\\') ≡ false = ground (arith, h) in rw n refl
unescape_lines-append (d ∷ t) u c h =
    let n : (c == b'\\') ≡ false = ground (arith, h) in
    rw n (ap (λ r. c ∷ r) (unescape_lines-append t u d (ground (arith, h))))

unescape_lines-newline : (u : Text) → unescape_lines (b'\n' ∷ u) ≡ b'\n' ∷ unescape_lines u
unfolding unescape_lines
unescape_lines-newline [] = refl
unescape_lines-newline (c ∷ u) = refl

remove_pairs-lacks : (m : ℕ) (t : Text) → lacks m t ≡ true → remove_pairs m t ≡ t
unfolding remove_pairs lacks
remove_pairs-lacks m [] h = refl
remove_pairs-lacks m (c ∷ []) h = refl
remove_pairs-lacks m (c ∷ d ∷ t) h =
    let n : (c == m) ≡ false = ground (arith, h) in
    rw n (ap (λ r. c ∷ r) (remove_pairs-lacks m (d ∷ t) (ground (arith, h))))

spaced_line-append :
    (t u : Text) (c : ℕ)
    → is_space c ≡ false
    → lacks b'\n' (c ∷ t) ≡ true
    → spaced_line (c ∷ t ++ b'\n' ∷ u) ≡ some (c ∷ t)
unfolding spaced_line
spaced_line-append t u c n h = rw n (line-append t u c h)

extract_hash_title_lem :
    (t : Text) (l : Text) → spaced_line t ≡ some l → extract_hash_title (b'#' ∷ b' ' ∷ t) ≡ some l
unfolding extract_hash_title after_hashes after_space is_space
extract_hash_title_lem t l h = rw h refl

unescaped :
    (title body : Text)
    → lacks b'\\' title ≡ true
    → unescape_lines (description_text title body)
      ≡ b'#' ∷ b' ' ∷ title ++ b'\n' ∷ unescape_lines (b'\n' ∷ body)
unfolding description_text lacks
unescaped title body h =
    unescape_lines-append (b' ' ∷ title) (b'\n' ∷ body) b'#' (ground (arith, h))
    ∙ ap (λ r. b'#' ∷ b' ' ∷ title ++ r) (unescape_lines-newline (b'\n' ∷ body))

without_marks :
    (t : Text) → lacks b'_' t ≡ true → lacks b'*' t ≡ true → remove_markdown_style (some t) ≡ some t
unfolding remove_markdown_style remove_bold remove_italics
without_marks t u a = rw (remove_pairs-lacks b'_' t u, remove_pairs-lacks b'*' t a) refl

title_of_hash :
    (d t : Text)
    → extract_hash_title d ≡ some t
    → lacks b'_' t ≡ true
    → lacks b'*' t ≡ true
    → title_of (some d) ≡ t
unfolding title_of extract_title
title_of_hash d t e u a = rw e (ap or_untitled (without_marks t u a))

-- If a title begins with a character that is no white space and has no line break, backslash,
-- asterisk or underscore, it is the one that is read off the description that is proposed with it,
-- whatever the body is.
pub title_of-description_text :
    (title body : Text)
    → is_plain_title title ≡ true
    → title_of (some (unescape_lines (description_text title body))) ≡ title
unfolding is_plain_title
title_of-description_text [] body h = absurd (ground (arith, h))
title_of-description_text (c ∷ t) body h =
    let rest : Text = c ∷ t ++ b'\n' ∷ unescape_lines (b'\n' ∷ body) in
    ap (λ d. title_of (some d)) (unescaped (c ∷ t) body (ground (arith, h)))
    ∙ title_of_hash (b'#' ∷ b' ' ∷ rest) (c ∷ t)
        (extract_hash_title_lem rest (c ∷ t) (
          spaced_line-append t (unescape_lines (b'\n' ∷ body)) c (ground (arith, h))
            (ground (arith, h))))
        (ground (arith, h)) (ground (arith, h))
