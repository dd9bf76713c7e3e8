-- ===== src/Bots/Votes.antt =====
-- What packages/nouns-bots reads off the proposals, and when it announces a proposal again.
use nouns_monorepo.Prelude.{
  ℕ, ◌+◌, ◌/◌, ◌<◌, ◌≤◌, Bool, true, false, not, ◌&&◌, ◌||◌, ◌≡◌, ◌↔◌, refl, ◌∙◌, ap, arith, List,
  [], ◌∷◌, ltb, ◌==◌, some, Bool-cases, inl, inr, ==_iff,
}
use nouns_monorepo.Prelude.Int.{◌-ℤ◌}
use nouns_monorepo.Sdk.Text.{Text, codes, text_eq, text_eq_iff}
use nouns_monorepo.Bots.Types.{
  Proposal, Vote, has_vote, keep_new, extract_new_votes, is_at_risk_of_expiry,
  extract_proposal_title, first_line, strip_heading, skip_space,
}
use nouns_monorepo.Bots.Cache.{
  get_proposal_cache, find_proposal, update_proposal_cache, has_warned_of_expiry, has_number,
  set_proposal_expiry_warning_sent,
}
use nouns_monorepo.Bots.Handlers.{Services, Bots, Handler}
use nouns_monorepo.Bots.Ticks.{
  with_cache, announce_votes, announce_status, warn_of_expiry, process_proposal,
}

-- A vote with this id and with votes in its favour has been cast.
abbrev pub has_cast : Text → List Vote → Bool
has_cast id [] = false
has_cast id (v ∷ vs) = (text_eq v.id id && ltb 0 v.votes) || has_cast id vs

has_vote-same : (a b : Text) (vs : List Vote) → text_eq a b ≡ true → has_vote a vs ≡ has_vote b vs
has_vote-same a b vs e = ap (λ t. has_vote t vs) ((text_eq_iff a b).0 e)

-- A vote's id is among the announced ones exactly if it was not there before and has been cast
-- with at least one vote.
pub has_vote-keep_new :
    (id : Text) (before after : List Vote)
    → has_vote id (keep_new before after) ≡ (not (has_vote id before) && has_cast id after)
unfolding keep_new has_vote
has_vote-keep_new id before [] = ground arith
has_vote-keep_new id before (v ∷ vs) =
    ground (arith, has_vote-keep_new id before vs, has_vote-same v.id id before)

-- A proposal is at risk exactly in the last two of the 14 days in which it can be executed.
pub is_at_risk_of_expiry_iff :
    (now : ℕ) (p : Proposal)
    → (is_at_risk_of_expiry now p ≡ true) ↔ (
        (p.status ≡ codes "QUEUED")
        × (p.execution_eta + 1036800 ≤ now / 1000)
        × (now / 1000 < p.execution_eta + 1209600))
unfolding is_at_risk_of_expiry ◌-ℤ◌
is_at_risk_of_expiry_iff now p = ground (arith, text_eq_iff p.status (codes "QUEUED"))

abbrev pub has_code : ℕ → Text → Bool
has_code c [] = false
has_code c (d ∷ t) = (d == c) || has_code c t

first_line-has_code : (t : Text) → has_code 10 (first_line t) ≡ false
unfolding first_line
first_line-has_code [] = refl
first_line-has_code (c ∷ t) = ground (arith, first_line-has_code t)

skip_space-has_code : (c : ℕ) (t : Text) → has_code c t ≡ false → has_code c (skip_space t) ≡ false
unfolding skip_space
skip_space-has_code c [] h = refl
skip_space-has_code c (d ∷ t) h = ground (arith, skip_space-has_code c t)

strip_heading-has_code :
    (c : ℕ) (t : Text) → has_code c t ≡ false → has_code c (strip_heading t) ≡ false
unfolding strip_heading
strip_heading-has_code c [] h = refl
strip_heading-has_code c (d ∷ t) h = ground (arith, skip_space-has_code c t)

-- The title is one line.
pub extract_proposal_title-has_code :
    (p : Proposal) → has_code 10 (extract_proposal_title p) ≡ false
unfolding extract_proposal_title
extract_proposal_title-has_code p =
    strip_heading-has_code 10 (first_line p.description) (first_line-has_code p.description)

abbrev AllKnown : List Vote → List Vote → Type 0
AllKnown before [] = Unit
AllKnown before (v ∷ vs) = (has_vote v.id before ≡ true) × AllKnown before vs

AllKnown-more :
    (w : Vote) (before after : List Vote) → AllKnown before after → AllKnown (w ∷ before) after
unfolding has_vote
AllKnown-more w before [] h = tt
AllKnown-more w before (v ∷ vs) (e, h) = (ground (arith, e), AllKnown-more w before vs h)

AllKnown-refl : (vs : List Vote) → AllKnown vs vs
unfolding has_vote
AllKnown-refl [] = tt
AllKnown-refl (v ∷ vs) =
    (ground (arith, text_eq_iff v.id v.id), AllKnown-more v vs vs (AllKnown-refl vs))

keep_new-AllKnown : (before after : List Vote) → AllKnown before after → keep_new before after ≡ []
unfolding keep_new
keep_new-AllKnown before [] h = refl
keep_new-AllKnown before (v ∷ vs) (e, h) = rw e (keep_new-AllKnown before vs h)

module _ (w : Services) (hs : List Handler) where
  announce_status_same : (p : Proposal) (s : Bots) → announce_status w hs p p s ≡ s
  unfolding announce_status
  announce_status_same p s = let e = (text_eq_iff p.status p.status).1 refl in rw e refl

  announce_votes_same :
      (p : Proposal) (s : Bots) → announce_votes w hs p (extract_new_votes p p) s ≡ s
  unfolding extract_new_votes announce_votes
  announce_votes_same p s =
      ap (λ vs. announce_votes w hs p vs s)
        (keep_new-AllKnown p.votes p.votes (AllKnown-refl p.votes))
      ∙ refl

  warned_after :
      (now : ℕ) (p : Proposal) (s : Bots)
      → (is_at_risk_of_expiry now p
          && not (has_warned_of_expiry p.id (warn_of_expiry w hs now p s).cache))
        ≡ false
  unfolding warn_of_expiry has_warned_of_expiry has_number set_proposal_expiry_warning_sent
  warned_after now p s =
      elim (Bool-cases (is_at_risk_of_expiry now p && not (has_warned_of_expiry p.id s.cache))) [
        | inl e ↦ let known = (==_iff p.id p.id).1 refl in rw e (ground (arith, known))
        | inr e ↦ rw e e
      ]

  warn_of_expiry_quiet :
      (now : ℕ) (p : Proposal) (s : Bots)
      → (is_at_risk_of_expiry now p && not (has_warned_of_expiry p.id s.cache)) ≡ false
      → warn_of_expiry w hs now p s ≡ s
  unfolding warn_of_expiry
  warn_of_expiry_quiet now p s e = rw e refl

  process_proposal-known :
      (now : ℕ) (p before : Proposal) (s : Bots)
      → get_proposal_cache p.id s.cache ≡ some before
      → process_proposal w hs now p s
        ≡ with_cache (update_proposal_cache p) (
            warn_of_expiry w hs now p (
              announce_votes w hs p (extract_new_votes before p) (announce_status w hs before p s)))
  unfolding process_proposal update_proposal_cache warn_of_expiry
  process_proposal-known now p before s e = rw (process_proposal, e) refl

  process_proposal-stored :
      (now : ℕ) (p : Proposal) (s : Bots)
      → get_proposal_cache p.id (process_proposal w hs now p s).cache ≡ some p
  unfolding process_proposal get_proposal_cache update_proposal_cache find_proposal
  process_proposal-stored now p s = let e = (==_iff p.id p.id).1 refl in rw e refl

  process_proposal-unchanged :
      (now later : ℕ) (p : Proposal) (s : Bots)
      → let t = process_proposal w hs now p s in
        process_proposal w hs later p t
        ≡ with_cache (update_proposal_cache p) (warn_of_expiry w hs later p t)
  process_proposal-unchanged now later p s =
      let t = process_proposal w hs now p s in
      process_proposal-known later p p t (process_proposal-stored now p s)
      ∙ ap (λ u. with_cache (update_proposal_cache p) (warn_of_expiry w hs later p u))
          (ap (announce_votes w hs p (extract_new_votes p p)) (announce_status_same p t)
            ∙ announce_votes_same p t)

  -- After a step on a proposal that was known before, a second step while it does not change only
  -- stores it again if it is at the same time; at any other time it may warn of the proposal's
  -- expiry, but announces nothing else.
  pub process_proposal-again :
      (now later : ℕ) (p before : Proposal) (s : Bots)
      → get_proposal_cache p.id s.cache ≡ some before
      → let t = process_proposal w hs now p s in
        (process_proposal w hs now p t ≡ with_cache (update_proposal_cache p) t)
        × (process_proposal w hs later p t
            ≡ with_cache (update_proposal_cache p) (warn_of_expiry w hs later p t))
  unfolding update_proposal_cache has_warned_of_expiry
  process_proposal-again now later p before s known =
      let t = process_proposal w hs now p s in
      let first = process_proposal-known now p before s known in
      let told =
        announce_votes w hs p (extract_new_votes before p) (announce_status w hs before p s) in
      (
        process_proposal-unchanged now now p s
            ∙ ap (with_cache (update_proposal_cache p)) (
                warn_of_expiry_quiet now p t (
                  ap
                    (λ (u : Bots).
                      is_at_risk_of_expiry now p && not (has_warned_of_expiry p.id u.cache))
                    first
                  ∙ warned_after now p told)),
        process_proposal-unchanged now later p s,
      )
