-- ===== src/Webapp/Voting/Shown.antt =====
-- What pages/Vote shows: which nouns are listed under which support, and the move that is offered.
use Prim.Native.String.{String}
use nouns_monorepo.Prelude.{
  ℕ, ◌+◌, ◌*◌, ◌≤◌, ◌<◌, ◌≡◌, arith, Bool, true, ◌&&◌, List, [], ◌∷◌, ◌++◌, if◌then◌else◌, ltb,
  some, ◌==◌, Bool-cases, inl, inr,
}
use nouns_monorepo.Prelude.Texts.{count, count-append}
use nouns_monorepo.Webapp.Proposals.{Proposal, succeeded, queued}
use nouns_monorepo.Webapp.Voting.Page.{
  NounsVote, get_noun_votes, is_awaiting_state_change, queue_proposal, execute_proposal,
  move_state_action, offered_move, eta_or_latest, for_percentage, against_percentage,
  abstain_percentage, total_votes, percentage,
}

-- The nouns of all votes, and that each is against, for or abstains
abbrev pub all_represented : List NounsVote → List String
all_represented [] = []
all_represented (v ∷ votes) = v.nouns_represented ++ all_represented votes

abbrev pub are_votes : List NounsVote → Bool
are_votes [] = true
are_votes (v ∷ votes) = ltb v.support_detailed 3 && are_votes votes

count-get_noun_votes :
    (x : String) (v : NounsVote) (votes : List NounsVote) (support : ℕ)
    → count x (get_noun_votes (v ∷ votes) support)
      ≡ (if v.support_detailed == support then count x v.nouns_represented else 0)
        + count x (get_noun_votes votes support)
unfolding get_noun_votes
count-get_noun_votes x v votes support = elim (Bool-cases (v.support_detailed == support)) [
  | inl h ↦ rw h (count-append x v.nouns_represented (get_noun_votes votes support))
  | inr h ↦ rw h (omega arith)
]

-- If each vote is against, for or abstains, each noun is listed under the three supports as often
-- as it has voted.
pub count-all_represented :
    (x : String) (votes : List NounsVote)
    → are_votes votes ≡ true
    → count x (get_noun_votes votes 1)
        + count x (get_noun_votes votes 0)
        + count x (get_noun_votes votes 2)
      ≡ count x (all_represented votes)
unfolding get_noun_votes
count-all_represented x [] h = omega arith
count-all_represented x (v ∷ votes) h = ground (
  arith,
  count-get_noun_votes x v votes 0,
  count-get_noun_votes x v votes 1,
  count-get_noun_votes x v votes 2,
  count-append x v.nouns_represented (all_represented votes),
  count-all_represented x votes (ground (arith, h)),
  h,
)

-- Queueing is offered only for a proposal that has succeeded, and execution only for a queued one
-- whose ETA has been reached.
pub offered_move_lem :
    (now : ℕ) (is_queue_pending is_execute_pending : Bool) (p : Proposal)
    → (offered_move now is_queue_pending is_execute_pending p ≡ some queue_proposal
        → p.status ≡ succeeded)
      × (offered_move now is_queue_pending is_execute_pending p ≡ some execute_proposal
          → (p.status ≡ queued) × (eta_or_latest p.eta ≤ now))
unfolding offered_move is_awaiting_state_change move_state_action
offered_move_lem now is_queue_pending is_execute_pending p = ground arith

-- If there are votes, the three percentages add up to 100.
pub percentages_lem :
    (p : Proposal)
    → 0 < total_votes p
    → (for_percentage p).numerator
        + (against_percentage p).numerator
        + (abstain_percentage p).numerator
      ≡ 100 * (for_percentage p).denominator
unfolding for_percentage against_percentage abstain_percentage percentage total_votes
percentages_lem p h = ground (arith, h)
