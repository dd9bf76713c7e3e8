-- ===== src/Bots/Types.antt =====
-- packages/nouns-bots/src/types.ts and src/utils/proposals.ts: what the subgraph answers, and what
-- is read off a proposal. A text is a list of character codes.
use nouns_monorepo.Prelude.{
  ℕ, ◌+◌, ◌*◌, ◌/◌, Bool, false, not, ◌&&◌, ◌||◌, List, [], ◌∷◌, if◌then◌else◌, ltb, ◌==◌, Option,
}
use nouns_monorepo.Prelude.Int.{pos, ◌-ℤ◌, ltb_ℤ}
use nouns_monorepo.Sdk.Text.{Text, codes, text_eq, is_space}

pub record Account : Type 0 where
  pub id : Text

pub record Bid : Type 0 where
  pub id : Text
  pub amount : Text
  pub bidder : Account

pub record AuctionBids : Type 0 where
  pub id : ℕ
  pub end_time : ℕ
  pub bids : List Bid

pub data VoteDirection : Type 0 where
  against : VoteDirection
  for : VoteDirection
  abstain : VoteDirection

pub record Vote : Type 0 where
  pub id : Text
  pub voter : Account
  pub votes : ℕ
  pub support_detailed : VoteDirection
  pub reason : Option Text

-- A proposal whose numbers `parseProposal` has coerced.
pub record Proposal : Type 0 where
  pub id : ℕ
  pub proposer : Account
  pub description : Text
  pub status : Text
  pub quorum_votes : ℕ
  pub proposal_threshold : ℕ
  pub start_block : ℕ
  pub end_block : ℕ
  pub execution_eta : ℕ
  pub votes : List Vote

-- `previousStateVoteIds.indexOf(id) !== -1`
unfoldable pub has_vote : Text → List Vote → Bool
unfolding text_eq
has_vote id [] = false
has_vote id (v ∷ vs) = text_eq v.id id || has_vote id vs

unfoldable pub keep_new : List Vote → List Vote → List Vote
unfolding has_vote
keep_new before [] = []
keep_new before (v ∷ vs) =
    if not (has_vote v.id before) && ltb 0 v.votes
    then v ∷ keep_new before vs
    else keep_new before vs

unfoldable pub extract_new_votes : Proposal → Proposal → List Vote
unfolding keep_new
extract_new_votes before after = keep_new before.votes after.votes

-- `description.split('\n')[0]`
unfoldable pub first_line : Text → Text
first_line [] = []
first_line (c ∷ t) = if c == b'\n' then [] else c ∷ first_line t

unfoldable pub skip_space : Text → Text
unfolding is_space
skip_space [] = []
skip_space (c ∷ t) = if is_space c then skip_space t else c ∷ t

-- `replace(/^#\s*/, '')`
unfoldable pub strip_heading : Text → Text
unfolding skip_space
strip_heading [] = []
strip_heading (c ∷ t) = if c == b'#' then skip_space t else c ∷ t

unfoldable pub extract_proposal_title : Proposal → Text
unfolding first_line strip_heading
extract_proposal_title p = strip_heading (first_line p.description)

abbrev pub seconds_in_day : ℕ
seconds_in_day = 86400

-- `now` is the time in milliseconds.
unfoldable pub is_at_risk_of_expiry : ℕ → Proposal → Bool
unfolding text_eq
is_at_risk_of_expiry now p =
    if not (text_eq p.status (codes "QUEUED"))
    then false
    else (let left = pos (p.execution_eta + seconds_in_day * 14) -ℤ pos (now / 1000) in
        ltb_ℤ (pos 0) left && not (ltb_ℤ (pos (seconds_in_day * 2)) left))
