-- ===== src/Webapp/Profile.antt =====
-- packages/nouns-webapp/src/components/ProfileActivityFeed, NounProfileVoteRow, ProposalStatus and
-- NounInfoRowBirthday, and useNounCanVoteTimestamp of wrappers/nounsAuction.ts: a noun's history.
pub mod Feed
use nouns_monorepo.Prelude.{
  ℕ, zero, suc, ◌+◌, ◌*◌, Bool, true, false, not, ◌&&◌, ◌||◌, List, [], ◌∷◌, ◌++◌, if◌then◌else◌,
  ltb, ◌==◌, Option, none, some, take, drop, get_elem?,
}
use nouns_monorepo.Sdk.Text.{Text, codes, text_eq}
use nouns_monorepo.Webapp.Auction.{AuctionState}
use nouns_monorepo.Webapp.Events.{Auction}
use nouns_monorepo.Webapp.Display.{is_nounder_noun, find_past, active_of}
use nouns_monorepo.Webapp.Proposals.{
  Proposal, ProposalState, undetermined, pending, active, canceled, defeated, succeeded, queued,
  expired, executed, vetoed,
}

-- The noun in whose auction a noun was there to vote
unfoldable pub next_noun_id_for_query : ℕ → ℕ
unfolding is_nounder_noun
next_noun_id_for_query noun_id =
    if is_nounder_noun (noun_id + 1) then noun_id + 1 + 1 else noun_id + 1

abbrev pub start_or_0 : Option Auction → ℕ
start_or_0 none = 0
start_or_0 (some a) = a.start_time

unfoldable pub noun_can_vote_timestamp : ℕ → List AuctionState → ℕ
unfolding next_noun_id_for_query find_past
noun_can_vote_timestamp noun_id past =
    start_or_0 (active_of (find_past (next_noun_id_for_query noun_id) past))

-- In milliseconds; nothing is shown without past auctions.
unfoldable pub birthday : ℕ → List AuctionState → Option ℕ
unfolding is_nounder_noun find_past
birthday noun_id [] = none
birthday noun_id (s ∷ past) =
    let for_query = if is_nounder_noun noun_id then noun_id + 1 else noun_id in
    some (start_or_0 (active_of (find_past for_query (s ∷ past))) * 1000)

pub record NounVoteHistory : Type 0 where
  pub voted_on : Text
  pub supports : Bool
  pub support_detailed : ℕ

-- `nounVotes[id]`: the last vote with the id
unfoldable pub vote_on : Text → List NounVoteHistory → Option NounVoteHistory
unfolding text_eq
vote_on id [] = none
vote_on id (h ∷ votes) = elim (vote_on id votes) [
  | some v ↦ some v
  | none ↦ if text_eq h.voted_on id then some h else none
]

-- An empty id has no vote.
abbrev pub vote_of_proposal : Proposal → List NounVoteHistory → Option NounVoteHistory
vote_of_proposal p votes = elim (p.proposal_id) [
  | none ↦ none
  | some id ↦ if text_eq id [] then none else vote_on id votes
]

abbrev pub is_there {ℓ} : {A : Type ℓ} → Option A → Bool
is_there none = false
is_there (some a) = true

-- The proposals since the noun can vote, and those it has voted on; `none` where a proposal has no
-- timestamp, which throws.
unfoldable pub filtered_proposals :
    List NounVoteHistory → ℕ → List ℕ → List Proposal → Option (List Proposal)
unfolding vote_on
filtered_proposals votes can_vote timestamps [] = some []
filtered_proposals votes can_vote [] (p ∷ proposals) = none
filtered_proposals votes can_vote (t ∷ timestamps) (p ∷ proposals) =
    elim (filtered_proposals votes can_vote timestamps proposals) [
      | none ↦ none
      | some rest ↦
          some (if ltb can_vote t || is_there (vote_of_proposal p votes) then p ∷ rest else rest)
    ]

unfoldable pub reverse {ℓ} : {A : Type ℓ} → List A → List A
reverse [] = []
reverse (x ∷ xs) = reverse xs ++ x ∷ []

abbrev pub max_events_show_above_fold : ℕ
max_events_show_above_fold = 5

-- The two tables, the latest proposal first
unfoldable pub above_fold : List Proposal → List Proposal
unfolding reverse
above_fold proposals = take max_events_show_above_fold (reverse proposals)

unfoldable pub below_fold : List Proposal → List Proposal
unfolding reverse
below_fold proposals = drop max_events_show_above_fold (reverse proposals)

pub data VoteIcon : Type 0 where
  pending_vote : VoteIcon
  absent_vote : VoteIcon
  yes_vote : VoteIcon
  abstain_vote : VoteIcon
  no_vote : VoteIcon

abbrev pub is_undecided : ProposalState → Bool
is_undecided pending = true
is_undecided active = true
is_undecided _ = false

unfoldable pub select_icon : Proposal → Option NounVoteHistory → VoteIcon
select_icon p none = if is_undecided p.status then pending_vote else absent_vote
select_icon p (some vote) =
    if not (vote.support_detailed == 0)
    then if vote.support_detailed == 1 then yes_vote else abstain_vote
    else no_vote

unfoldable pub select_voting_info_text : Proposal → Option NounVoteHistory → Text
select_voting_info_text p none =
    if is_undecided p.status then codes "Waiting for" else codes "Absent for"
select_voting_info_text p (some vote) =
    if not (vote.support_detailed == 0)
    then if vote.support_detailed == 1 then codes "Voted for" else codes "Abstained on"
    else codes "Voted aginst"

unfoldable pub select_proposal_status : ProposalState → Text
select_proposal_status succeeded = codes "success"
select_proposal_status executed = codes "success"
select_proposal_status queued = codes "success"
select_proposal_status defeated = codes "failure"
select_proposal_status vetoed = codes "failure"
select_proposal_status _ = codes "pending"

unfoldable pub select_proposal_text : ProposalState → Text
select_proposal_text pending = codes "Pending"
select_proposal_text active = codes "Active"
select_proposal_text succeeded = codes "Succeeded"
select_proposal_text executed = codes "Executed"
select_proposal_text defeated = codes "Defeated"
select_proposal_text queued = codes "Queued"
select_proposal_text canceled = codes "Canceled"
select_proposal_text vetoed = codes "Vetoed"
select_proposal_text expired = codes "Expired"
select_proposal_text undetermined = codes "Undetermined"

-- components/ProposalStatus
pub data Variant : Type 0 where
  primary : Variant
  success : Variant
  danger : Variant
  secondary : Variant

unfoldable pub status_variant : Option ProposalState → Variant
status_variant none = secondary
status_variant (some pending) = primary
status_variant (some active) = primary
status_variant (some succeeded) = success
status_variant (some executed) = success
status_variant (some defeated) = danger
status_variant (some vetoed) = danger
status_variant (some _) = secondary

unfoldable pub status_text : Option ProposalState → Text
status_text none = codes "Undetermined"
status_text (some pending) = codes "Pending"
status_text (some active) = codes "Active"
status_text (some succeeded) = codes "Succeeded"
status_text (some executed) = codes "Executed"
status_text (some defeated) = codes "Defeated"
status_text (some queued) = codes "Queued"
status_text (some canceled) = codes "Canceled"
status_text (some vetoed) = codes "Vetoed"
status_text (some expired) = codes "Expired"
status_text (some undetermined) = codes "Undetermined"
