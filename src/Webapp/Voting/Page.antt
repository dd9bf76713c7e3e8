-- ===== src/Webapp/Voting/Page.antt =====
-- packages/nouns-webapp/src/pages/Vote, utils/getNounsVotes.ts and components/ProposalHeader: what is
-- computed for a proposal's page. A moment is a number of milliseconds.
use Prim.Native.String.{String}
use text.Mathlib.Text.{◌==◌}
use nouns_monorepo.Prelude.{
  ℕ, zero, suc, ◌+◌, ◌*◌, Bool, true, false, not, ◌&&◌, ◌||◌, List, [], ◌∷◌, ◌++◌, if◌then◌else◌,
  leb, ltb, Option, none, some,
}
use nouns_monorepo.Prelude.{◌==◌ as nat_eq}
use nouns_monorepo.Prelude.Int.{ℤ, pos, ◌+ℤ◌, ◌-ℤ◌, ◌*ℤ◌, ltb_ℤ}
use nouns_monorepo.Webapp.Proposals.{Proposal, ProposalState, succeeded, queued}

-- A vote of the query, and the nouns that voted with it
pub record NounsVote : Type 0 where
  pub support_detailed : ℕ
  pub nouns_represented : List String

unfoldable pub get_noun_votes : List NounsVote → ℕ → List String
get_noun_votes [] support = []
get_noun_votes (v ∷ votes) support =
    let rest = get_noun_votes votes support in
    if nat_eq v.support_detailed support then v.nouns_represented ++ rest else rest

pub record QueriedVote : Type 0 where
  pub voter : String
  pub support : ℕ

pub record DelegateSnapshot : Type 0 where
  pub delegate_id : String
  pub represented : Option (List String)

abbrev pub or_empty : Option (List String) → List String
or_empty none = []
or_empty (some ids) = ids

-- `delegateToNounIds[id]`, of the last delegate with the id
unfoldable pub nouns_of : List DelegateSnapshot → String → Option (List String)
nouns_of [] id = none
nouns_of (d ∷ delegates) id = elim (nouns_of delegates id) [
  | some ids ↦ some ids
  | none ↦ if d.delegate_id == id then some (or_empty d.represented) else none
]

unfoldable pub votes_data : List DelegateSnapshot → List QueriedVote → List NounsVote
unfolding nouns_of
votes_data delegates [] = []
votes_data delegates (v ∷ votes) =
    record {
      support_detailed = v.support;
      nouns_represented = or_empty (nouns_of delegates v.voter);
    }
    ∷ votes_data delegates votes

-- Dates
abbrev average_block_time : ℕ
average_block_time = 13000

abbrev known : ℕ → Option ℕ
known zero = none
known (suc n) = some (suc n)

-- The moment of a block, 13 s from one to the next. No moment without a current block, or at block 0.
unfoldable pub date_of_block : ℕ → Option ℕ → Option ℕ → Option ℤ
date_of_block timestamp block current = elim block [
  | none ↦ none
  | some b ↦ elim current [
    | none ↦ none
    | some c ↦
        if nat_eq timestamp 0 || nat_eq c 0
        then none
        else some (pos timestamp +ℤ pos average_block_time *ℤ (pos b -ℤ pos c))
  ]
]

-- A fraction, for a percentage that is a floating-point number
pub record Fraction : Type 0 where
  pub numerator : ℕ
  pub denominator : ℕ

unfoldable pub total_votes : Proposal → ℕ
total_votes p = p.for_count + p.against_count + p.abstain_count

unfoldable pub percentage : ℕ → ℕ → Fraction
percentage votes total =
    if ltb 0 total
    then record { numerator = votes * 100; denominator = total }
    else record { numerator = 0; denominator = 1 }

unfoldable pub for_percentage : Proposal → Fraction
unfolding percentage total_votes
for_percentage p = percentage p.for_count (total_votes p)

unfoldable pub against_percentage : Proposal → Fraction
unfolding percentage total_votes
against_percentage p = percentage p.against_count (total_votes p)

unfoldable pub abstain_percentage : Proposal → Fraction
unfolding percentage total_votes
abstain_percentage p = percentage p.abstain_count (total_votes p)

abbrev pub is_succeeded : ProposalState → Bool
is_succeeded succeeded = true
is_succeeded _ = false

abbrev pub is_queued : ProposalState → Bool
is_queued queued = true
is_queued _ = false

-- `Number.MAX_SAFE_INTEGER`, for no ETA
abbrev pub eta_or_latest : Option ℕ → ℕ
eta_or_latest none = 9007199254740991
eta_or_latest (some eta) = eta

unfoldable pub is_awaiting_state_change : ℕ → Proposal → Bool
is_awaiting_state_change now p =
    if is_succeeded p.status
    then true
    else if is_queued p.status
    then leb (eta_or_latest p.eta) now
    else false

pub data Move : Type 0 where
  queue_proposal : Move
  execute_proposal : Move

-- The button's action
unfoldable pub move_state_action : Proposal → Move
move_state_action p = if is_succeeded p.status then queue_proposal else execute_proposal

-- The button that is there, unless a transaction is pending
unfoldable pub offered_move : ℕ → Bool → Bool → Proposal → Option Move
unfolding is_awaiting_state_change move_state_action
offered_move now is_queue_pending is_execute_pending p =
    if is_awaiting_state_change now p && not (is_queue_pending || is_execute_pending)
    then some (move_state_action p)
    else none

pub data DateCopy : Type 0 where
  ends : DateCopy
  ended : DateCopy
  starts : DateCopy

abbrev pub is_before : Option ℤ → ℕ → Bool
is_before none now = false
is_before (some d) now = ltb_ℤ d (pos now)

abbrev pub is_after : Option ℤ → ℕ → Bool
is_after none now = false
is_after (some d) now = ltb_ℤ (pos now) d

unfoldable pub start_or_end_time_copy : Option ℤ → Option ℤ → ℕ → DateCopy
start_or_end_time_copy start end now =
    if is_before start now && is_after end now
    then ends
    else if is_before end now
    then ended
    else starts

unfoldable pub start_or_end_time_time : Option ℤ → Option ℤ → ℕ → Option ℤ
start_or_end_time_time start end now = if not (is_before start now) then start else end

unfoldable pub is_active_for_voting : Option ℤ → Option ℤ → ℕ → Bool
is_active_for_voting start end now = is_before start now && is_after end now

-- components/ProposalHeader
unfoldable pub disable_vote_button : Bool → ℕ → Bool → Bool
disable_vote_button is_wallet_connected available_votes has_voted =
    not is_wallet_connected || (nat_eq available_votes 0 || has_voted)
