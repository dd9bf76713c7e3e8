-- ===== src/Subgraph/Dao.antt =====
-- packages/nouns-subgraph/src/nouns-dao.ts: the handlers of the governor's events.
pub mod Proposals
pub mod Ballots
pub mod Queue
use Prim.Native.Char.{code}
use Prim.Native.String
use Prim.Native.String.{String}
use text.Mathlib.Text.{◌==◌}
use nouns_monorepo.Prelude.{
  ℕ, Bool, true, false, ◌&&◌, Option, none, some, List, if◌then◌else◌, leb, ◌==◌ as nat_eq,
}
use nouns_monorepo.Prelude.Int.{pos, ◌+ℤ◌, ◌-ℤ◌}
use nouns_monorepo.Subgraph.Schema.{
  ProposalStatus, pending, active, cancelled, vetoed, queued, executed, Proposal, Vote, Delegate,
}
use nouns_monorepo.Subgraph.Store.{
  Database, Store, save_governance, save_proposal, save_vote, log_error,
  delegate_not_found_on_proposal, delegate_not_found_on_vote,
}
use nouns_monorepo.Subgraph.Helpers.{
  is_none, get_governance, get_or_create_delegate, delegate_of, proposal_of, vote_of,
}

pub record ProposalCreated : Type 0 where
  pub id : String
  pub proposer : String
  pub targets : List String
  pub values : List ℕ
  pub signatures : List String
  pub calldatas : List String
  pub start_block : ℕ
  pub end_block : ℕ
  pub proposal_threshold : ℕ
  pub quorum_votes : ℕ
  pub description : String
  pub block_number : ℕ
  pub block_timestamp : ℕ
  pub transaction_hash : String

pub record VoteCast : Type 0 where
  pub proposal_id : String
  pub voter : String
  pub votes : ℕ
  pub support : ℕ
  pub reason : String
  pub transaction_hash : String

-- `description.split('\\n').join('\n')`: a backslash with an `n` behind it becomes a line break.
unfoldable pub unescape_lines : String → String
unescape_lines String.[] = String.[]
unescape_lines (String.◌∷◌ c String.[]) = String.◌∷◌ c String.[]
unescape_lines (String.◌∷◌ c (String.◌∷◌ d s)) =
    elim (nat_eq (code c) b'\\' && nat_eq (code d) b'n') [
      | true ↦ String.◌∷◌ "\n" (unescape_lines s)
      | false ↦ String.◌∷◌ c (unescape_lines (String.◌∷◌ d s))
    ]

-- A status that is not set is not pending here; the generated getter, of a field that must be there,
-- would stop the indexing in its place.
abbrev pub is_pending : Option ProposalStatus → Bool
is_pending (some pending) = true
is_pending _ = false

-- `voter.concat('-').concat(proposalId)`
unfoldable pub vote_id : String → String → String
vote_id voter proposal = String.◌++◌ voter (String.◌++◌ "-" proposal)

-- The row that `handleProposalCreatedWithRequirements` saves, from the one that it read.
abbrev pub opened : ProposalCreated → String → Proposal → Proposal
opened ev proposer proposal = record proposal {
  details = some (record {
    proposer = proposer;
    targets = ev.targets;
    values = ev.values;
    signatures = ev.signatures;
    calldatas = ev.calldatas;
    created_timestamp = ev.block_timestamp;
    start_block = ev.start_block;
    end_block = ev.end_block;
    proposal_threshold = ev.proposal_threshold;
    quorum_votes = ev.quorum_votes;
    description = unescape_lines ev.description;
  });
  status = some (if leb ev.start_block ev.block_number then active else pending);
}

-- The row that `handleVoteCast` saves, from the one that it read. An empty reason is not written.
abbrev pub cast_vote : VoteCast → String → Delegate → Vote → Vote
cast_vote ev proposal voter vote = record vote {
  ballot = some (record {
    proposal = proposal;
    voter = voter.id;
    votes_raw = ev.votes;
    votes = ev.votes;
    support = nat_eq ev.support 1;
    support_detailed = ev.support;
    nouns = voter.nouns_represented;
  });
  reason = if ev.reason == "" then vote.reason else some ev.reason;
}

module _ {D : Database} where
  -- A look-up without creation, and the log entry for a delegate that is not there.
  unfoldable pub check_delegate : (String → Store D → Store D) → String → Store D → Store D
  unfolding get_or_create_delegate
  check_delegate report id s =
      let (found, s1) = get_or_create_delegate id false true s in
      if is_none found then report id s1 else s1

  unfoldable pub handle_proposal_created : ProposalCreated → Store D → Store D
  handle_proposal_created ev s =
      let (proposal, s1) = proposal_of ev.id s in
      let s2 =
        check_delegate (λ id. log_error (delegate_not_found_on_proposal id ev.transaction_hash))
          ev.proposer s1 in
      let (proposer, s3) = delegate_of ev.proposer s2 in
      save_proposal (opened ev proposer.id proposal) s3

  -- `handleProposalCanceled` and `handleProposalVetoed`
  unfoldable pub set_status : ProposalStatus → String → Store D → Store D
  set_status status id s =
      let (proposal, s1) = proposal_of id s in
      save_proposal (record proposal { status = some status }) s1

  unfoldable pub handle_proposal_canceled : String → Store D → Store D
  handle_proposal_canceled id s = set_status cancelled id s

  unfoldable pub handle_proposal_vetoed : String → Store D → Store D
  handle_proposal_vetoed id s = set_status vetoed id s

  -- The governance entity is read before the proposal may be created, and saved last.
  unfoldable pub handle_proposal_queued : String → ℕ → Store D → Store D
  handle_proposal_queued id eta s =
      let g = get_governance s in
      let (proposal, s1) = proposal_of id s in
      let s2 =
        save_proposal (record proposal { status = some queued; execution_eta = some eta }) s1 in
      save_governance (record g { proposals_queued = g.proposals_queued +ℤ pos 1 }) s2

  unfoldable pub handle_proposal_executed : String → Store D → Store D
  handle_proposal_executed id s =
      let g = get_governance s in
      let (proposal, s1) = proposal_of id s in
      let s2 =
        save_proposal (record proposal { status = some executed; execution_eta = none }) s1 in
      save_governance (record g { proposals_queued = g.proposals_queued -ℤ pos 1 }) s2

  -- A pending proposal that is voted on becomes active.
  unfoldable pub activate : Proposal → Store D → Store D
  activate proposal s =
      if is_pending proposal.status
      then save_proposal (record proposal { status = some active }) s
      else s

  unfoldable pub handle_vote_cast : VoteCast → Store D → Store D
  handle_vote_cast ev s =
      let (proposal, s1) = proposal_of ev.proposal_id s in
      let (vote, s2) = vote_of (vote_id ev.voter ev.proposal_id) s1 in
      let s3 =
        check_delegate (λ id. log_error (delegate_not_found_on_vote id ev.transaction_hash))
          ev.voter s2 in
      let (voter, s4) = delegate_of ev.voter s3 in
      activate proposal (save_vote (cast_vote ev proposal.id voter vote) s4)
