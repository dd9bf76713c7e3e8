-- ===== src/Subgraph/Dao/Queue.antt =====
-- What the handlers of nouns-dao.ts do to the counts in the governance entity.
use Prim.Native.String.{String}
use nouns_monorepo.Prelude.{Bool, ◌≡◌, refl, if◌then◌else◌, arith, ap, ◌∙◌}
use nouns_monorepo.Prelude.Int.{ℤ, pos, ◌+ℤ◌, ◌-ℤ◌}
use nouns_monorepo.Subgraph.Schema.{Proposal, Vote, Governance, cancelled, vetoed, ProposalStatus}
use nouns_monorepo.Subgraph.Store.{
  Database, Store, LogError, log_error, delegate_not_found_on_vote, delegate_not_found_on_proposal,
  save_vote,
}
use nouns_monorepo.Subgraph.Helpers.{is_none, get_governance, proposal_of, vote_of, delegate_of}
use nouns_monorepo.Subgraph.Helpers.Counts.{
  with_proposal, id-get_governance, get_governance-save, get_governance-proposal_of,
  get_governance-delegate_of,
}
use nouns_monorepo.Subgraph.Dao.{
  ProposalCreated, VoteCast, check_delegate, set_status, handle_proposal_created,
  handle_proposal_canceled, handle_proposal_vetoed, handle_proposal_queued,
  handle_proposal_executed, activate, cast_vote, handle_vote_cast, vote_id,
}
use nouns_monorepo.Subgraph.Dao.Proposals.{
  ProposalEvent, created, canceled, was_vetoed, was_queued, was_executed, voted, subject, handle,
}

-- The queue and the number of proposals, of a governance entity.
pub record Counts : Type 0 where
  pub in_queue : ℤ
  pub known : ℤ

abbrev pub counts : Governance → Counts
counts g = record { in_queue = g.proposals_queued; known = g.proposals }

-- How an event moves the two counts, where `new` says that the proposal was not stored before. A
-- cancellation and a veto leave the queue alone.
pub move_counts : ProposalEvent → Bool → Counts → Counts
move_counts (was_queued id eta) new c = record c { in_queue = c.in_queue +ℤ pos 1 }
move_counts (was_executed id) new c = record c { in_queue = c.in_queue -ℤ pos 1 }
move_counts (created ev) new c = record c { known = if new then c.known +ℤ pos 1 else c.known }
move_counts (canceled id) new c = record c { known = if new then c.known +ℤ pos 1 else c.known }
move_counts (was_vetoed id) new c = record c { known = if new then c.known +ℤ pos 1 else c.known }
move_counts (voted ev) new c = record c { known = if new then c.known +ℤ pos 1 else c.known }

module _ {D : Database} where
  counts-delegate_of :
      (id : String) (s : Store D)
      → counts (get_governance (delegate_of id s).1) ≡ counts (get_governance s)
  counts-delegate_of id s = ground (arith, get_governance-delegate_of id s)

  get_governance-check_delegate :
      (error : String → LogError) (id : String) (s : Store D)
      → get_governance (check_delegate (λ i. log_error (error i)) id s) ≡ get_governance s
  unfolding check_delegate get_governance
  get_governance-check_delegate error id s = ground arith

  get_governance-vote_of :
      (id : String) (s : Store D) → get_governance (vote_of id s).1 ≡ get_governance s
  unfolding vote_of get_governance
  get_governance-vote_of id s = ground arith

  get_governance-save_vote :
      (v : Vote) (s : Store D) → get_governance (save_vote v s) ≡ get_governance s
  unfolding get_governance
  get_governance-save_vote v s = refl

  get_governance-activate :
      (p : Proposal) (s : Store D) → get_governance (activate p s) ≡ get_governance s
  unfolding activate get_governance
  get_governance-activate p s = ground arith

  counts_set_status :
      (st : ProposalStatus) (id : String) (s : Store D)
      → get_governance (set_status st id s) ≡ (
          if is_none (D.proposals.load s.proposals id)
          then with_proposal (get_governance s)
          else get_governance s)
  unfolding set_status get_governance
  counts_set_status st id s = get_governance-proposal_of id s

  counts_created :
      (ev : ProposalCreated) (s : Store D)
      → counts (get_governance (handle_proposal_created ev s))
        ≡ counts (get_governance (proposal_of ev.id s).1)
  unfolding handle_proposal_created get_governance
  counts_created ev s =
      let s1 = (proposal_of ev.id s).1 in
      counts-delegate_of ev.proposer _
      ∙ ap counts (
          get_governance-check_delegate (λ i. delegate_not_found_on_proposal i ev.transaction_hash)
            ev.proposer s1)

  counts_voted :
      (ev : VoteCast) (s : Store D)
      → counts (get_governance (handle_vote_cast ev s))
        ≡ counts (get_governance (proposal_of ev.proposal_id s).1)
  unfolding handle_vote_cast
  counts_voted ev s =
      let (p, s1) = proposal_of ev.proposal_id s in
      let (v, s2) = vote_of (vote_id ev.voter ev.proposal_id) s1 in
      let s3 =
        check_delegate (λ i. log_error (delegate_not_found_on_vote i ev.transaction_hash)) ev.voter
          s2 in
      let (d, s4) = delegate_of ev.voter s3 in
      ap counts (get_governance-activate p (save_vote (cast_vote ev p.id d v) s4))
      ∙ ap counts (get_governance-save_vote (cast_vote ev p.id d v) s4)
      ∙ counts-delegate_of ev.voter s3
      ∙ ap counts (
          get_governance-check_delegate (λ i. delegate_not_found_on_vote i ev.transaction_hash)
            ev.voter s2)
      ∙ ap counts (get_governance-vote_of (vote_id ev.voter ev.proposal_id) s1)

  -- The counts of proposals and of queued proposals after each event. A proposal that is first
  -- heard of when it is queued or executed is not counted: the stale governance entity is saved
  -- over the new count.
  pub handle-move_counts :
      (ev : ProposalEvent) (s : Store D)
      → counts (get_governance (handle ev s))
        ≡ move_counts ev
            (is_none (D.proposals.load s.proposals (subject ev)))
            (counts (get_governance s))
  unfolding handle move_counts handle_proposal_canceled handle_proposal_vetoed
      handle_proposal_queued handle_proposal_executed
  handle-move_counts (created ev) s =
      counts_created ev s ∙ ground (arith, get_governance-proposal_of ev.id s)
  handle-move_counts (canceled id) s = ground (arith, counts_set_status cancelled id s)
  handle-move_counts (was_vetoed id) s = ground (arith, counts_set_status vetoed id s)
  handle-move_counts (was_queued id eta) s =
      ap counts (get_governance-save _ _ (id-get_governance s))
  handle-move_counts (was_executed id) s = ap counts (get_governance-save _ _ (id-get_governance s))
  handle-move_counts (voted ev) s =
      counts_voted ev s ∙ ground (arith, get_governance-proposal_of ev.proposal_id s)
