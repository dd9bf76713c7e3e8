-- ===== src/Subgraph/Dao/Proposals.antt =====
-- The status of a proposal under the handlers of nouns-dao.ts, against a transition function.
use Prim.Native.String.{String}
use text.Mathlib.Text.{◌==◌}
use text.Mathlib.TextEquality.{eq_iff}
use nouns_monorepo.Prelude.{
  ℕ, ◌≡◌, ◌&&◌, Option, none, some, if◌then◌else◌, arith, ap, leb, Option-cases, inl, inr,
}
use nouns_monorepo.Subgraph.Schema.{
  ProposalStatus, pending, active, cancelled, vetoed, queued, executed, Proposal,
}
use nouns_monorepo.Subgraph.Store.{
  Database, Store, LogError, log_error, delegate_not_found_on_vote, delegate_not_found_on_proposal,
  save_proposal, save_vote,
}
use nouns_monorepo.Subgraph.Helpers.{proposal_of, vote_of, delegate_of}
use nouns_monorepo.Subgraph.Helpers.Reads.{delegate_of_only}
use nouns_monorepo.Subgraph.Views.{proposal_at}
use nouns_monorepo.Subgraph.Dao.{
  ProposalCreated, VoteCast, is_pending, check_delegate, set_status, handle_proposal_created,
  handle_proposal_canceled, handle_proposal_vetoed, handle_proposal_queued,
  handle_proposal_executed, opened, cast_vote, activate, handle_vote_cast, vote_id,
}

-- The events of the governor that bear on a proposal.
pub data ProposalEvent : Type 0 where
  created : ProposalCreated → ProposalEvent
  canceled : String → ProposalEvent
  was_vetoed : String → ProposalEvent
  was_queued : String → ℕ → ProposalEvent
  was_executed : String → ProposalEvent
  voted : VoteCast → ProposalEvent

abbrev pub subject : ProposalEvent → String
subject (created ev) = ev.id
subject (canceled id) = id
subject (was_vetoed id) = id
subject (was_queued id eta) = id
subject (was_executed id) = id
subject (voted ev) = ev.proposal_id

-- The specification: the status and the ETA that an event leaves, from those before it.
pub next_status : ProposalEvent → Option ProposalStatus → Option ProposalStatus
next_status (created ev) st = some (if leb ev.start_block ev.block_number then active else pending)
next_status (canceled id) st = some cancelled
next_status (was_vetoed id) st = some vetoed
next_status (was_queued id eta) st = some queued
next_status (was_executed id) st = some executed
next_status (voted ev) st = if is_pending st then some active else st

pub next_eta : ProposalEvent → Option ℕ → Option ℕ
next_eta (was_queued id eta) e = some eta
next_eta (was_executed id) e = none
next_eta (created ev) e = e
next_eta (canceled id) e = e
next_eta (was_vetoed id) e = e
next_eta (voted ev) e = e

module _ {D : Database} where
  unfoldable pub handle : ProposalEvent → Store D → Store D
  handle (created ev) s = handle_proposal_created ev s
  handle (canceled id) s = handle_proposal_canceled id s
  handle (was_vetoed id) s = handle_proposal_vetoed id s
  handle (was_queued id eta) s = handle_proposal_queued id eta s
  handle (was_executed id) s = handle_proposal_executed id s
  handle (voted ev) s = handle_vote_cast ev s

  pub proposal_of_lem :
      (id : String) (s : Store D)
      → ((proposal_of id s).0 ≡ proposal_at s id) × ((proposal_of id s).1.proposals ≡ s.proposals)
  unfolding proposal_of
  proposal_of_lem id s = ground arith

  pub id-proposal_at : (id : String) (s : Store D) → (proposal_at s id).id ≡ id
  id-proposal_at id s = elim (Option-cases (D.proposals.load s.proposals id)) [
    | inl e ↦ rw e
    | inr (p, e) ↦ rw e (D.proposals.id-load s.proposals id p e)
  ]

  proposal_at-save :
      (p : Proposal) (s : Store D) (id k : String)
      → p.id ≡ id
      → proposal_at (save_proposal p s) k ≡ (if id == k then p else proposal_at s k)
  proposal_at-save p s id k e = rw (← e) (ground (arith, D.proposals.load-save s.proposals p k))

  check_delegate_proposals :
      (error : String → LogError) (id : String) (s : Store D)
      → (check_delegate (λ i. log_error (error i)) id s).proposals ≡ s.proposals
  unfolding check_delegate
  check_delegate_proposals error id s = ground arith

  delegate_of_proposals : (id : String) (s : Store D) → (delegate_of id s).1.proposals ≡ s.proposals
  delegate_of_proposals id s = ap (λ (t : Store D). t.proposals) (delegate_of_only id s)

  vote_of_proposals : (id : String) (s : Store D) → (vote_of id s).1.proposals ≡ s.proposals
  unfolding vote_of
  vote_of_proposals id s = ground arith

  set_status-proposal_at :
      (st : ProposalStatus) (id : String) (s : Store D) (k : String)
      → proposal_at (set_status st id s) k
        ≡ (if id == k then record (proposal_at s k) { status = some st } else proposal_at s k)
  unfolding set_status
  set_status-proposal_at st id s k =
      let (p, s1) = proposal_of id s in
      ground (
        arith,
        proposal_at-save (record p { status = some st }) s1 id k,
        proposal_of_lem id s,
        id-proposal_at id s,
        eq_iff id k,
      )

  queued-proposal_at :
      (id : String) (eta : ℕ) (s : Store D) (k : String)
      → proposal_at (handle_proposal_queued id eta s) k ≡ (
          if id == k
          then record (proposal_at s k) { status = some queued; execution_eta = some eta }
          else proposal_at s k)
  unfolding handle_proposal_queued
  queued-proposal_at id eta s k =
      let (p, s1) = proposal_of id s in
      ground (
        arith,
        proposal_at-save (record p { status = some queued; execution_eta = some eta }) s1 id k,
        proposal_of_lem id s,
        id-proposal_at id s,
        eq_iff id k,
      )

  executed-proposal_at :
      (id : String) (s : Store D) (k : String)
      → proposal_at (handle_proposal_executed id s) k ≡ (
          if id == k
          then record (proposal_at s k) { status = some executed; execution_eta = none }
          else proposal_at s k)
  unfolding handle_proposal_executed
  executed-proposal_at id s k =
      let (p, s1) = proposal_of id s in
      ground (
        arith,
        proposal_at-save (record p { status = some executed; execution_eta = none }) s1 id k,
        proposal_of_lem id s,
        id-proposal_at id s,
        eq_iff id k,
      )

  created-proposal_at :
      (ev : ProposalCreated) (s : Store D) (k : String)
      → ((proposal_at (handle_proposal_created ev s) k).status ≡ (
          if ev.id == k
          then some (if leb ev.start_block ev.block_number then active else pending)
          else (proposal_at s k).status))
        × ((proposal_at (handle_proposal_created ev s) k).execution_eta
            ≡ (proposal_at s k).execution_eta)
  unfolding handle_proposal_created
  created-proposal_at ev s k =
      let (p, s1) = proposal_of ev.id s in
      let s2 =
        check_delegate (λ i. log_error (delegate_not_found_on_proposal i ev.transaction_hash))
          ev.proposer s1 in
      let (d, s3) = delegate_of ev.proposer s2 in
      ground (
        arith,
        D.proposals.load-save s3.proposals (opened ev d.id p) k,
        delegate_of_proposals ev.proposer s2,
        check_delegate_proposals (λ i. delegate_not_found_on_proposal i ev.transaction_hash)
            ev.proposer s1,
        proposal_of_lem ev.id s,
        id-proposal_at ev.id s,
        eq_iff ev.id k,
      )

  activate-proposal_at :
      (p : Proposal) (s : Store D) (k : String)
      → proposal_at (activate p s) k ≡ (
          if p.id == k && is_pending p.status
          then record p { status = some active }
          else proposal_at s k)
  unfolding activate
  activate-proposal_at p s k =
      ground (arith, D.proposals.load-save s.proposals (record p { status = some active }) k)

  voted-proposal_at :
      (ev : VoteCast) (s : Store D) (k : String)
      → proposal_at (handle_vote_cast ev s) k ≡ (
          if ev.proposal_id == k && is_pending (proposal_at s k).status
          then record (proposal_at s k) { status = some active }
          else proposal_at s k)
  unfolding handle_vote_cast
  voted-proposal_at ev s k =
      let (p, s1) = proposal_of ev.proposal_id s in
      let (v, s2) = vote_of (vote_id ev.voter ev.proposal_id) s1 in
      let s3 =
        check_delegate (λ i. log_error (delegate_not_found_on_vote i ev.transaction_hash)) ev.voter
          s2 in
      let (d, s4) = delegate_of ev.voter s3 in
      ground (
        arith,
        activate-proposal_at p (save_vote (cast_vote ev p.id d v) s4) k,
        delegate_of_proposals ev.voter s3,
        check_delegate_proposals (λ i. delegate_not_found_on_vote i ev.transaction_hash) ev.voter
            s2,
        vote_of_proposals (vote_id ev.voter ev.proposal_id) s1,
        proposal_of_lem ev.proposal_id s,
        id-proposal_at ev.proposal_id s,
        eq_iff ev.proposal_id k,
      )

  -- The status and the ETA of every proposal after an event: those of the event's proposal are
  -- the specification's, all others stay.
  pub handle-next_status :
      (ev : ProposalEvent) (s : Store D) (k : String)
      → ((proposal_at (handle ev s) k).status ≡ (
          if subject ev == k
          then next_status ev (proposal_at s k).status
          else (proposal_at s k).status))
        × ((proposal_at (handle ev s) k).execution_eta ≡ (
            if subject ev == k
            then next_eta ev (proposal_at s k).execution_eta
            else (proposal_at s k).execution_eta))
  unfolding handle next_status next_eta handle_proposal_canceled handle_proposal_vetoed
  handle-next_status (created ev) s k = ground (arith, created-proposal_at ev s k)
  handle-next_status (canceled id) s k = ground (arith, set_status-proposal_at cancelled id s k)
  handle-next_status (was_vetoed id) s k = ground (arith, set_status-proposal_at vetoed id s k)
  handle-next_status (was_queued id eta) s k = ground (arith, queued-proposal_at id eta s k)
  handle-next_status (was_executed id) s k = ground (arith, executed-proposal_at id s k)
  handle-next_status (voted ev) s k = ground (arith, voted-proposal_at ev s k)
