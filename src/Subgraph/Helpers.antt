-- ===== src/Subgraph/Helpers.antt =====
-- packages/nouns-subgraph/src/utils/helpers.ts and constants.ts. A helper returns the entity that
-- it hands out, `none` for null, and the store that it leaves.
pub mod Reads
pub mod Counts
use Prim.Native.String.{String}
use text.Mathlib.Text.{◌==◌}
use nouns_monorepo.Prelude.{Bool, true, false, Option, none, some, [], if◌then◌else◌}
use nouns_monorepo.Prelude.Int.{pos, ◌+ℤ◌}
use nouns_monorepo.Subgraph.Schema.{Account, Delegate, Proposal, Vote, Governance}
use nouns_monorepo.Subgraph.Store.{
  Database, Store, save_account, save_delegate, save_governance, save_proposal, save_vote,
}

abbrev pub zero_address : String
zero_address = "0x0000000000000000000000000000000000000000"

abbrev pub governance_id : String
governance_id = "GOVERNANCE"

abbrev pub new_account : String → Account
new_account id = record {
  id = id;
  delegate = none;
  token_balance_raw = pos 0;
  token_balance = pos 0;
  total_tokens_held_raw = pos 0;
  total_tokens_held = pos 0;
  nouns = [];
}

abbrev pub new_delegate : String → Delegate
new_delegate id = record {
  id = id;
  delegated_votes_raw = pos 0;
  delegated_votes = pos 0;
  token_holders_represented_amount = pos 0;
  nouns_represented = [];
}

abbrev pub new_vote : String → Vote
new_vote id = record { id = id; ballot = none; reason = none }

abbrev pub new_proposal : String → Proposal
new_proposal id = record { id = id; details = none; status = none; execution_eta = none }

abbrev pub new_governance : Governance
new_governance = record {
  id = governance_id;
  proposals = pos 0;
  current_token_holders = pos 0;
  current_delegates = pos 0;
  total_token_holders = pos 0;
  total_delegates = pos 0;
  delegated_votes_raw = pos 0;
  delegated_votes = pos 0;
  proposals_queued = pos 0;
}

-- What a call with the default arguments uses of the result: the cast `as Account` and its likes
-- assert that it is not null.
abbrev pub or_else {ℓ} : {A : Type ℓ} → Option A → A → A
or_else none d = d
or_else (some a) d = a

abbrev pub is_none {ℓ} : {A : Type ℓ} → Option A → Bool
is_none none = true
is_none (some _) = false

module _ {D : Database} where
  -- `getGovernanceEntity` does not save what it creates.
  unfoldable pub get_governance : Store D → Governance
  get_governance s = or_else (D.governances.load s.governances governance_id) new_governance

  unfoldable pub get_or_create_account : String → Bool → Bool → Store D → Option Account × Store D
  get_or_create_account id create save s = elim (D.accounts.load s.accounts id) [
    | some a ↦ (some a, s)
    | none ↦
        if create
        then (some (new_account id), if save then save_account (new_account id) s else s)
        else (none, s)
  ]

  -- `governance.totalDelegates + 1`, for a delegate that is not the zero address
  unfoldable pub count_delegate : String → Store D → Store D
  unfolding get_governance
  count_delegate id s =
      if id == zero_address
      then s
      else (let g = get_governance s in
          save_governance (record g { total_delegates = g.total_delegates +ℤ pos 1 }) s)

  unfoldable pub get_or_create_delegate : String → Bool → Bool → Store D → Option Delegate × Store D
  unfolding count_delegate
  get_or_create_delegate id create save s = elim (D.delegates.load s.delegates id) [
    | some d ↦ (some d, s)
    | none ↦
        if create
        then (
          some (new_delegate id),
          if save
              then save_delegate (new_delegate id) (count_delegate id s)
              else count_delegate id s,
        )
        else (none, s)
  ]

  unfoldable pub get_or_create_vote : String → Bool → Bool → Store D → Option Vote × Store D
  get_or_create_vote id create save s = elim (D.votes.load s.votes id) [
    | some v ↦ (some v, s)
    | none ↦
        if create
        then (some (new_vote id), if save then save_vote (new_vote id) s else s)
        else (none, s)
  ]

  -- `governance.proposals + 1`
  unfoldable pub count_proposal : Store D → Store D
  unfolding get_governance
  count_proposal s =
      let g = get_governance s in save_governance (record g { proposals = g.proposals +ℤ pos 1 }) s

  unfoldable pub get_or_create_proposal : String → Bool → Bool → Store D → Option Proposal × Store D
  unfolding count_proposal
  get_or_create_proposal id create save s = elim (D.proposals.load s.proposals id) [
    | some p ↦ (some p, s)
    | none ↦
        if create
        then (
          some (new_proposal id),
          if save then save_proposal (new_proposal id) (count_proposal s) else count_proposal s,
        )
        else (none, s)
  ]

  -- The calls with the default arguments.
  unfoldable pub account_of : String → Store D → Account × Store D
  unfolding get_or_create_account
  account_of id s =
      let (a, s') = get_or_create_account id true true s in (or_else a (new_account id), s')

  unfoldable pub delegate_of : String → Store D → Delegate × Store D
  unfolding get_or_create_delegate
  delegate_of id s =
      let (d, s') = get_or_create_delegate id true true s in (or_else d (new_delegate id), s')

  unfoldable pub vote_of : String → Store D → Vote × Store D
  unfolding get_or_create_vote
  vote_of id s = let (v, s') = get_or_create_vote id true false s in (or_else v (new_vote id), s')

  unfoldable pub proposal_of : String → Store D → Proposal × Store D
  unfolding get_or_create_proposal
  proposal_of id s =
      let (p, s') = get_or_create_proposal id true false s in (or_else p (new_proposal id), s')
