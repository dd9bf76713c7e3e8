-- ===== src/Subgraph/Views.antt =====
-- What a reader sees of the subgraph's store, whichever way the rows are kept: an entity that is
-- not there counts as one that has just been created.
use Prim.Native.String.{String}
use text.Mathlib.Text.{◌==◌}
use nouns_monorepo.Prelude.{Bool, false, Option, none, some, List}
use nouns_monorepo.Prelude.Int.{ℤ}
use nouns_monorepo.Subgraph.Schema.{Account, Delegate, Noun, Proposal, Vote}
use nouns_monorepo.Subgraph.Store.{Database, Store}
use nouns_monorepo.Subgraph.Helpers.{or_else, new_account, new_delegate, new_proposal, new_vote}

abbrev pub noun_owner : Option Noun → Option String
noun_owner none = none
noun_owner (some n) = n.owner

module _ {D : Database} where
  abbrev pub account_at : Store D → String → Account
  account_at s k = or_else (D.accounts.load s.accounts k) (new_account k)

  abbrev pub delegate_at : Store D → String → Delegate
  delegate_at s k = or_else (D.delegates.load s.delegates k) (new_delegate k)

  abbrev pub balance : Store D → String → ℤ
  balance s k = (account_at s k).token_balance_raw

  abbrev pub holdings : Store D → String → List String
  holdings s k = (account_at s k).nouns

  abbrev pub proposal_at : Store D → String → Proposal
  proposal_at s k = or_else (D.proposals.load s.proposals k) (new_proposal k)

  abbrev pub vote_at : Store D → String → Vote
  vote_at s k = or_else (D.votes.load s.votes k) (new_vote k)

  abbrev pub owner : Store D → String → Option String
  owner s n = noun_owner (D.nouns.load s.nouns n)

abbrev pub owned_by : Option String → String → Bool
owned_by none k = false
owned_by (some o) k = o == k
