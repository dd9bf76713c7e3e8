-- ===== src/Subgraph/Schema.antt =====
-- The entities of packages/nouns-subgraph/schema.graphql, with the attributes that the handlers
-- write (derived fields are computed by The Graph). An attribute that may be null or is set late is
-- an `Option`. Ids and addresses are the texts that `toHexString` and `toString` give; a BigInt that
-- is computed with is a signed integer, one that is only stored is a number.
use Prim.Native.String.{String}
use nouns_monorepo.Prelude.{ℕ, Bool, Option, none, some, List}
use nouns_monorepo.Prelude.Int.{ℤ}

pub record Seed : Type 0 where
  pub id : String
  pub background : ℕ
  pub body : ℕ
  pub accessory : ℕ
  pub head : ℕ
  pub glasses : ℕ

pub record Noun : Type 0 where
  pub id : String
  pub seed : Option String
  pub owner : Option String

pub record Bid : Type 0 where
  pub id : String
  pub noun : String
  pub amount : ℕ
  pub bidder : String
  pub block_number : ℕ
  pub tx_index : ℕ
  pub auction : String
  pub block_timestamp : ℕ

pub record Auction : Type 0 where
  pub id : String
  pub noun : String
  pub amount : ℕ
  pub start_time : ℕ
  pub end_time : ℕ
  pub bidder : Option String
  pub settled : Bool

pub data ProposalStatus : Type 0 where
  pending active cancelled vetoed queued executed : ProposalStatus

pub record Account : Type 0 where
  pub id : String
  pub delegate : Option String
  pub token_balance_raw : ℤ
  pub token_balance : ℤ
  pub total_tokens_held_raw : ℤ
  pub total_tokens_held : ℤ
  pub nouns : List String

pub record Delegate : Type 0 where
  pub id : String
  pub delegated_votes_raw : ℤ
  pub delegated_votes : ℤ
  pub token_holders_represented_amount : ℤ
  pub nouns_represented : List String

-- What ProposalCreatedWithRequirements fills in; a proposal that another event created lacks it.
pub record ProposalDetails : Type 0 where
  pub proposer : String
  pub targets : List String
  pub values : List ℕ
  pub signatures : List String
  pub calldatas : List String
  pub created_timestamp : ℕ
  pub start_block : ℕ
  pub end_block : ℕ
  pub proposal_threshold : ℕ
  pub quorum_votes : ℕ
  pub description : String

pub record Proposal : Type 0 where
  pub id : String
  pub details : Option ProposalDetails
  pub status : Option ProposalStatus
  pub execution_eta : Option ℕ

-- What VoteCast fills in.
pub record Ballot : Type 0 where
  pub proposal : String
  pub voter : String
  pub votes_raw : ℕ
  pub votes : ℕ
  pub support : Bool
  pub support_detailed : ℕ
  pub nouns : List String

pub record Vote : Type 0 where
  pub id : String
  pub ballot : Option Ballot
  pub reason : Option String

pub record Governance : Type 0 where
  pub id : String
  pub proposals : ℤ
  pub current_token_holders : ℤ
  pub current_delegates : ℤ
  pub total_token_holders : ℤ
  pub total_delegates : ℤ
  pub delegated_votes_raw : ℤ
  pub delegated_votes : ℤ
  pub proposals_queued : ℤ

-- `new Auction(id)` sets no bidder, so a save over an auction that has one keeps it.
abbrev pub keep_bidder : Option Auction → Auction → Auction
keep_bidder none new = new
keep_bidder (some old) new = record new {
  bidder = elim (new.bidder) [ none ↦ old.bidder | some b ↦ some b ];
}
