-- ===== src/Subgraph/Store.antt =====
-- The subgraph's state: one table for each entity type of schema.graphql, and what the handlers
-- have written to the error log.
use Prim.Native.String.{String}
use nouns_monorepo.Prelude.{List, ◌∷◌}
use nouns_monorepo.Prelude.Int.{ℤ}
use nouns_monorepo.Subgraph.Table.{Table, overwrite}
use nouns_monorepo.Subgraph.Schema.{
  Seed, Noun, Bid, Auction, Account, Delegate, Proposal, Vote, Governance, keep_bidder,
}

-- The tables, as the host provides them.
pub record Database : Type 1 where
  pub accounts : Table Account (λ e. e.id) overwrite
  pub delegates : Table Delegate (λ e. e.id) overwrite
  pub governances : Table Governance (λ e. e.id) overwrite
  pub nouns : Table Noun (λ e. e.id) overwrite
  pub seeds : Table Seed (λ e. e.id) overwrite
  pub proposals : Table Proposal (λ e. e.id) overwrite
  pub votes : Table Vote (λ e. e.id) overwrite
  pub bids : Table Bid (λ e. e.id) overwrite
  pub auctions : Table Auction (λ e. e.id) keep_bidder

-- The calls of `log.error`, with the texts' arguments.
pub data LogError : Type 0 where
  noun_not_found_on_created : String → String → LogError
  noun_not_found_on_auction : String → String → LogError
  auction_not_found_on_bid : String → String → LogError
  auction_not_found_on_extended : String → String → LogError
  auction_not_found_on_settled : String → String → LogError
  delegate_not_found_on_proposal : String → String → LogError
  delegate_not_found_on_vote : String → String → LogError
  negative_balance : String → ℤ → LogError

pub record Store (D : Database) : Type 0 where
  pub accounts : D.accounts.Rows
  pub delegates : D.delegates.Rows
  pub governances : D.governances.Rows
  pub nouns : D.nouns.Rows
  pub seeds : D.seeds.Rows
  pub proposals : D.proposals.Rows
  pub votes : D.votes.Rows
  pub bids : D.bids.Rows
  pub auctions : D.auctions.Rows
  pub errors : List LogError

module _ {D : Database} where
  abbrev pub save_account : Account → Store D → Store D
  save_account e s = record s { accounts = D.accounts.save s.accounts e }

  abbrev pub save_delegate : Delegate → Store D → Store D
  save_delegate e s = record s { delegates = D.delegates.save s.delegates e }

  abbrev pub save_governance : Governance → Store D → Store D
  save_governance e s = record s { governances = D.governances.save s.governances e }

  abbrev pub save_noun : Noun → Store D → Store D
  save_noun e s = record s { nouns = D.nouns.save s.nouns e }

  abbrev pub save_seed : Seed → Store D → Store D
  save_seed e s = record s { seeds = D.seeds.save s.seeds e }

  abbrev pub save_proposal : Proposal → Store D → Store D
  save_proposal e s = record s { proposals = D.proposals.save s.proposals e }

  abbrev pub save_vote : Vote → Store D → Store D
  save_vote e s = record s { votes = D.votes.save s.votes e }

  abbrev pub save_bid : Bid → Store D → Store D
  save_bid e s = record s { bids = D.bids.save s.bids e }

  abbrev pub save_auction : Auction → Store D → Store D
  save_auction e s = record s { auctions = D.auctions.save s.auctions e }

  abbrev pub log_error : LogError → Store D → Store D
  log_error e s = record s { errors = e ∷ s.errors }
