-- ===== src/Subgraph/Auctions.antt =====
-- packages/nouns-subgraph/src/nouns-auction-house.ts: the handlers of the auction house's events.
pub mod Lifecycle
use Prim.Native.String.{String}
use nouns_monorepo.Prelude.{ℕ, true, false, none, some}
use nouns_monorepo.Subgraph.Schema.{Auction, Bid}
use nouns_monorepo.Subgraph.Store.{
  Database, Store, save_auction, save_bid, log_error, noun_not_found_on_auction,
  auction_not_found_on_bid, auction_not_found_on_extended, auction_not_found_on_settled,
}
use nouns_monorepo.Subgraph.Helpers.{account_of}

pub record AuctionCreated : Type 0 where
  pub noun_id : String
  pub start_time : ℕ
  pub end_time : ℕ
  pub transaction_hash : String

pub record AuctionBid : Type 0 where
  pub noun_id : String
  pub sender : String
  pub value : ℕ
  pub transaction_hash : String
  pub transaction_index : ℕ
  pub block_number : ℕ
  pub block_timestamp : ℕ

pub record AuctionExtended : Type 0 where
  pub noun_id : String
  pub end_time : ℕ
  pub transaction_hash : String

pub record AuctionSettled : Type 0 where
  pub noun_id : String
  pub transaction_hash : String

-- `new Bid(hash)` with its attributes, from the auction that has just been updated.
abbrev pub bid_of : AuctionBid → Auction → String → Bid
bid_of ev auction bidder = record {
  id = ev.transaction_hash;
  noun = auction.noun;
  amount = ev.value;
  bidder = bidder;
  block_number = ev.block_number;
  tx_index = ev.transaction_index;
  auction = auction.id;
  block_timestamp = ev.block_timestamp;
}

module _ {D : Database} where
  unfoldable pub handle_auction_created : AuctionCreated → Store D → Store D
  handle_auction_created ev s = elim (D.nouns.load s.nouns ev.noun_id) [
    | none ↦ log_error (noun_not_found_on_auction ev.noun_id ev.transaction_hash) s
    | some noun ↦
        save_auction
          (record {
            id = ev.noun_id;
            noun = noun.id;
            amount = 0;
            start_time = ev.start_time;
            end_time = ev.end_time;
            bidder = none;
            settled = false;
          })
          s
  ]

  -- The bidder's account is created before the auction is looked up.
  unfoldable pub handle_auction_bid : AuctionBid → Store D → Store D
  handle_auction_bid ev s =
      let (bidder, s1) = account_of ev.sender s in
      elim (D.auctions.load s1.auctions ev.noun_id) [
        | none ↦ log_error (auction_not_found_on_bid ev.noun_id ev.transaction_hash) s1
        | some auction ↦
            save_bid (bid_of ev auction bidder.id)
              (save_auction (record auction { amount = ev.value; bidder = some bidder.id }) s1)
      ]

  unfoldable pub handle_auction_extended : AuctionExtended → Store D → Store D
  handle_auction_extended ev s = elim (D.auctions.load s.auctions ev.noun_id) [
    | none ↦ log_error (auction_not_found_on_extended ev.noun_id ev.transaction_hash) s
    | some auction ↦ save_auction (record auction { end_time = ev.end_time }) s
  ]

  unfoldable pub handle_auction_settled : AuctionSettled → Store D → Store D
  handle_auction_settled ev s = elim (D.auctions.load s.auctions ev.noun_id) [
    | none ↦ log_error (auction_not_found_on_settled ev.noun_id ev.transaction_hash) s
    | some auction ↦ save_auction (record auction { settled = true }) s
  ]
