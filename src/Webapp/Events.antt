-- ===== src/Webapp/Events.antt =====
-- The events and auctions of packages/nouns-webapp/src/utils/types.ts and wrappers/nounsAuction.ts.
-- A big number is a number: its JSON form in the store is read back as it was written.
use nouns_monorepo.Prelude.{ℕ, Bool}
use nouns_monorepo.Sdk.Text.{Text}

pub record BidEvent : Type 0 where
  pub noun_id : ℕ
  pub sender : Text
  pub value : ℕ
  pub extended : Bool
  pub transaction_hash : Text
  pub timestamp : ℕ

pub record AuctionCreateEvent : Type 0 where
  pub noun_id : ℕ
  pub start_time : ℕ
  pub end_time : ℕ
  pub settled : Bool

pub record AuctionSettledEvent : Type 0 where
  pub noun_id : ℕ
  pub winner : Text
  pub amount : ℕ

pub record AuctionExtendedEvent : Type 0 where
  pub noun_id : ℕ
  pub end_time : ℕ

pub record Auction : Type 0 where
  pub amount : ℕ
  pub bidder : Text
  pub end_time : ℕ
  pub start_time : ℕ
  pub noun_id : ℕ
  pub settled : Bool
