-- ===== src/Webapp/Auction.antt =====
-- packages/nouns-webapp/src/state/slices/auction.ts: the current auction.
pub mod Bids
use nouns_monorepo.Prelude.{
  ℕ, Bool, true, false, ◌||◌, List, [], ◌∷◌, if◌then◌else◌, ltb, ◌==◌, Option, none, some,
}
use nouns_monorepo.Sdk.Text.{Text, text_eq}
use nouns_monorepo.Webapp.Events.{
  BidEvent, AuctionCreateEvent, AuctionSettledEvent, AuctionExtendedEvent, Auction,
}

pub record AuctionState : Type 0 where
  pub active_auction : Option Auction
  pub bids : List BidEvent

abbrev pub initial_state : AuctionState
initial_state = record { active_auction = none; bids = [] }

abbrev pub redux_safe_new_auction : AuctionCreateEvent → Auction
redux_safe_new_auction ev = record {
  amount = 0;
  bidder = [];
  end_time = ev.end_time;
  start_time = ev.start_time;
  noun_id = ev.noun_id;
  settled = false;
}

-- `reduce` without a first value: the bid in front is the first one.
unfoldable pub max_bid : BidEvent → List BidEvent → BidEvent
max_bid prev [] = prev
max_bid prev (current ∷ bids) =
    max_bid (if ltb current.value prev.value then prev else current) bids

unfoldable pub contains_bid : List BidEvent → BidEvent → Bool
unfolding text_eq
contains_bid [] b = false
contains_bid (c ∷ bids) b = text_eq c.transaction_hash b.transaction_hash || contains_bid bids b

unfoldable pub set_active_auction : AuctionCreateEvent → AuctionState → AuctionState
set_active_auction ev s = record { active_auction = some (redux_safe_new_auction ev); bids = [] }

-- The bids of the earlier state are kept.
unfoldable pub set_full_auction : Auction → AuctionState → AuctionState
set_full_auction a s = record s { active_auction = some a }

unfoldable pub append_bid : BidEvent → AuctionState → AuctionState
unfolding contains_bid max_bid
append_bid b s = elim (s.active_auction) [
  | none ↦ s
  | some a ↦
      if a.noun_id == b.noun_id
      then if contains_bid s.bids b
        then s
        else (let top = max_bid b s.bids in
            record {
              active_auction = some (record a { amount = top.value; bidder = top.sender });
              bids = b ∷ s.bids;
            })
      else s
]

unfoldable pub set_auction_settled : AuctionSettledEvent → AuctionState → AuctionState
set_auction_settled ev s = elim (s.active_auction) [
  | none ↦ s
  | some a ↦
      if a.noun_id == ev.noun_id
      then record s {
        active_auction = some (record a { settled = true; bidder = ev.winner; amount = ev.amount });
      }
      else s
]

unfoldable pub set_auction_extended : AuctionExtendedEvent → AuctionState → AuctionState
set_auction_extended ev s = elim (s.active_auction) [
  | none ↦ s
  | some a ↦
      if a.noun_id == ev.noun_id
      then record s { active_auction = some (record a { end_time = ev.end_time }) }
      else s
]

-- The reducer, by the action's type.
pub data Action : Type 0 where
  active : AuctionCreateEvent → Action
  full : Auction → Action
  bid : BidEvent → Action
  settled : AuctionSettledEvent → Action
  extended : AuctionExtendedEvent → Action

unfoldable pub reducer : Action → AuctionState → AuctionState
unfolding set_active_auction set_full_auction append_bid set_auction_settled set_auction_extended
reducer (active ev) s = set_active_auction ev s
reducer (full a) s = set_full_auction a s
reducer (bid b) s = append_bid b s
reducer (settled ev) s = set_auction_settled ev s
reducer (extended ev) s = set_auction_extended ev s
