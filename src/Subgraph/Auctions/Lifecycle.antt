-- ===== src/Subgraph/Auctions/Lifecycle.antt =====
-- The handlers of nouns-auction-house.ts against a specification of an auction's life, and the
-- bids that they record.
use Prim.Native.String.{String}
use text.Mathlib.Text.{◌==◌}
use text.Mathlib.TextEquality.{eq_iff}
use nouns_monorepo.Prelude.{
  Bool, true, false, ◌≡◌, Option, none, some, if◌then◌else◌, arith, ap, Option-cases, inl, inr,
}
use nouns_monorepo.Subgraph.Schema.{Auction, Bid}
use nouns_monorepo.Subgraph.Store.{Database, Store}
use nouns_monorepo.Subgraph.Helpers.{account_of}
use nouns_monorepo.Subgraph.Helpers.Reads.{account_of_only}
use nouns_monorepo.Subgraph.Token.Balances.{id-account_of}
use nouns_monorepo.Subgraph.Auctions.{
  AuctionCreated, AuctionBid, AuctionExtended, AuctionSettled, handle_auction_created,
  handle_auction_bid, handle_auction_extended, handle_auction_settled,
}

pub data AuctionEvent : Type 0 where
  created : AuctionCreated → AuctionEvent
  bid : AuctionBid → AuctionEvent
  extended : AuctionExtended → AuctionEvent
  settle : AuctionSettled → AuctionEvent

abbrev pub subject : AuctionEvent → String
subject (created ev) = ev.noun_id
subject (bid ev) = ev.noun_id
subject (extended ev) = ev.noun_id
subject (settle ev) = ev.noun_id

-- The specification: the auction that an event leaves, `none` for no auction, where `known` says
-- that the noun is in the store. Only an auction of a known noun begins, and only one that has
-- begun takes bids, is extended or is settled.
pub next_auction : AuctionEvent → Bool → Option Auction → Option Auction
next_auction (created ev) false a = a
next_auction (created ev) true a = some (record {
  id = ev.noun_id;
  noun = ev.noun_id;
  amount = 0;
  start_time = ev.start_time;
  end_time = ev.end_time;
  bidder = elim a [ none ↦ none | some old ↦ old.bidder ];
  settled = false;
})
next_auction (bid ev) known none = none
next_auction (bid ev) known (some a) =
    some (record a { amount = ev.value; bidder = some ev.sender })
next_auction (extended ev) known none = none
next_auction (extended ev) known (some a) = some (record a { end_time = ev.end_time })
next_auction (settle ev) known none = none
next_auction (settle ev) known (some a) = some (record a { settled = true })

-- The bid under the event's transaction hash after the event, from the auction and that bid.
abbrev pub recorded : AuctionBid → Option Auction → Option Bid → Option Bid
recorded ev none b = b
recorded ev (some a) b = some (record {
  id = ev.transaction_hash;
  noun = a.noun;
  amount = ev.value;
  bidder = ev.sender;
  block_number = ev.block_number;
  tx_index = ev.transaction_index;
  auction = ev.noun_id;
  block_timestamp = ev.block_timestamp;
})

abbrev pub is_some {ℓ} : {A : Type ℓ} → Option A → Bool
is_some none = false
is_some (some _) = true

module _ {D : Database} where
  pub handle : AuctionEvent → Store D → Store D
  handle (created ev) s = handle_auction_created ev s
  handle (bid ev) s = handle_auction_bid ev s
  handle (extended ev) s = handle_auction_extended ev s
  handle (settle ev) s = handle_auction_settled ev s

  created_lem :
      (ev : AuctionCreated) (s : Store D) (k : String)
      → D.auctions.load (handle_auction_created ev s).auctions k ≡ (
          if ev.noun_id == k
          then next_auction
              (created ev)
              (is_some (D.nouns.load s.nouns ev.noun_id))
              (D.auctions.load s.auctions k)
          else D.auctions.load s.auctions k)
  unfolding handle_auction_created next_auction
  created_lem ev s k = elim (Option-cases (D.nouns.load s.nouns ev.noun_id)) [
    | inl e ↦ ground (arith, e)
    | inr (n, e) ↦ ground (
      arith,
      e,
      eq_iff ev.noun_id k,
      D.nouns.id-load s.nouns ev.noun_id n e,
      D.auctions.load-save s.auctions
          (record {
            id = ev.noun_id;
            noun = n.id;
            amount = 0;
            start_time = ev.start_time;
            end_time = ev.end_time;
            bidder = none;
            settled = false;
          })
          k,
    )
  ]

  extended_lem :
      (ev : AuctionExtended) (known : Bool) (s : Store D) (k : String)
      → D.auctions.load (handle_auction_extended ev s).auctions k ≡ (
          if ev.noun_id == k
          then next_auction (extended ev) known (D.auctions.load s.auctions k)
          else D.auctions.load s.auctions k)
  unfolding handle_auction_extended next_auction
  extended_lem ev known s k = elim (Option-cases (D.auctions.load s.auctions ev.noun_id)) [
    | inl e ↦ ground (arith, e, eq_iff ev.noun_id k)
    | inr (a, e) ↦ ground (
      arith,
      e,
      eq_iff ev.noun_id k,
      D.auctions.id-load s.auctions ev.noun_id a e,
      D.auctions.load-save s.auctions (record a { end_time = ev.end_time }) k,
    )
  ]

  settle_lem :
      (ev : AuctionSettled) (known : Bool) (s : Store D) (k : String)
      → D.auctions.load (handle_auction_settled ev s).auctions k ≡ (
          if ev.noun_id == k
          then next_auction (settle ev) known (D.auctions.load s.auctions k)
          else D.auctions.load s.auctions k)
  unfolding handle_auction_settled next_auction
  settle_lem ev known s k = elim (Option-cases (D.auctions.load s.auctions ev.noun_id)) [
    | inl e ↦ ground (arith, e, eq_iff ev.noun_id k)
    | inr (a, e) ↦ ground (
      arith,
      e,
      eq_iff ev.noun_id k,
      D.auctions.id-load s.auctions ev.noun_id a e,
      D.auctions.load-save s.auctions (record a { settled = true }) k,
    )
  ]

  account_of_auctions : (id : String) (s : Store D) → (account_of id s).1.auctions ≡ s.auctions
  account_of_auctions id s = ap (λ (t : Store D). t.auctions) (account_of_only id s)

  bid_lem :
      (ev : AuctionBid) (known : Bool) (s : Store D) (k : String)
      → D.auctions.load (handle_auction_bid ev s).auctions k ≡ (
          if ev.noun_id == k
          then next_auction (bid ev) known (D.auctions.load s.auctions k)
          else D.auctions.load s.auctions k)
  unfolding handle_auction_bid next_auction
  bid_lem ev known s k = elim (Option-cases (D.auctions.load s.auctions ev.noun_id)) [
    | inl e ↦ ground (arith, e, eq_iff ev.noun_id k, account_of_auctions ev.sender s)
    | inr (a, e) ↦ ground (
      arith,
      e,
      eq_iff ev.noun_id k,
      account_of_auctions ev.sender s,
      id-account_of ev.sender s,
      D.auctions.id-load s.auctions ev.noun_id a e,
      D.auctions.load-save s.auctions
          (record a { amount = ev.value; bidder = some (account_of ev.sender s).0.id }) k,
    )
  ]

  -- Every event takes the auction of its noun where the specification says, and no other auction.
  pub handle-next_auction :
      (ev : AuctionEvent) (s : Store D) (k : String)
      → D.auctions.load (handle ev s).auctions k ≡ (
          if subject ev == k
          then next_auction ev
              (is_some (D.nouns.load s.nouns (subject ev)))
              (D.auctions.load s.auctions k)
          else D.auctions.load s.auctions k)
  unfolding handle
  handle-next_auction (created ev) s k = created_lem ev s k
  handle-next_auction (bid ev) s k = bid_lem ev _ s k
  handle-next_auction (extended ev) s k = extended_lem ev _ s k
  handle-next_auction (settle ev) s k = settle_lem ev _ s k
