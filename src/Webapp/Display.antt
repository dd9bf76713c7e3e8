-- ===== src/Webapp/Display.antt =====
-- Which auction the web application shows: state/slices/onDisplayAuction.ts, pastAuctions.ts,
-- utils/nounderNoun.ts and wrappers/onDisplayAuction.ts of packages/nouns-webapp/src.
pub mod Navigation
use nouns_monorepo.Prelude.{
  ℕ, suc, zero, ◌+◌, ◌-◌, ◌%◌, Bool, true, false, ◌||◌, List, [], ◌∷◌, map, if◌then◌else◌, ltb,
  ◌==◌, Option, none, some,
}
use nouns_monorepo.Sdk.Text.{Text}
use nouns_monorepo.Webapp.Events.{BidEvent, Auction}
use nouns_monorepo.Webapp.Auction.{AuctionState}

pub record OnDisplay : Type 0 where
  pub last_auction_noun_id : Option ℕ
  pub on_display_auction_noun_id : Option ℕ

unfoldable pub set_last_auction_noun_id : ℕ → OnDisplay → OnDisplay
set_last_auction_noun_id n s = record s { last_auction_noun_id = some n }

unfoldable pub set_on_display_auction_noun_id : ℕ → OnDisplay → OnDisplay
set_on_display_auction_noun_id n s = record s { on_display_auction_noun_id = some n }

-- Nothing happens at noun 0, or with no noun.
unfoldable pub set_prev_on_display_auction_noun_id : OnDisplay → OnDisplay
set_prev_on_display_auction_noun_id s = elim (s.on_display_auction_noun_id) [
  | none ↦ s
  | some n ↦ if n == 0 then s else record s { on_display_auction_noun_id = some (n - 1) }
]

-- `===` of two numbers that may be undefined
abbrev same_id : Option ℕ → ℕ → Bool
same_id none n = false
same_id (some m) n = m == n

unfoldable pub set_next_on_display_auction_noun_id : OnDisplay → OnDisplay
set_next_on_display_auction_noun_id s = elim (s.on_display_auction_noun_id) [
  | none ↦ s
  | some n ↦
      if same_id s.last_auction_noun_id n
      then s
      else record s { on_display_auction_noun_id = some (n + 1) }
]

-- What the subgraph answers about a bid and an auction.
pub record IndexedBid : Type 0 where
  pub id : Text
  pub bidder : Text
  pub amount : ℕ
  pub block_timestamp : ℕ

pub record IndexedAuction : Type 0 where
  pub id : ℕ
  pub amount : ℕ
  pub bidder : Option Text
  pub start_time : ℕ
  pub end_time : ℕ
  pub bids : List IndexedBid

abbrev past_bid : ℕ → IndexedBid → BidEvent
past_bid noun_id b = record {
  noun_id = noun_id;
  sender = b.bidder;
  value = b.amount;
  extended = false;
  transaction_hash = b.id;
  timestamp = b.block_timestamp;
}

abbrev bidder_or_empty : Option Text → Text
bidder_or_empty none = []
bidder_or_empty (some t) = t

abbrev past_auction : IndexedAuction → AuctionState
past_auction a = record {
  active_auction = some (record {
    amount = a.amount;
    bidder = bidder_or_empty a.bidder;
    end_time = a.end_time;
    start_time = a.start_time;
    noun_id = a.id;
    settled = false;
  });
  bids = map (past_bid a.id) a.bids;
}

unfoldable pub redux_safe_past_auctions : List IndexedAuction → List AuctionState
redux_safe_past_auctions auctions = map past_auction auctions

unfoldable pub is_nounder_noun : ℕ → Bool
is_nounder_noun n = (n % 10 == 0) || (n == 0)

abbrev empty_nounder_auction : ℕ → Auction
empty_nounder_auction n = record {
  amount = 0;
  bidder = [];
  end_time = 0;
  start_time = 0;
  noun_id = n;
  settled = false;
}

abbrev pub has_noun_id : ℕ → Option Auction → Bool
has_noun_id n none = false
has_noun_id n (some a) = a.noun_id == n

-- `find(…)`, on auctions that the subgraph has listed
unfoldable pub find_past : ℕ → List AuctionState → Option AuctionState
find_past n [] = none
find_past n (s ∷ past) = if has_noun_id n s.active_auction then some s else find_past n past

abbrev pub active_of : Option AuctionState → Option Auction
active_of none = none
active_of (some s) = s.active_auction

-- The start is that of the auction after it, which minted the noun.
unfoldable pub generate_empty_nounder_auction : ℕ → List AuctionState → Auction
unfolding find_past
generate_empty_nounder_auction n past = elim (active_of (find_past (n + 1) past)) [
  | none ↦ empty_nounder_auction n
  | some above ↦ record (empty_nounder_auction n) { start_time = above.start_time }
]

abbrev pub deserialize_auction : Auction → Auction
deserialize_auction a = record a { settled = false }

-- `useOnDisplayAuction`, on the parts of the state that it selects
unfoldable pub on_display_auction : Option ℕ → Option Auction → List AuctionState → Option Auction
unfolding is_nounder_noun generate_empty_nounder_auction find_past
on_display_auction none current past = none
on_display_auction (some n) none past = none
on_display_auction (some n) (some current) past =
    if n == current.noun_id
    then some (deserialize_auction current)
    else if is_nounder_noun n
    then some (deserialize_auction (generate_empty_nounder_auction n past))
    else elim (active_of (find_past n past)) [ none ↦ none | some a ↦ some (deserialize_auction a) ]

-- A stable sort, the latest bid first.
unfoldable pub insert_bid : BidEvent → List BidEvent → List BidEvent
insert_bid b [] = b ∷ []
insert_bid b (c ∷ bids) =
    let rest = insert_bid b bids in if ltb b.timestamp c.timestamp then c ∷ rest else b ∷ c ∷ bids

unfoldable pub deserialize_bids : List BidEvent → List BidEvent
unfolding insert_bid
deserialize_bids [] = []
deserialize_bids (b ∷ bids) = insert_bid b (deserialize_bids bids)

-- `useAuctionBids`
unfoldable pub auction_bids :
    ℕ → Option ℕ → List BidEvent → List AuctionState → Option (List BidEvent)
unfolding find_past deserialize_bids
auction_bids n last last_bids past =
    if same_id last n
    then some (deserialize_bids last_bids)
    else elim (find_past n past) [ none ↦ none | some s ↦ some (deserialize_bids s.bids) ]
