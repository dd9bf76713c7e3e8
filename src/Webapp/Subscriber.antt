-- ===== src/Webapp/Subscriber.antt =====
-- How the chain's events and the navigation change the web application: the component ChainSubscriber
-- of packages/nouns-webapp/src/index.tsx, pages/Auction and components/Auction.
pub mod Steps
use nouns_monorepo.Prelude.{
  ℕ, zero, suc, Bool, true, false, ◌||◌, List, [], ◌∷◌, if◌then◌else◌, ◌==◌, Option, none, some,
}
use nouns_monorepo.Prelude.Int.{ℤ, pos, negsuc, ◌+ℤ◌, ◌-ℤ◌, ltb_ℤ}
use nouns_monorepo.Webapp.Events.{
  BidEvent, AuctionCreateEvent, AuctionSettledEvent, AuctionExtendedEvent, Auction,
}
use nouns_monorepo.Webapp.Auction.{
  AuctionState, set_active_auction, set_full_auction, append_bid, set_auction_settled,
  set_auction_extended,
}
use nouns_monorepo.Webapp.Display.{
  OnDisplay, set_last_auction_noun_id, set_on_display_auction_noun_id,
  set_prev_on_display_auction_noun_id, set_next_on_display_auction_noun_id,
}

-- The slices that take part, and the noun of the path that was pushed last
pub record AppState : Type 0 where
  pub auction : AuctionState
  pub on_display : OnDisplay
  pub noun_path : Option ℤ

pub data ChainEvent : Type 0 where
  bid : BidEvent → ChainEvent
  created : AuctionCreateEvent → ChainEvent
  extended : AuctionExtendedEvent → ChainEvent
  settled : AuctionSettledEvent → ChainEvent

unfoldable pub process_bid : BidEvent → AppState → AppState
unfolding append_bid
process_bid b s = record s { auction = append_bid b s.auction }

unfoldable pub process_auction_created : AuctionCreateEvent → AppState → AppState
unfolding set_active_auction set_on_display_auction_noun_id set_last_auction_noun_id
process_auction_created ev s = record {
  auction = set_active_auction ev s.auction;
  noun_path = some (pos ev.noun_id);
  on_display =
      set_last_auction_noun_id ev.noun_id (set_on_display_auction_noun_id ev.noun_id s.on_display);
}

unfoldable pub process_auction_extended : AuctionExtendedEvent → AppState → AppState
unfolding set_auction_extended
process_auction_extended ev s = record s { auction = set_auction_extended ev s.auction }

unfoldable pub process_auction_settled : AuctionSettledEvent → AppState → AppState
unfolding set_auction_settled
process_auction_settled ev s = record s { auction = set_auction_settled ev s.auction }

unfoldable pub process : ChainEvent → AppState → AppState
unfolding process_bid process_auction_created process_auction_extended process_auction_settled
process (bid b) s = process_bid b s
process (created ev) s = process_auction_created ev s
process (extended ev) s = process_auction_extended ev s
process (settled ev) s = process_auction_settled ev s

-- The bids of the last day, one after another; the program does not wait for their blocks, so that it
-- may take them in another order. One without arguments ends the loading, before any subscription.
unfoldable pub load_bids : List (Option BidEvent) → AppState → AppState × Bool
unfolding process_bid
load_bids [] s = (s, true)
load_bids (none ∷ previous) s = (s, false)
load_bids (some b ∷ previous) s = load_bids previous (process_bid b s)

unfoldable pub load_state : Auction → List (Option BidEvent) → AppState → AppState × Bool
unfolding set_full_auction set_last_auction_noun_id load_bids
load_state current previous s = load_bids previous (record s {
  auction = set_full_auction current s.auction;
  on_display = set_last_auction_noun_id current.noun_id s.on_display;
})

unfoldable pub process_all : List ChainEvent → AppState → AppState
unfolding process
process_all [] s = s
process_all (ev ∷ events) s = process_all events (process ev s)

-- The state once events have come in; without a subscription none does.
unfoldable pub subscribe : Auction → List (Option BidEvent) → List ChainEvent → AppState → AppState
unfolding load_state process_all
subscribe current previous events s =
    let (loaded, subscribed) = load_state current previous s in
    if subscribed then process_all events loaded else loaded

-- The effect of pages/Auction: the path's noun, if it has one, and the auction that is shown. The id 0
-- of a last auction counts as none. (A path that is no number is left out.)
unfoldable pub show_initial : ℤ → Option Auction → ℕ → AppState → AppState
unfolding set_on_display_auction_noun_id
show_initial initial shown last s =
    if ltb_ℤ (pos last) initial || ltb_ℤ initial (pos 0)
    then record s {
      on_display = set_on_display_auction_noun_id last s.on_display;
      noun_path = some (pos last);
    }
    else elim shown [
      | some a ↦ s
      | none ↦ elim initial [
        | pos n ↦ record s { on_display = set_on_display_auction_noun_id n s.on_display }
        | negsuc n ↦ s
      ]
    ]

unfoldable pub auction_page : Option ℤ → Option Auction → AppState → AppState
unfolding show_initial set_on_display_auction_noun_id
auction_page initial shown s = elim (s.on_display.last_auction_noun_id) [
  | none ↦ s
  | some last ↦ if last == 0 then s else elim initial [
    | none ↦ record s { on_display = set_on_display_auction_noun_id last s.on_display }
    | some i ↦ show_initial i shown last s
  ]
]

-- components/Auction: the arrows, for the auction that is shown
unfoldable pub prev_auction_handler : Option Auction → AppState → AppState
unfolding set_prev_on_display_auction_noun_id
prev_auction_handler none s = record s {
  on_display = set_prev_on_display_auction_noun_id s.on_display;
}
prev_auction_handler (some a) s = record s {
  on_display = set_prev_on_display_auction_noun_id s.on_display;
  noun_path = some (pos a.noun_id -ℤ pos 1);
}

unfoldable pub next_auction_handler : Option Auction → AppState → AppState
unfolding set_next_on_display_auction_noun_id
next_auction_handler none s = record s {
  on_display = set_next_on_display_auction_noun_id s.on_display;
}
next_auction_handler (some a) s = record s {
  on_display = set_next_on_display_auction_noun_id s.on_display;
  noun_path = some (pos a.noun_id +ℤ pos 1);
}

-- Which arrows are off
abbrev pub is_first_auction : Auction → Bool
is_first_auction a = a.noun_id == 0

abbrev pub is_last_auction : Auction → ℕ → Bool
is_last_auction a last = a.noun_id == last
