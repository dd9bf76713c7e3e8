-- ===== src/Webapp/Subscriber/Steps.antt =====
-- What stays in step as events come in and the user navigates.
use nouns_monorepo.Prelude.{
  ℕ, suc, ◌+◌, ◌-◌, ◌≤◌, ◌≡◌, refl, arith, ◌∙◌, false, List, [], ◌∷◌, Option, none, some,
  Bool-cases, inl, inr,
}
use nouns_monorepo.Prelude.Int.{ℤ, pos, negsuc, ◌+ℤ◌, ◌-ℤ◌, ltb_ℤ}
use nouns_monorepo.Webapp.Events.{BidEvent, AuctionSettledEvent, AuctionExtendedEvent, Auction}
use nouns_monorepo.Webapp.Auction.{
  AuctionState, set_active_auction, set_full_auction, append_bid, set_auction_settled,
  set_auction_extended,
}
use nouns_monorepo.Webapp.Display.{
  set_last_auction_noun_id, set_on_display_auction_noun_id, set_prev_on_display_auction_noun_id,
  set_next_on_display_auction_noun_id,
}
use nouns_monorepo.Webapp.Subscriber.{
  AppState, ChainEvent, bid, created, extended, settled, process_bid, process_auction_created,
  process_auction_extended, process_auction_settled, process, load_bids, load_state, process_all,
  subscribe, show_initial, auction_page, prev_auction_handler, next_auction_handler,
  is_first_auction, is_last_auction,
}

abbrev noun_of : Option Auction → Option ℕ
noun_of none = none
noun_of (some a) = some a.noun_id

-- The last noun is the one on auction.
unfoldable pub IsInStep : AppState → Type 0
IsInStep s = noun_of s.auction.active_auction ≡ s.on_display.last_auction_noun_id

append_bid-noun :
    (b : BidEvent) (s : AuctionState)
    → noun_of (append_bid b s).active_auction ≡ noun_of s.active_auction
unfolding append_bid
append_bid-noun b s = ground arith

extended-noun :
    (ev : AuctionExtendedEvent) (s : AuctionState)
    → noun_of (set_auction_extended ev s).active_auction ≡ noun_of s.active_auction
unfolding set_auction_extended
extended-noun ev s = ground arith

settled-noun :
    (ev : AuctionSettledEvent) (s : AuctionState)
    → noun_of (set_auction_settled ev s).active_auction ≡ noun_of s.active_auction
unfolding set_auction_settled
settled-noun ev s = ground arith

process-IsInStep : (ev : ChainEvent) (s : AppState) → IsInStep s → IsInStep (process ev s)
unfolding process process_bid process_auction_created process_auction_extended
    process_auction_settled IsInStep set_active_auction set_last_auction_noun_id
process-IsInStep (bid b) s h = append_bid-noun b s.auction ∙ h
process-IsInStep (created ev) s h = refl
process-IsInStep (extended ev) s h = extended-noun ev s.auction ∙ h
process-IsInStep (settled ev) s h = settled-noun ev s.auction ∙ h

process_all-IsInStep :
    (events : List ChainEvent) (s : AppState) → IsInStep s → IsInStep (process_all events s)
unfolding process_all
process_all-IsInStep [] s h = h
process_all-IsInStep (ev ∷ events) s h =
    process_all-IsInStep events (process ev s) (process-IsInStep ev s h)

load_bids-IsInStep :
    (previous : List (Option BidEvent)) (s : AppState)
    → IsInStep s
    → IsInStep (load_bids previous s).0
unfolding load_bids process_bid IsInStep
load_bids-IsInStep [] s h = h
load_bids-IsInStep (none ∷ previous) s h = h
load_bids-IsInStep (some b ∷ previous) s h =
    load_bids-IsInStep previous (process_bid b s) (append_bid-noun b s.auction ∙ h)

load_state-IsInStep :
    (current : Auction) (previous : List (Option BidEvent)) (s : AppState)
    → IsInStep (load_state current previous s).0
unfolding load_state IsInStep set_full_auction set_last_auction_noun_id
load_state-IsInStep current previous s =
    load_bids-IsInStep previous
      (record s {
        auction = set_full_auction current s.auction;
        on_display = set_last_auction_noun_id current.noun_id s.on_display;
      })
      refl

-- From any state, once the auction and the bids have been loaded and the events have been
-- processed, the last noun is the one on auction.
pub subscribe-IsInStep :
    (current : Auction) (previous : List (Option BidEvent)) (events : List ChainEvent)
    (s : AppState)
    → IsInStep (subscribe current previous events s)
unfolding subscribe
subscribe-IsInStep current previous events s = elim (Bool-cases (load_state current previous s).1) [
  | inl h ↦ rw h (
      process_all-IsInStep events (load_state current previous s).0
        (load_state-IsInStep current previous s))
  | inr h ↦ rw h (load_state-IsInStep current previous s)
]

abbrev id_or : ℕ → Option ℕ → ℕ
id_or d none = d
id_or d (some n) = n

-- Where no auction is shown and the last noun is not noun 0, the page shows a noun that is not
-- beyond the last one, whatever the path says.
pub auction_page_lem :
    (initial : Option ℤ) (last : ℕ) (s : AppState)
    → s.on_display.last_auction_noun_id ≡ some (suc last)
    → (n : ℕ) × ((auction_page initial none s).on_display.on_display_auction_noun_id ≡ some n)
      × (n ≤ suc last)
unfolding auction_page show_initial set_on_display_auction_noun_id
auction_page_lem none last s h = (suc last, ground (arith, h), omega arith)
auction_page_lem (some (pos i)) last s h = elim (Bool-cases (ltb_ℤ (pos (suc last)) (pos i))) [
  | inl b ↦ (suc last, ground (arith, h, b), omega arith)
  | inr b ↦ (i, ground (arith, h, b), ground (arith, b))
]
auction_page_lem (some (negsuc i)) last s h = (suc last, ground (arith, h), omega arith)

-- If the auction that is shown is the one on display, an arrow that is on takes the display and
-- the path to the same noun.
pub arrows_lem :
    (a : Auction) (last : ℕ) (s : AppState)
    → s.on_display.last_auction_noun_id ≡ some last
    → s.on_display.on_display_auction_noun_id ≡ some a.noun_id
    → (is_first_auction a ≡ false
        → (n : ℕ) × ((prev_auction_handler (some a) s).on_display.on_display_auction_noun_id
            ≡ some n)
          × ((prev_auction_handler (some a) s).noun_path ≡ some (pos n)))
      × (is_last_auction a last ≡ false
          → (n : ℕ) × ((next_auction_handler (some a) s).on_display.on_display_auction_noun_id
              ≡ some n)
            × ((next_auction_handler (some a) s).noun_path ≡ some (pos n)))
unfolding prev_auction_handler next_auction_handler set_prev_on_display_auction_noun_id
    set_next_on_display_auction_noun_id ◌-ℤ◌ ◌+ℤ◌
arrows_lem a last s l d = (
  λ f. (a.noun_id - 1, ground (arith, l, d, f), ground (arith, f)),
  λ f. (a.noun_id + 1, ground (arith, l, d, f), ground (arith, f)),
)
