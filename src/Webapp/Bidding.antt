-- ===== src/Webapp/Bidding.antt =====
-- packages/nouns-webapp/src/components/Bid, utils/compareBids.ts and utils/bidSorter.ts: placing a bid,
-- and the order of bids. The minimum is a number of hundredths of a wei, so that it is exact. The
-- reading of amounts and of big numbers is a parameter, and so is the floating-point arithmetic of
-- `Math.ceil(Number(utils.formatEther(wei)) * 100)`, which rounds.
pub mod Minimum
use nouns_monorepo.Prelude.{
  ℕ, zero, suc, ◌+◌, ◌*◌, ◌/◌, Bool, true, false, not, ◌&&◌, ◌||◌, List, [], ◌∷◌, if◌then◌else◌,
  ltb, leb, ◌==◌, Option, none, some, length, ◌>>=◌,
}
use nouns_monorepo.Prelude.Int.{ℤ, pos, ◌-ℤ◌, pos_part, neg_part}
use nouns_monorepo.Sdk.Text.{Text, text_eq, codes}
use nouns_monorepo.Sdk.Text.Splits.{split, is_free}
use nouns_monorepo.Webapp.Events.{Auction}
use nouns_monorepo.Webapp.Slices.Transactions.{TransactionStatus, is_mining}

-- No percentage, while it is loading, makes the minimum 0.
unfoldable pub compute_minimum_next_bid : ℕ → Option ℕ → ℕ
compute_minimum_next_bid current_bid none = 0
compute_minimum_next_bid current_bid (some min_bid_inc_percentage) =
    current_bid * (min_bid_inc_percentage + 100)

-- `input.split('.')[1].length > 2`
unfoldable pub has_many_decimals : List Text → Bool
has_many_decimals [] = false
has_many_decimals (whole ∷ []) = false
has_many_decimals (whole ∷ decimals ∷ more) = ltb 2 (length decimals)

unfoldable pub bid_input_handler : Text → Text → Text
unfolding is_free split has_many_decimals
bid_input_handler input bid_input =
    if not (is_free b'.' input) && has_many_decimals (split b'.' input) then bid_input else input

-- What a press of the button does: an alert and an input in hundredths of an ether, or a bid.
pub data Placing : Type 0 where
  ignored : Placing
  insufficient : ℕ → Placing
  placed : ℕ → ℕ → Placing

-- In hundredths of an ether; `none` where the reading of the minimum throws.
unfoldable pub min_bid_eth : (ℕ → Option ℕ) → (ℕ → ℕ) → ℕ → Option ℕ
min_bid_eth from_hundredths ceil_hundredths min_bid =
    if min_bid == 0 then some 1 else do wei ← from_hundredths min_bid; some (ceil_hundredths wei)

-- The input's value in wei
unfoldable pub current_bid : (Text → ℕ) → Text → ℕ
current_bid parse_ether [] = 0
current_bid parse_ether (c ∷ t) = parse_ether (c ∷ t)

module _ (parse_ether : Text → ℕ) (from_hundredths : ℕ → Option ℕ) (ceil_hundredths : ℕ → ℕ) where
  unfoldable pub place_bid_handler : Option Auction → Option ℕ → Text → Option Placing
  unfolding compute_minimum_next_bid min_bid_eth current_bid
  place_bid_handler none min_bid_inc_percentage input = some ignored
  place_bid_handler (some auction) min_bid_inc_percentage [] = some ignored
  place_bid_handler (some auction) min_bid_inc_percentage (c ∷ t) =
      let min_bid = compute_minimum_next_bid auction.amount min_bid_inc_percentage in
      if ltb (current_bid parse_ether (c ∷ t) * 100) min_bid
      then (do
        suggested ← min_bid_eth from_hundredths ceil_hundredths min_bid
        some (insufficient suggested))
      else some (placed auction.noun_id (parse_ether (c ∷ t)))

-- The effect that notices in the store that the own bid is the auction's
unfoldable pub is_bid_confirmed :
    (Text → ℕ) → Option Text → TransactionStatus → Text → Auction → Bool
unfolding current_bid text_eq
is_bid_confirmed parse_ether none tx input auction = false
is_bid_confirmed parse_ether (some account) tx input auction =
    is_mining tx
    && (text_eq auction.bidder account && current_bid parse_ether input == auction.amount)

-- The order of bids: the block or its timestamp, and the place in the block
pub record PlacedBid : Type 0 where
  pub block : ℕ
  pub tx_index : ℕ

unfoldable pub generate_bid_score : PlacedBid → ℕ
generate_bid_score bid = bid.block * 1000000 + bid.tx_index

-- `toNumber` throws beyond 53 bits.
abbrev pub to_number : ℤ → Option ℤ
to_number n = if ltb (pos_part n + neg_part n) 9007199254740992 then some n else none

unfoldable pub compare_bids : PlacedBid → PlacedBid → Option ℤ
unfolding generate_bid_score
compare_bids a b = to_number (pos (generate_bid_score a) -ℤ pos (generate_bid_score b))

unfoldable pub compare_bids_chronologically : PlacedBid → PlacedBid → Option ℤ
unfolding generate_bid_score
compare_bids_chronologically a b =
    to_number (pos (generate_bid_score b) -ℤ pos (generate_bid_score a))
