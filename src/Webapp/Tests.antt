-- ===== src/Webapp/Tests.antt =====
-- The theorems about the web application's state at concrete auctions and logs.
use nouns_monorepo.Prelude.{List, Option, ℕ, ◌≤◌, ◌≡◌, refl, false, arith, [], ◌∷◌, none, some}
use nouns_monorepo.Prelude.Int.{pos}
use nouns_monorepo.Sdk.Text.{Text, codes, text_eq}
use nouns_monorepo.Webapp.Events.{BidEvent, Auction}
use nouns_monorepo.Webapp.Auction.{AuctionState, contains_bid, append_bid, bid, reducer}
use nouns_monorepo.Webapp.Auction.Bids.{IsDistinct, IsLed, reducer-IsDistinct, append_bid-IsLed}
use mathlib.Core.Option.{map}
use nouns_monorepo.Webapp.Filters.{
  Topic, EventFilter, anything, one_topic, one_of, filter_to_key, key_to_filter, address_part,
  topic_key,
}
use nouns_monorepo.Sdk.Text.Splits.{is_free, join}
use nouns_monorepo.Webapp.Filters.Keys.{bare, with_topics, are_clear, filter_to_key-key_to_filter}
use nouns_monorepo.Webapp.Logs.{
  Entry, LogsState, Results, fetching_logs, filters_need_fetch, needs_fetch,
}
use nouns_monorepo.Webapp.Logs.Fetching.{AreReadBack, filters_need_fetch-fetching_logs}
use nouns_monorepo.Webapp.Logs.Refetched.{no_topics_refetched}
use nouns_monorepo.Webapp.Logs.Blocks.{fetched, reduce_logs, results_block, reduce_logs-ge}

abbrev auction : Auction
auction = record {
  amount = 5;
  bidder = codes "a";
  end_time = 20;
  start_time = 10;
  noun_id = 11;
  settled = false;
}

abbrev offer : Text → ℕ → BidEvent
offer hash value = record {
  noun_id = 11;
  sender = codes "a";
  value = value;
  extended = false;
  transaction_hash = hash;
  timestamp = value;
}

abbrev first : BidEvent
first = offer (codes "x") 5

abbrev second : BidEvent
second = offer (codes "y") 6

abbrev third : BidEvent
third = offer (codes "z") 7

abbrev state : AuctionState
state = record { active_auction = some auction; bids = first ∷ [] }

reducer-IsDistinct_example : IsDistinct (reducer (bid second) state).bids
unfolding contains_bid
reducer-IsDistinct_example = reducer-IsDistinct (bid second) state (refl, tt)

append_bid-IsLed_example :
    IsLed (append_bid second state).active_auction (append_bid second state).bids
unfolding text_eq
append_bid-IsLed_example = append_bid-IsLed second state ((omega arith, tt), refl)

abbrev logs : LogsState ℕ
logs = (codes "k", record { listeners = pos 1; fetching_block_number = none; results = none }) ∷ []

abbrev answer : Results ℕ
answer = record { block_number = 9; logs = some [] }

reduce_logs-ge_example :
    results_block (codes "k") logs
    ≤ results_block (codes "k") (reduce_logs (fetched (codes "k") answer) logs)
reduce_logs-ge_example = reduce_logs-ge (fetched (codes "k") answer) (codes "k") logs

abbrev waiting : Entry ℕ
waiting = record { listeners = pos 1; fetching_block_number = some 7; results = none }

abbrev address : Option Text
address = some (codes "0xab")

abbrev topics : List Topic
topics = anything ∷ one_of (codes "0x1" ∷ codes "0x2" ∷ []) ∷ []

abbrev key_of_topics : Text
key_of_topics = filter_to_key (with_topics address (one_topic (codes "0xc")) topics)

filter_to_key-key_to_filter_example :
    map filter_to_key (key_to_filter key_of_topics) ≡ some key_of_topics
unfolding are_clear is_free address_part topic_key join
filter_to_key-key_to_filter_example =
    filter_to_key-key_to_filter address (one_topic (codes "0xc")) topics refl refl

filters_need_fetch-fetching_logs_example :
    (filters : List EventFilter) × (filters_need_fetch 9 ((key_of_topics, waiting) ∷ [])
      ≡ some filters)
    × (filters_need_fetch 9 (fetching_logs filters 9 ((key_of_topics, waiting) ∷ [])) ≡ some [])
unfolding AreReadBack are_clear is_free address_part topic_key join
filters_need_fetch-fetching_logs_example =
    filters_need_fetch-fetching_logs 9 ((key_of_topics, waiting) ∷ [])
      (filter_to_key-key_to_filter address (one_topic (codes "0xc")) topics refl refl, tt)

no_topics_refetched_example :
    (filters : List EventFilter) × (filters_need_fetch 9
        ((filter_to_key (bare address), waiting) ∷ [])
      ≡ some filters)
    × (fetching_logs filters 9 ((filter_to_key (bare address), waiting) ∷ [])
        ≡ (filter_to_key (bare address), waiting) ∷ [])
unfolding needs_fetch is_free address_part
no_topics_refetched_example = no_topics_refetched 9 address waiting refl refl
