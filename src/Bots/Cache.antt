-- ===== src/Bots/Cache.antt =====
-- packages/nouns-bots/src/cache.ts: the keys of the Redis store, each with the value that is kept
-- under it (as text there: a number, an id, or a proposal as JSON).
use nouns_monorepo.Prelude.{
  ℕ, Bool, false, ◌||◌, List, [], ◌∷◌, if◌then◌else◌, ◌==◌, Option, none, some,
}
use nouns_monorepo.Sdk.Text.{Text}
use nouns_monorepo.Bots.Types.{Proposal}

pub record Cache : Type 0 where
  pub auction : Option ℕ
  pub bid : Option Text
  pub reply_tweet_id : Option Text
  pub auction_ending_soon : Option ℕ
  pub proposals : List (ℕ × Proposal)
  pub expiry_warning_sent : List ℕ

abbrev pub number_or_zero : Option ℕ → ℕ
number_or_zero none = 0
number_or_zero (some n) = n

abbrev pub text_or_empty : Option Text → Text
text_or_empty none = []
text_or_empty (some t) = t

unfoldable pub get_auction_cache : Cache → ℕ
get_auction_cache c = number_or_zero c.auction

unfoldable pub update_auction_cache : ℕ → Cache → Cache
update_auction_cache id c = record c { auction = some id }

unfoldable pub get_bid_cache : Cache → Text
get_bid_cache c = text_or_empty c.bid

unfoldable pub update_bid_cache : Text → Cache → Cache
update_bid_cache id c = record c { bid = some id }

unfoldable pub get_auction_reply_tweet_id : Cache → Option Text
get_auction_reply_tweet_id c = c.reply_tweet_id

unfoldable pub update_auction_reply_tweet_id : Text → Cache → Cache
update_auction_reply_tweet_id id c = record c { reply_tweet_id = some id }

unfoldable pub get_auction_ending_soon_cache : Cache → ℕ
get_auction_ending_soon_cache c = number_or_zero c.auction_ending_soon

unfoldable pub update_auction_ending_soon_cache : ℕ → Cache → Cache
update_auction_ending_soon_cache id c = record c { auction_ending_soon = some id }

unfoldable pub find_proposal : ℕ → List (ℕ × Proposal) → Option Proposal
find_proposal id [] = none
find_proposal id ((k, p) ∷ ps) = if k == id then some p else find_proposal id ps

unfoldable pub get_proposal_cache : ℕ → Cache → Option Proposal
unfolding find_proposal
get_proposal_cache id c = find_proposal id c.proposals

-- The latest value under a key stands first.
unfoldable pub update_proposal_cache : Proposal → Cache → Cache
update_proposal_cache p c = record c { proposals = (p.id, p) ∷ c.proposals }

unfoldable pub set_proposal_expiry_warning_sent : ℕ → Cache → Cache
set_proposal_expiry_warning_sent id c = record c {
  expiry_warning_sent = id ∷ c.expiry_warning_sent;
}

unfoldable pub has_number : ℕ → List ℕ → Bool
has_number id [] = false
has_number id (k ∷ ks) = (k == id) || has_number id ks

unfoldable pub has_warned_of_expiry : ℕ → Cache → Bool
unfolding has_number
has_warned_of_expiry id c = has_number id c.expiry_warning_sent
