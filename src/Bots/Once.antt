-- ===== src/Bots/Once.antt =====
-- What an auction tick of packages/nouns-bots/src/index.ts leaves in the cache.
use nouns_monorepo.Prelude.{
  ℕ, ◌/◌, Bool, ◌&&◌, ◌≡◌, refl, ◌∙◌, ap, List, [], ◌∷◌, if◌then◌else◌, ltb, Option, none, some,
  Bool-cases, Option-cases, inl, inr,
}
use nouns_monorepo.Prelude.Int.{pos, ◌-ℤ◌, ltb_ℤ}
use nouns_monorepo.Sdk.Text.{Text, codes, decimal, text_eq}
use nouns_monorepo.Bots.Types.{AuctionBids, Bid}
use nouns_monorepo.Bots.Cache.{
  Cache, get_auction_cache, update_auction_cache, get_bid_cache, update_bid_cache,
  get_auction_ending_soon_cache, update_auction_ending_soon_cache, get_auction_reply_tweet_id,
  update_auction_reply_tweet_id,
}
use nouns_monorepo.Bots.Handlers.{
  Services, Bots, Handler, twitter, discord, Message, tweeted, Embed, post_all, tweet, tweet_reply,
  handle_new_auction, handle_new_bid, handle_auction_ending_soon,
}
use nouns_monorepo.Bots.Texts.{format_auction_started_tweet_text}
use nouns_monorepo.Bots.Ticks.{
  increment_counter, to_int32, each, with_cache, discover_auction, discover_bid, announce_ending,
  process_auction_tick,
}

-- The cache, apart from the id that the next tweet replies to.
abbrev pub forget : Cache → Cache
forget c = record c { reply_tweet_id = none }

abbrev pub Quiet : (Handler → Bots → Bots) → Type 0
Quiet call = (h : Handler) (s : Bots) → forget (call h s).cache ≡ forget s.cache

pub each-forget :
    (call : Handler → Bots → Bots)
    → Quiet call
    → (hs : List Handler) (s : Bots) → forget (each call hs s).cache ≡ forget s.cache
unfolding each
each-forget call quiet [] s = refl
each-forget call quiet (h ∷ hs) s = each-forget call quiet hs (call h s) ∙ quiet h s

post_all-cache : (cs : List ℕ) (embed : Embed) (s : Bots) → (post_all cs embed s).cache ≡ s.cache
unfolding post_all
post_all-cache [] embed s = refl
post_all-cache (c ∷ cs) embed s = post_all-cache cs embed _

module _ (w : Services) where
  tweet-forget : (m : Message) (s : Bots) → forget (tweet w m s).cache ≡ forget s.cache
  unfolding tweet update_auction_reply_tweet_id
  tweet-forget m s = refl

  tweet_reply-forget : (t : Text) (s : Bots) → forget (tweet_reply w t s).cache ≡ forget s.cache
  unfolding tweet_reply get_auction_reply_tweet_id
  tweet_reply-forget t s = elim (Option-cases s.cache.reply_tweet_id) [
    | inl e ↦ rw e refl
    | inr ([], e) ↦ rw e refl
    | inr (c ∷ r, e) ↦ rw e refl
  ]

  handle_new_auction-Quiet : (id : ℕ) → Quiet (λ h. handle_new_auction w h id)
  unfolding handle_new_auction
  handle_new_auction-Quiet id twitter s = elim (Option-cases (w.noun_png_buffer (decimal id))) [
    | inl e ↦ rw (e, handle_new_auction) refl
    | inr (png, e) ↦
        rw (e, handle_new_auction)
          (tweet-forget (tweeted (format_auction_started_tweet_text id) png) s)
  ]
  handle_new_auction-Quiet id (discord cs) s =
      elim (Option-cases (w.noun_png_buffer (decimal id))) [
        | inl e ↦ rw (e, handle_new_auction) refl
        | inr (png, e) ↦ rw (e, handle_new_auction) (ap forget (post_all-cache cs _ s))
      ]

  handle_new_bid-Quiet : (id : ℕ) (bid : Bid) → Quiet (λ h. handle_new_bid w h id bid)
  unfolding handle_new_bid
  handle_new_bid-Quiet id bid twitter s = tweet_reply-forget _ s
  handle_new_bid-Quiet id bid (discord cs) s = ap forget (post_all-cache cs _ s)

  handle_auction_ending_soon-Quiet : (id : ℕ) → Quiet (λ h. handle_auction_ending_soon w h id)
  unfolding handle_auction_ending_soon
  handle_auction_ending_soon-Quiet id twitter s = tweet_reply-forget _ s
  handle_auction_ending_soon-Quiet id (discord cs) s = refl

-- What the three parts of a tick, and then all of it, leave in the cache.
abbrev with_auction : ℕ → ℕ → Cache → Cache
with_auction k last c = record c { auction = if ltb k last then some last else c.auction }

abbrev pub next_bid : Text → List Bid → Option Text → Option Text
next_bid k [] kept = kept
next_bid k (b ∷ bids) kept = if text_eq k b.id then kept else some b.id

abbrev with_bid : Text → List Bid → Cache → Cache
with_bid k bids c = record c { bid = next_bid k bids c.bid }

-- Less than 20 minutes are left, and the auction is later than the one that was announced.
abbrev pub is_due : ℕ → ℕ → AuctionBids → Bool
is_due k now last = ltb_ℤ (pos last.end_time -ℤ to_int32 (now / 1000)) (pos 1200) && ltb k last.id

abbrev with_ending : Bool → ℕ → Cache → Cache
with_ending due id c = record c {
  auction_ending_soon = if due then some id else c.auction_ending_soon;
}

abbrev pub next_cache : ℕ → AuctionBids → Cache → Cache
next_cache now last c = record c {
  auction = if ltb (get_auction_cache c) last.id then some last.id else c.auction;
  bid = next_bid (get_bid_cache c) last.bids c.bid;
  auction_ending_soon =
      if is_due (get_auction_ending_soon_cache c) now last
      then some last.id
      else c.auction_ending_soon;
}

module _ (w : Services) (hs : List Handler) where
  discover_auction-forget :
      (k last : ℕ) (s : Bots)
      → forget (discover_auction w hs k last s).cache ≡ with_auction k last (forget s.cache)
  unfolding discover_auction increment_counter update_auction_cache
  discover_auction-forget k last s = elim (Bool-cases (ltb k last)) [
    | inl e ↦ rw e (
        each-forget (λ h. handle_new_auction w h last) (handle_new_auction-Quiet w last) hs
          (with_cache (update_auction_cache last)
            (increment_counter (codes "auctions_discovered") s)))
    | inr e ↦ rw e refl
  ]

  announce_ending-forget :
      (k now : ℕ) (last : AuctionBids) (s : Bots)
      → forget (announce_ending w hs k now last s).cache
        ≡ with_ending (is_due k now last) last.id (forget s.cache)
  unfolding announce_ending update_auction_ending_soon_cache
  announce_ending-forget k now last s = elim (Bool-cases (is_due k now last)) [
    | inl e ↦ rw e (
        each-forget (λ h. handle_auction_ending_soon w h last.id)
          (handle_auction_ending_soon-Quiet w last.id) hs
          (with_cache (update_auction_ending_soon_cache last.id) s))
    | inr e ↦ rw e refl
  ]

  discover_bid-forget_of :
      (k : Text) (last : AuctionBids) (s : Bots) (bids : List Bid)
      → last.bids ≡ bids
      → forget (discover_bid w hs k last s).cache ≡ with_bid k bids (forget s.cache)
  unfolding discover_bid update_bid_cache
  discover_bid-forget_of k last s [] e = rw (e, discover_bid) refl
  discover_bid-forget_of k last s (b ∷ bids) e = elim (Bool-cases (text_eq k b.id)) [
    | inl same ↦ rw (e, discover_bid) (rw same refl)
    | inr new ↦
        rw (e, discover_bid)
          (rw new (
            each-forget (λ h. handle_new_bid w h last.id b) (handle_new_bid-Quiet w last.id b) hs
              (with_cache (update_bid_cache b.id) s)))
  ]

  -- The cache after a tick, apart from the id for the next reply: the auction and the first bid
  -- are the answer's if they are new, and so is the auction that is ending soon if it is due.
  pub process_auction_tick-next_cache :
      (now : ℕ) (last : AuctionBids) (s : Bots)
      → forget (process_auction_tick w hs now (some last) s).cache
        ≡ forget (next_cache now last s.cache)
  unfolding process_auction_tick increment_counter
  process_auction_tick-next_cache now last s =
      let due = is_due (get_auction_ending_soon_cache s.cache) now last in
      announce_ending-forget (get_auction_ending_soon_cache s.cache) now last _
      ∙ ap (with_ending due last.id) (
          discover_bid-forget_of (get_bid_cache s.cache) last _ last.bids refl
          ∙ ap (with_bid (get_bid_cache s.cache) last.bids)
              (discover_auction-forget (get_auction_cache s.cache) last.id s))
