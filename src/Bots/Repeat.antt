-- ===== src/Bots/Repeat.antt =====
-- An auction tick of packages/nouns-bots/src/index.ts that finds nothing new, and its clock.
use nouns_monorepo.Prelude.{
  ℕ, ◌/◌, ◌%◌, ◌≤◌, ◌<◌, Bool, true, false, not, ◌&&◌, ◌||◌, ◌≡◌, refl, ◌∙◌, ap, sym, arith, List,
  [], ◌∷◌, if◌then◌else◌, ltb, Option, some, Bool-cases, inl, inr,
}
use nouns_monorepo.Prelude.Int.{pos, ◌-ℤ◌, ltb_ℤ}
use nouns_monorepo.Sdk.Text.{Text, codes, text_eq, text_eq_iff}
use nouns_monorepo.Bots.Types.{AuctionBids, Bid}
use nouns_monorepo.Bots.Cache.{
  Cache, get_auction_cache, get_bid_cache, get_auction_ending_soon_cache, number_or_zero,
  text_or_empty,
}
use nouns_monorepo.Bots.Handlers.{Services, Bots, Handler}
use nouns_monorepo.Bots.Ticks.{
  increment_counter, to_int32, discover_auction, discover_bid, announce_ending,
  process_auction_tick,
}
use nouns_monorepo.Bots.Once.{forget, next_bid, is_due, next_cache, process_auction_tick-next_cache}

-- The bid that stands first is the one that was announced.
abbrev pub is_known_bid : List Bid → Text → Bool
is_known_bid [] k = true
is_known_bid (b ∷ bids) k = text_eq k b.id

-- Nothing that the subgraph answers is new to the cache.
abbrev pub is_news : ℕ → AuctionBids → Cache → Bool
is_news now last c =
    ltb (get_auction_cache c) last.id
    || (not (is_known_bid last.bids (get_bid_cache c))
        || is_due (get_auction_ending_soon_cache c) now last)

known_number :
    (known : Option ℕ) (n : ℕ)
    → ltb (number_or_zero (if ltb (number_or_zero known) n then some n else known)) n ≡ false
known_number known n = elim (Bool-cases (ltb (number_or_zero known) n)) [
  | inl e ↦ rw e (ground arith)
  | inr e ↦ rw (e, e) refl
]

due_number :
    (due : Bool) (known : Option ℕ) (n : ℕ)
    → (due
        && ltb (number_or_zero (if due && ltb (number_or_zero known) n then some n else known)) n)
      ≡ false
due_number true known n = known_number known n
due_number false known n = refl

known_bid :
    (bids : List Bid) (kept : Option Text)
    → is_known_bid bids (text_or_empty (next_bid (text_or_empty kept) bids kept)) ≡ true
known_bid [] kept = refl
known_bid (b ∷ bids) kept = elim (Bool-cases (text_eq (text_or_empty kept) b.id)) [
  | inl e ↦ rw (e, e) refl
  | inr e ↦ rw e ((text_eq_iff b.id b.id).1 refl)
]

no_news : (a b c : Bool) → a ≡ false → b ≡ true → c ≡ false → (a || (not b || c)) ≡ false
no_news a b c ha hb hc = rw (ha, hb, hc) refl

news_parts : (a b c : Bool) → (a || (not b || c)) ≡ false → (a ≡ false) × (b ≡ true) × (c ≡ false)
news_parts a b c h = ground arith

is_news-next_cache :
    (now : ℕ) (last : AuctionBids) (c : Cache) → is_news now last (next_cache now last c) ≡ false
unfolding get_auction_cache get_bid_cache get_auction_ending_soon_cache
is_news-next_cache now last c =
    let soon = ltb_ℤ (pos last.end_time -ℤ to_int32 (now / 1000)) (pos 1200) in
    no_news _ _ _ (known_number c.auction last.id) (known_bid last.bids c.bid)
      (due_number soon c.auction_ending_soon last.id)

is_news-forget :
    (now : ℕ) (last : AuctionBids) (c : Cache) → is_news now last (forget c) ≡ is_news now last c
unfolding get_auction_cache get_bid_cache get_auction_ending_soon_cache
is_news-forget now last c = refl

seconds_left_late :
    (end_time seconds : ℕ)
    → 2147483648 ≤ seconds
    → seconds < 4294967296
    → 1200 ≤ end_time
    → ltb_ℤ (pos end_time -ℤ to_int32 seconds) (pos 1200) ≡ false
unfolding to_int32 ◌-ℤ◌
seconds_left_late end_time seconds lo hi e =
    let low : seconds % 4294967296 ≡ seconds = omega arith in rw low (ground arith)

module _ (w : Services) (hs : List Handler) where
  discover_bid-known :
      (last : AuctionBids) (s : Bots) (k : Text) (bids : List Bid)
      → last.bids ≡ bids
      → is_known_bid bids k ≡ true
      → discover_bid w hs k last s ≡ s
  unfolding discover_bid
  discover_bid-known last s k [] e h = rw (e, discover_bid) refl
  discover_bid-known last s k (b ∷ bids) e h = rw (e, discover_bid) (rw h refl)

  process_auction_tick-no_news :
      (now : ℕ) (last : AuctionBids) (s : Bots)
      → is_news now last s.cache ≡ false
      → process_auction_tick w hs now (some last) s
        ≡ increment_counter (codes "auction_process_last_auction") s
  unfolding process_auction_tick discover_auction announce_ending
  process_auction_tick-no_news now last s h =
      let (auction, bid, ending) =
        news_parts (ltb (get_auction_cache s.cache) last.id)
          (is_known_bid last.bids (get_bid_cache s.cache))
          (is_due (get_auction_ending_soon_cache s.cache) now last) h in
      rw auction (
        ap (announce_ending w hs (get_auction_ending_soon_cache s.cache) now last)
          (discover_bid-known last _ (get_bid_cache s.cache) last.bids refl bid)
        ∙ rw ending refl)

  -- A second tick on the same answer and at the same time only counts itself: no message is sent,
  -- and the cache stays as it is.
  pub process_auction_tick-again :
      (now : ℕ) (last : AuctionBids) (s : Bots)
      → let t = process_auction_tick w hs now (some last) s in
        process_auction_tick w hs now (some last) t
        ≡ increment_counter (codes "auction_process_last_auction") t
  process_auction_tick-again now last s =
      process_auction_tick-no_news now last (process_auction_tick w hs now (some last) s) (
        sym (is_news-forget now last _)
        ∙ ap (is_news now last) (process_auction_tick-next_cache w hs now last s)
        ∙ is_news-forget now last (next_cache now last s.cache)
        ∙ is_news-next_cache now last s.cache)

  -- From 2038-01-19 to 2106, an auction that ends 20 minutes after the start of 1970 or later is
  -- never announced as ending soon, however little time is left.
  pub announce_ending-late :
      (k now : ℕ) (last : AuctionBids) (s : Bots)
      → 2147483648 ≤ now / 1000
      → now / 1000 < 4294967296
      → 1200 ≤ last.end_time
      → announce_ending w hs k now last s ≡ s
  unfolding announce_ending
  announce_ending-late k now last s lo hi e =
      let never = seconds_left_late last.end_time (now / 1000) lo hi e in rw never refl
