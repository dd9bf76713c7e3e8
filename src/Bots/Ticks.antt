-- ===== src/Bots/Ticks.antt =====
-- packages/nouns-bots/src/index.ts: the two ticks. The subgraph's answer and the time are arguments;
-- the handlers are called one after another, as are the proposals' steps.
use nouns_monorepo.Prelude.{
  ℕ, ◌*◌, ◌/◌, ◌%◌, not, ◌&&◌, List, [], ◌∷◌, ◌++◌, if◌then◌else◌, ltb, Option, none, some,
}
use nouns_monorepo.Prelude.Int.{ℤ, pos, ◌-ℤ◌, ltb_ℤ}
use nouns_monorepo.Sdk.Text.{Text, codes, text_eq}
use nouns_monorepo.Bots.Types.{AuctionBids, Proposal, Vote, extract_new_votes, is_at_risk_of_expiry}
use nouns_monorepo.Bots.Cache.{
  Cache, get_auction_cache, update_auction_cache, get_bid_cache, update_bid_cache,
  get_auction_ending_soon_cache, update_auction_ending_soon_cache, get_proposal_cache,
  update_proposal_cache, has_warned_of_expiry, set_proposal_expiry_warning_sent,
}
use nouns_monorepo.Bots.Handlers.{
  Services, Bots, Handler, handle_new_auction, handle_new_bid, handle_auction_ending_soon,
  handle_new_proposal, handle_updated_proposal_status, handle_proposal_at_risk_of_expiry,
  handle_governance_vote,
}

abbrev build_counter_name : Text → Text
build_counter_name name = codes "bots_" ++ name

unfoldable pub increment_counter : Text → Bots → Bots
increment_counter name s = record s { counted = build_counter_name name ∷ s.counted }

-- `~~n`: the last 32 bits, signed
unfoldable pub to_int32 : ℕ → ℤ
to_int32 n =
    let low = n % 4294967296 in if ltb low 2147483648 then pos low else pos low -ℤ pos 4294967296

-- The same method of every handler.
unfoldable pub each : (Handler → Bots → Bots) → List Handler → Bots → Bots
each call [] s = s
each call (h ∷ hs) s = each call hs (call h s)

abbrev pub with_cache : (Cache → Cache) → Bots → Bots
with_cache f s = record s { cache = f s.cache }

module _ (w : Services) (handlers : List Handler) where
  unfoldable pub discover_auction : ℕ → ℕ → Bots → Bots
  unfolding increment_counter update_auction_cache each
  discover_auction cached last s =
      if ltb cached last
      then increment_counter (codes "auction_cache_updates") (
          each (λ h. handle_new_auction w h last) handlers
            (with_cache (update_auction_cache last)
              (increment_counter (codes "auctions_discovered") s)))
      else s

  unfoldable pub discover_bid : Text → AuctionBids → Bots → Bots
  unfolding update_bid_cache each text_eq
  discover_bid cached last s = elim (last.bids) [
    | [] ↦ s
    | bid ∷ _ ↦
        if text_eq cached bid.id
        then s
        else each (λ h. handle_new_bid w h last.id bid) handlers
            (with_cache (update_bid_cache bid.id) s)
  ]

  unfoldable pub announce_ending : ℕ → ℕ → AuctionBids → Bots → Bots
  unfolding to_int32 update_auction_ending_soon_cache each
  announce_ending cached now last s =
      let left = pos last.end_time -ℤ to_int32 (now / 1000) in
      if ltb_ℤ left (pos (20 * 60)) && ltb cached last.id
      then each (λ h. handle_auction_ending_soon w h last.id) handlers
          (with_cache (update_auction_ending_soon_cache last.id) s)
      else s

  -- All three caches are read first. Without an auction the tick fails before it changes anything.
  unfoldable pub process_auction_tick : ℕ → Option AuctionBids → Bots → Bots
  unfolding discover_auction increment_counter discover_bid announce_ending get_auction_cache
      get_bid_cache get_auction_ending_soon_cache
  process_auction_tick now none s = s
  process_auction_tick now (some last) s =
      let cached_auction = get_auction_cache s.cache in
      let cached_bid = get_bid_cache s.cache in
      let cached_ending = get_auction_ending_soon_cache s.cache in
      let s1 = discover_auction cached_auction last.id s in
      let s2 = increment_counter (codes "auction_process_last_auction") s1 in
      let s3 = discover_bid cached_bid last s2 in announce_ending cached_ending now last s3

  unfoldable pub announce_votes : Proposal → List Vote → Bots → Bots
  unfolding each
  announce_votes p [] s = s
  announce_votes p (v ∷ vs) s =
      announce_votes p vs (each (λ h. handle_governance_vote w h p v) handlers s)

  unfoldable pub announce_status : Proposal → Proposal → Bots → Bots
  unfolding each text_eq
  announce_status before p s =
      if text_eq before.status p.status
      then s
      else each (λ h. handle_updated_proposal_status w h p) handlers s

  unfoldable pub warn_of_expiry : ℕ → Proposal → Bots → Bots
  unfolding each is_at_risk_of_expiry has_warned_of_expiry set_proposal_expiry_warning_sent
  warn_of_expiry now p s =
      if is_at_risk_of_expiry now p && not (has_warned_of_expiry p.id s.cache)
      then with_cache (set_proposal_expiry_warning_sent p.id)
          (each (λ h. handle_proposal_at_risk_of_expiry w h p) handlers s)
      else s

  -- The callback of `processGovernanceTick`.
  unfoldable pub process_proposal : ℕ → Proposal → Bots → Bots
  unfolding each announce_status announce_votes warn_of_expiry update_proposal_cache
      get_proposal_cache extract_new_votes
  process_proposal now p s =
      with_cache (update_proposal_cache p) (elim (get_proposal_cache p.id s.cache) [
        | none ↦ each (λ h. handle_new_proposal w h p) handlers s
        | some before ↦
            warn_of_expiry now p
              (announce_votes p (extract_new_votes before p) (announce_status before p s))
      ])

  unfoldable pub process_governance_tick : ℕ → List Proposal → Bots → Bots
  unfolding process_proposal
  process_governance_tick now [] s = s
  process_governance_tick now (p ∷ ps) s = process_governance_tick now ps (process_proposal now p s)

-- What is put in the cache at the start.
unfoldable pub setup_auction : AuctionBids → Bots → Bots
unfolding update_auction_cache
setup_auction last s = with_cache (update_auction_cache last.id) s

unfoldable pub setup_governance : List Proposal → Bots → Bots
unfolding update_proposal_cache
setup_governance [] s = s
setup_governance (p ∷ ps) s = setup_governance ps (with_cache (update_proposal_cache p) s)
