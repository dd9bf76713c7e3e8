-- ===== src/Webapp/Bidding/Minimum.antt =====
-- The minimum of components/Bid, and the order of bids.
use nouns_monorepo.Prelude.{
  ℕ, ◌*◌, ◌≤◌, ◌<◌, ◌≡◌, refl, arith, ap, sym, ◌∙◌, Bool, true, false, ◌&&◌, ◌||◌, [], ◌∷◌, ltb,
  ◌==◌, Option, none, some, Bool-cases, Option-cases, inl, inr,
}
use mathlib.Core.Path.{subst}
use nouns_monorepo.Prelude.Int.{ℤ, pos, ◌-ℤ◌, ltb_ℤ}
use nouns_monorepo.Sdk.Text.{Text}
use nouns_monorepo.Webapp.Events.{Auction}
use nouns_monorepo.Webapp.Bidding.{
  compute_minimum_next_bid, Placing, ignored, insufficient, placed, min_bid_eth, current_bid,
  place_bid_handler, PlacedBid, generate_bid_score, compare_bids, compare_bids_chronologically,
}

module _ (parse_ether : Text → ℕ) where
  -- What a press may come to
  pub IsFair : Option Auction → Option ℕ → Text → Placing → Type 0
  IsFair none percentage input outcome = outcome ≡ ignored
  IsFair (some auction) percentage input ignored = input ≡ []
  IsFair (some auction) percentage input (insufficient suggested) =
      parse_ether input * 100 < compute_minimum_next_bid auction.amount percentage
  IsFair (some auction) percentage input (placed noun_id value) =
      (noun_id ≡ auction.noun_id)
      × (value ≡ parse_ether input)
      × (compute_minimum_next_bid auction.amount percentage ≤ value * 100)

module _ (parse_ether : Text → ℕ) (from_hundredths : ℕ → Option ℕ) (ceil_hundredths : ℕ → ℕ) where
  insufficient_or_none : Option ℕ → Option Placing
  insufficient_or_none none = none
  insufficient_or_none (some suggested) = some (insufficient suggested)

  low :
      (auction : Auction) (percentage : Option ℕ) (c : ℕ) (t : Text)
      → ltb (parse_ether (c ∷ t) * 100) (compute_minimum_next_bid auction.amount percentage) ≡ true
      → place_bid_handler parse_ether from_hundredths ceil_hundredths
          (some auction)
          percentage
          (c ∷ t)
        ≡ insufficient_or_none (
            min_bid_eth from_hundredths ceil_hundredths
              (compute_minimum_next_bid auction.amount percentage))
  unfolding place_bid_handler insufficient_or_none current_bid
  low auction percentage c t l =
      elim (Option-cases (
        min_bid_eth from_hundredths ceil_hundredths
          (compute_minimum_next_bid auction.amount percentage))) [
            | inl e ↦ rw (l, e) refl
            | inr (suggested, e) ↦ rw (l, e) refl
          ]

  enough :
      (auction : Auction) (percentage : Option ℕ) (c : ℕ) (t : Text)
      → ltb (parse_ether (c ∷ t) * 100) (compute_minimum_next_bid auction.amount percentage) ≡ false
      → place_bid_handler parse_ether from_hundredths ceil_hundredths
          (some auction)
          percentage
          (c ∷ t)
        ≡ some (placed auction.noun_id (parse_ether (c ∷ t)))
  unfolding place_bid_handler current_bid
  enough auction percentage c t l = rw l refl

  abbrev outcome_or : Placing → Option Placing → Placing
  outcome_or p none = p
  outcome_or p (some q) = q

  low-IsFair :
      (auction : Auction) (percentage : Option ℕ) (c : ℕ) (t : Text) (outcome : Placing)
      (suggested : Option ℕ)
      → ltb (parse_ether (c ∷ t) * 100) (compute_minimum_next_bid auction.amount percentage) ≡ true
      → min_bid_eth from_hundredths ceil_hundredths
          (compute_minimum_next_bid auction.amount percentage)
        ≡ suggested
      → insufficient_or_none suggested ≡ some outcome
      → IsFair parse_ether (some auction) percentage (c ∷ t) outcome
  unfolding insufficient_or_none IsFair
  low-IsFair auction percentage c t outcome none l e h = absurd (ground (arith, h))
  low-IsFair auction percentage c t outcome (some suggested) l e h =
      subst (IsFair parse_ether (some auction) percentage (c ∷ t)) (ap (outcome_or outcome) h)
        (ground (arith, l))

  -- What a press of the button comes to, where nothing throws: without an auction or an input it
  -- is ignored; a bid is for the auction's noun, of the input's value, and not below the minimum;
  -- and where an amount is suggested instead the input is below the minimum.
  pub place_bid_handler-IsFair :
      (auction : Option Auction) (percentage : Option ℕ) (input : Text) (outcome : Placing)
      → place_bid_handler parse_ether from_hundredths ceil_hundredths auction percentage input
        ≡ some outcome
      → IsFair parse_ether auction percentage input outcome
  unfolding place_bid_handler IsFair
  place_bid_handler-IsFair none percentage input outcome h = sym (ap (outcome_or outcome) h)
  place_bid_handler-IsFair (some auction) percentage [] outcome h =
      subst (IsFair parse_ether (some auction) percentage []) (ap (outcome_or outcome) h) refl
  place_bid_handler-IsFair (some auction) percentage (c ∷ t) outcome h =
      let m : ℕ = compute_minimum_next_bid auction.amount percentage in
      elim (Bool-cases (ltb (parse_ether (c ∷ t) * 100) m)) [
        | inl l ↦
            low-IsFair auction percentage c t outcome
              (min_bid_eth from_hundredths ceil_hundredths m) l refl
              (sym (low auction percentage c t l) ∙ h)
        | inr e ↦
            subst (IsFair parse_ether (some auction) percentage (c ∷ t))
              (ap (outcome_or outcome) (sym (enough auction percentage c t e) ∙ h))
              (refl, refl, ground (arith, e))
      ]

-- Order
abbrev is_less : Option ℤ → Bool
is_less none = false
is_less (some n) = ltb_ℤ n (pos 0)

abbrev is_earlier : PlacedBid → PlacedBid → Bool
is_earlier a b = ltb a.block b.block || (a.block == b.block && ltb a.tx_index b.tx_index)

pub compare_bids_lem :
    (a b : PlacedBid)
    → a.tx_index < 1000000
    → b.tx_index < 1000000
    → a.block < 9000000000
    → b.block < 9000000000
    → (is_less (compare_bids a b) ≡ is_earlier a b)
      × (is_less (compare_bids_chronologically b a) ≡ is_earlier a b)
unfolding compare_bids compare_bids_chronologically generate_bid_score ◌-ℤ◌
compare_bids_lem a b h i j k = ground arith
