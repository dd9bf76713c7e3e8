-- ===== src/Webapp/Auction/Bids.antt =====
-- The bids of state/slices/auction.ts, and the auction's amount and bidder.
use Prim.Native.Nat.{max}
use nouns_monorepo.Prelude.{
  ℕ, ◌≤◌, ◌≡◌, refl, Bool, true, false, ◌&&◌, ◌||◌, List, [], ◌∷◌, ltb, ◌==◌, arith, ap, sym, ◌∙◌,
  Option, none, some, Option-cases, Bool-cases, inl, inr, ==_iff,
}
use mathlib.Core.Path.{subst}
use nouns_monorepo.Sdk.Text.{Text, text_eq, text_eq_iff}
use nouns_monorepo.Webapp.Events.{BidEvent, Auction, AuctionSettledEvent, AuctionExtendedEvent}
use nouns_monorepo.Webapp.Auction.{
  AuctionState, max_bid, contains_bid, append_bid, set_active_auction, set_full_auction,
  set_auction_settled, set_auction_extended, Action, active, full, bid, settled, extended, reducer,
}

-- No transaction hash stands for two bids.
abbrev pub IsDistinct : List BidEvent → Type 0
IsDistinct [] = Unit
IsDistinct (b ∷ bids) = (contains_bid bids b ≡ false) × IsDistinct bids

append_bid-IsDistinct :
    (b : BidEvent) (s : AuctionState) → IsDistinct s.bids → IsDistinct (append_bid b s).bids
unfolding append_bid
append_bid-IsDistinct b s h = elim (Option-cases s.active_auction) [
  | inl e ↦ rw (e, append_bid) h
  | inr (a, e) ↦ rw (e, append_bid) (ground (arith, h))
]

set_auction_settled-bids :
    (ev : AuctionSettledEvent) (s : AuctionState) → (set_auction_settled ev s).bids ≡ s.bids
unfolding set_auction_settled
set_auction_settled-bids ev s = elim (Option-cases s.active_auction) [
  | inl e ↦ rw (e, set_auction_settled) refl
  | inr (a, e) ↦ rw (e, set_auction_settled) (ground arith)
]

set_auction_extended-bids :
    (ev : AuctionExtendedEvent) (s : AuctionState) → (set_auction_extended ev s).bids ≡ s.bids
unfolding set_auction_extended
set_auction_extended-bids ev s = elim (Option-cases s.active_auction) [
  | inl e ↦ rw (e, set_auction_extended) refl
  | inr (a, e) ↦ rw (e, set_auction_extended) (ground arith)
]

-- Every action keeps the bids distinct.
pub reducer-IsDistinct :
    (action : Action) (s : AuctionState) → IsDistinct s.bids → IsDistinct (reducer action s).bids
unfolding reducer set_active_auction set_full_auction
reducer-IsDistinct (active ev) s h = tt
reducer-IsDistinct (full a) s h = h
reducer-IsDistinct (bid b) s h = append_bid-IsDistinct b s h
reducer-IsDistinct (settled ev) s h = rw (set_auction_settled-bids ev s) h
reducer-IsDistinct (extended ev) s h = rw (set_auction_extended-bids ev s) h

abbrev pub AllBelow : ℕ → List BidEvent → Type 0
AllBelow n [] = Unit
AllBelow n (b ∷ bids) = (b.value ≤ n) × AllBelow n bids

-- A bid of this value by this sender is there.
abbrev pub has_bid : ℕ → Text → List BidEvent → Bool
has_bid n sender [] = false
has_bid n sender (b ∷ bids) = (b.value == n && text_eq b.sender sender) || has_bid n sender bids

-- The auction shows the value and the sender of a highest bid, if there are bids.
abbrev pub IsLed : Option Auction → List BidEvent → Type 0
IsLed none bids = Unit
IsLed (some a) [] = Unit
IsLed (some a) (b ∷ bids) =
    AllBelow a.amount (b ∷ bids) × (has_bid a.amount a.bidder (b ∷ bids) ≡ true)

max_bid-ge : (prev : BidEvent) (bids : List BidEvent) → prev.value ≤ (max_bid prev bids).value
unfolding max_bid
max_bid-ge prev [] = omega arith
max_bid-ge prev (b ∷ bids) = ground (arith, max_bid-ge prev bids, max_bid-ge b bids)

max_bid_kept :
    (prev b : BidEvent) (bids : List BidEvent)
    → ltb b.value prev.value ≡ true
    → max_bid prev (b ∷ bids) ≡ max_bid prev bids
unfolding max_bid
max_bid_kept prev b bids e = rw (e, max_bid) refl

max_bid_passed :
    (prev b : BidEvent) (bids : List BidEvent)
    → ltb b.value prev.value ≡ false
    → max_bid prev (b ∷ bids) ≡ max_bid b bids
unfolding max_bid
max_bid_passed prev b bids e = rw (e, max_bid) refl

max_bid-AllBelow :
    (prev : BidEvent) (bids : List BidEvent) → AllBelow (max_bid prev bids).value bids
unfolding max_bid
max_bid-AllBelow prev [] = tt
max_bid-AllBelow prev (b ∷ bids) = elim (Bool-cases (ltb b.value prev.value)) [
  | inl e ↦
      subst {A = BidEvent} (λ m. AllBelow m.value (b ∷ bids)) (sym (max_bid_kept prev b bids e))
        (ground (arith, max_bid-ge prev bids), max_bid-AllBelow prev bids)
  | inr e ↦
      subst {A = BidEvent} (λ m. AllBelow m.value (b ∷ bids)) (sym (max_bid_passed prev b bids e))
        (max_bid-ge b bids, max_bid-AllBelow b bids)
]

max_bid-has_bid :
    (prev : BidEvent) (bids : List BidEvent)
    → has_bid (max_bid prev bids).value (max_bid prev bids).sender (prev ∷ bids) ≡ true
unfolding max_bid
max_bid-has_bid prev [] = ground (arith, text_eq_iff prev.sender prev.sender)
max_bid-has_bid prev (b ∷ bids) = ground (arith, max_bid-has_bid prev bids, max_bid-has_bid b bids)

-- If an auction with bids shows the value and the sender of a highest one, it still does after a
-- bid.
pub append_bid-IsLed :
    (b : BidEvent) (s : AuctionState)
    → IsLed s.active_auction s.bids
    → IsLed (append_bid b s).active_auction (append_bid b s).bids
unfolding append_bid
append_bid-IsLed b s h = elim (Option-cases s.active_auction) [
  | inl e ↦ rw (e, append_bid) h
  | inr (a, e) ↦ elim (Bool-cases (a.noun_id == b.noun_id)) [
    | inl same ↦ elim (Bool-cases (contains_bid s.bids b)) [
      | inl known ↦ rw (e, append_bid) (rw (same, known) h)
      | inr new ↦
          rw (e, append_bid)
            (rw (same, new)
              ((max_bid-ge b s.bids, max_bid-AllBelow b s.bids), max_bid-has_bid b s.bids))
    ]
    | inr other ↦ rw (e, append_bid) (rw other h)
  ]
]

top_value : List BidEvent → ℕ
top_value [] = 0
top_value (b ∷ bids) = max b.value (top_value bids)

max_bid-top_value :
    (prev : BidEvent) (bids : List BidEvent)
    → (max_bid prev bids).value ≡ max prev.value (top_value bids)
unfolding max_bid top_value
max_bid-top_value prev [] = omega arith
max_bid-top_value prev (b ∷ bids) =
    ground (arith, max_bid-top_value prev bids, max_bid-top_value b bids)

abbrev pub amount_of : Option Auction → ℕ
amount_of none = 0
amount_of (some a) = a.amount

-- The state after a bid that is taken.
taken : BidEvent → Auction → List BidEvent → AuctionState
taken b a bids =
    let top = max_bid b bids in
    record {
      active_auction = some (record a { amount = top.value; bidder = top.sender });
      bids = b ∷ bids;
    }

append_bid-taken :
    (b : BidEvent) (s : AuctionState) (a : Auction)
    → s.active_auction ≡ some a
    → a.noun_id ≡ b.noun_id
    → contains_bid s.bids b ≡ false
    → append_bid b s ≡ taken b a s.bids
unfolding append_bid taken
append_bid-taken b s a e same new =
    let same' = (==_iff a.noun_id b.noun_id).1 same in rw (e, append_bid) (rw (same', new) refl)

amount_of_two :
    (b c : BidEvent) (s : AuctionState) (a : Auction)
    → s.active_auction ≡ some a
    → a.noun_id ≡ b.noun_id
    → a.noun_id ≡ c.noun_id
    → contains_bid s.bids b ≡ false
    → contains_bid s.bids c ≡ false
    → text_eq c.transaction_hash b.transaction_hash ≡ false
    → amount_of (append_bid b (append_bid c s)).active_auction
      ≡ max b.value (max c.value (top_value s.bids))
unfolding taken top_value contains_bid
amount_of_two b c s a e hb hc nb nc cb =
    let top = max_bid c s.bids in
    ap (λ t. amount_of (append_bid b t).active_auction) (append_bid-taken c s a e hc nc)
    ∙ ap (λ (t : AuctionState). amount_of t.active_auction)
        (append_bid-taken b (taken c a s.bids)
          (record a { amount = top.value; bidder = top.sender }) refl hb (rw (cb, nb) refl))
    ∙ max_bid-top_value b (c ∷ s.bids)

-- Two different bids on the current auction, neither of them known yet, lead to the same amount in
-- either order.
pub append_bid_swap :
    (b c : BidEvent) (s : AuctionState) (a : Auction)
    → s.active_auction ≡ some a
    → a.noun_id ≡ b.noun_id
    → a.noun_id ≡ c.noun_id
    → contains_bid s.bids b ≡ false
    → contains_bid s.bids c ≡ false
    → text_eq b.transaction_hash c.transaction_hash ≡ false
    → text_eq c.transaction_hash b.transaction_hash ≡ false
    → amount_of (append_bid b (append_bid c s)).active_auction
      ≡ amount_of (append_bid c (append_bid b s)).active_auction
append_bid_swap b c s a e hb hc nb nc bc cb =
    amount_of_two b c s a e hb hc nb nc cb
    ∙ omega arith
    ∙ sym (amount_of_two c b s a e hc hb nc nb bc)
