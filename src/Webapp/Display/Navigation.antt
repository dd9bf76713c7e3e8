-- ===== src/Webapp/Display/Navigation.antt =====
-- Moving between auctions, and what is shown of the one that is chosen.
use nouns_monorepo.Prelude.{
  ℕ, ◌+◌, ◌-◌, ◌≤◌, ◌≡◌, ◌≢◌, refl, Bool, true, false, ◌||◌, List, [], ◌∷◌, if◌then◌else◌, ◌==◌,
  arith, ap, sym, ◌∙◌, Option, none, some, Option-cases, Bool-cases, inl, inr, ==_iff,
}
use nouns_monorepo.Sdk.Text.{text_eq}
use nouns_monorepo.Webapp.Events.{BidEvent, Auction}
use nouns_monorepo.Webapp.Auction.{AuctionState, contains_bid}
use nouns_monorepo.Webapp.Display.{
  OnDisplay, set_prev_on_display_auction_noun_id, set_next_on_display_auction_noun_id, has_noun_id,
  find_past, active_of, is_nounder_noun, generate_empty_nounder_auction, deserialize_auction,
  on_display_auction, insert_bid, deserialize_bids,
}

-- The noun on display is not beyond the last one.
abbrev pub IsWithin : OnDisplay → Type 0
IsWithin s = elim (s.on_display_auction_noun_id) [
  | none ↦ Unit
  | some n ↦ elim (s.last_auction_noun_id) [ none ↦ Unit | some m ↦ n ≤ m ]
]

abbrev pub showing : Option ℕ → ℕ → OnDisplay
showing last n = record { last_auction_noun_id = last; on_display_auction_noun_id = some n }

-- Neither step leaves the nouns that there are.
pub step-IsWithin :
    (last n : ℕ)
    → n ≤ last
    → IsWithin (set_next_on_display_auction_noun_id (showing (some last) n))
      × IsWithin (set_prev_on_display_auction_noun_id (showing (some last) n))
unfolding set_next_on_display_auction_noun_id set_prev_on_display_auction_noun_id
step-IsWithin last n le = ground arith

back_to : (n : ℕ) → (if n + 1 == 0 then n + 1 else n + 1 - 1) ≡ n
back_to n = ground arith

-- One step forward and one back lead to where one was, from any noun that is not the last one.
pub prev_next :
    (last : Option ℕ) (n : ℕ)
    → last ≢ some n
    → set_prev_on_display_auction_noun_id (set_next_on_display_auction_noun_id (showing last n))
      ≡ showing last n
unfolding set_next_on_display_auction_noun_id set_prev_on_display_auction_noun_id
prev_next none n other = ground arith
prev_next (some m) n other = elim (Bool-cases (m == n)) [
  | inl e ↦ absurd (other (ap some ((==_iff m n).0 e)))
  | inr e ↦ rw e (ground arith)
]

find_past-has_noun_id :
    (n : ℕ) (past : List AuctionState) (s : AuctionState)
    → find_past n past ≡ some s
    → has_noun_id n s.active_auction ≡ true
unfolding find_past
find_past-has_noun_id n [] s e = ground arith
find_past-has_noun_id n (t ∷ past) s e = ground (arith, find_past-has_noun_id n past s)

generate_empty_nounder_auction-noun_id :
    (n : ℕ) (past : List AuctionState) → (generate_empty_nounder_auction n past).noun_id ≡ n
unfolding generate_empty_nounder_auction
generate_empty_nounder_auction-noun_id n past =
    elim (Option-cases (active_of (find_past (n + 1) past))) [
      | inl e ↦ rw (e, generate_empty_nounder_auction) refl
      | inr (a, e) ↦ rw (e, generate_empty_nounder_auction) refl
    ]

has_noun_id-noun_id :
    (n : ℕ) (o : Option Auction) (a : Auction) → has_noun_id n o ≡ true → o ≡ some a → a.noun_id ≡ n
has_noun_id-noun_id n none a h e = ground arith
has_noun_id-noun_id n (some x) a h e = ground arith

past-noun_id :
    (n : ℕ) (past : List AuctionState) (a : Auction)
    → active_of (find_past n past) ≡ some a
    → a.noun_id ≡ n
past-noun_id n past a e = elim (Option-cases (find_past n past)) [
  | inl f ↦ let none_found : none ≡ some a = sym (ap active_of f) ∙ e in ground arith
  | inr (s, f) ↦
      has_noun_id-noun_id n s.active_auction a (find_past-has_noun_id n past s f)
        (sym (ap active_of f) ∙ e)
]

noun_id_of : Option Auction → ℕ
noun_id_of none = 0
noun_id_of (some a) = a.noun_id

module _ (n : ℕ) (a : Auction) where
  found-noun_id :
      (o : Option Auction)
      → ((x : Auction) → o ≡ some x → x.noun_id ≡ n)
      → (elim o [ none ↦ none | some x ↦ some (deserialize_auction x) ]) ≡ some a
      → a.noun_id ≡ n
  unfolding noun_id_of
  found-noun_id none h e = ground arith
  found-noun_id (some x) h e = sym (ap noun_id_of e) ∙ h x refl

  -- The three branches, by their tests.
  shown-noun_id :
      (now founder : Bool) (x y : Auction) (o : Option Auction)
      → (now ≡ true → x.noun_id ≡ n)
      → y.noun_id ≡ n
      → ((z : Auction) → o ≡ some z → z.noun_id ≡ n)
      → (if now
          then some (deserialize_auction x)
          else if founder
          then some (deserialize_auction y)
          else elim o [ none ↦ none | some z ↦ some (deserialize_auction z) ])
        ≡ some a
      → a.noun_id ≡ n
  unfolding noun_id_of
  shown-noun_id true founder x y o hx hy ho e = sym (ap noun_id_of e) ∙ hx refl
  shown-noun_id false true x y o hx hy ho e = sym (ap noun_id_of e) ∙ hy
  shown-noun_id false false x y o hx hy ho e = found-noun_id o ho e

-- What is shown, if anything, is an auction of the noun that was asked for.
pub on_display_auction-noun_id :
    (n : ℕ) (current : Option Auction) (past : List AuctionState) (a : Auction)
    → on_display_auction (some n) current past ≡ some a
    → a.noun_id ≡ n
unfolding on_display_auction
on_display_auction-noun_id n none past a e = ground arith
on_display_auction-noun_id n (some c) past a e =
    shown-noun_id n a (n == c.noun_id) (is_nounder_noun n) c (generate_empty_nounder_auction n past)
      (active_of (find_past n past)) (λ same. sym ((==_iff n c.noun_id).0 same))
      (generate_empty_nounder_auction-noun_id n past) (past-noun_id n past) e

abbrev pub IsLatestFirst : List BidEvent → Type 0
IsLatestFirst [] = Unit
IsLatestFirst (b ∷ []) = Unit
IsLatestFirst (b ∷ c ∷ bids) = (c.timestamp ≤ b.timestamp) × IsLatestFirst (c ∷ bids)

insert_bid-IsLatestFirst :
    (b : BidEvent) (bids : List BidEvent) → IsLatestFirst bids → IsLatestFirst (insert_bid b bids)
unfolding insert_bid
insert_bid-IsLatestFirst b [] h = tt
insert_bid-IsLatestFirst b (c ∷ []) h = ground arith
insert_bid-IsLatestFirst b (c ∷ d ∷ bids) (cd, h) =
    ground (arith, insert_bid-IsLatestFirst b (d ∷ bids) h)

insert_bid-contains_bid :
    (b : BidEvent) (bids : List BidEvent) (x : BidEvent)
    → contains_bid (insert_bid b bids) x ≡ contains_bid (b ∷ bids) x
unfolding insert_bid contains_bid
insert_bid-contains_bid b [] x = refl
insert_bid-contains_bid b (c ∷ bids) x = ground (arith, insert_bid-contains_bid b bids x)

deserialize_bids-IsLatestFirst : (bids : List BidEvent) → IsLatestFirst (deserialize_bids bids)
unfolding deserialize_bids
deserialize_bids-IsLatestFirst [] = tt
deserialize_bids-IsLatestFirst (b ∷ bids) =
    insert_bid-IsLatestFirst b (deserialize_bids bids) (deserialize_bids-IsLatestFirst bids)

deserialize_bids-contains_bid :
    (bids : List BidEvent) (x : BidEvent)
    → contains_bid (deserialize_bids bids) x ≡ contains_bid bids x
unfolding deserialize_bids contains_bid
deserialize_bids-contains_bid [] x = refl
deserialize_bids-contains_bid (b ∷ bids) x =
    insert_bid-contains_bid b (deserialize_bids bids) x
    ∙ ap (λ t. text_eq b.transaction_hash x.transaction_hash || t)
        (deserialize_bids-contains_bid bids x)

-- The bids are shown with the latest one first, and they are the same bids.
pub deserialize_bids_lem :
    (bids : List BidEvent)
    → IsLatestFirst (deserialize_bids bids)
      × ((x : BidEvent) → contains_bid (deserialize_bids bids) x ≡ contains_bid bids x)
deserialize_bids_lem bids =
    (deserialize_bids-IsLatestFirst bids, deserialize_bids-contains_bid bids)
