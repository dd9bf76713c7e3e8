-- ===== src/Webapp/PageTests.antt =====
-- The theorems about the web application's pages at concrete drafts, bids and votes.
use nouns_monorepo.Prelude.{
  List, Option, ℕ, ◌%◌, ◌*◌, ◌/◌, ◌≤◌, ◌<◌, ◌≡◌, ◌++◌, refl, false, arith, [], ◌∷◌, none, some,
  length, map, ◌==◌, if◌then◌else◌,
}
use mathlib.Core.List.{Perm}
use nouns_monorepo.Sdk.Text.{Text, codes, is_space}
use nouns_monorepo.Webapp.Events.{BidEvent, Auction, AuctionCreateEvent}
use nouns_monorepo.Webapp.Slices.Transactions.{mining}
use nouns_monorepo.Webapp.Titles.{unescape_lines, title_of}
use nouns_monorepo.Webapp.Titles.Entered.{
  description_text, lacks, is_plain_title, title_of-description_text,
}
use nouns_monorepo.Webapp.Voting.{VoteModal, for, Event, chosen, submitted, changed, run}
use nouns_monorepo.Webapp.Voting.Once.{all_waiting, run_once}
use nouns_monorepo.Webapp.Voting.Page.{NounsVote}
use nouns_monorepo.Webapp.Drafts.{
  ProposalTransaction, starts_with_0x, with_0x, handle_add_proposal_action, Propose, propose_call,
  handle_create_proposal,
}
use nouns_monorepo.Webapp.Drafts.Checked.{
  Action, added, act, act_all, IsCallable, handle_create_proposal-IsCallable,
}
use nouns_monorepo.Webapp.Shuffle.{pseudo_random_predictable_shuffle}
use nouns_monorepo.Webapp.Shuffle.Total.{shuffle-Perm}
use nouns_monorepo.Webapp.Bidding.{
  compute_minimum_next_bid, current_bid, min_bid_eth, place_bid_handler, insufficient,
}
use nouns_monorepo.Webapp.Bidding.Minimum.{IsFair, place_bid_handler-IsFair}
use nouns_monorepo.Webapp.Subscriber.{AppState, created, subscribe}
use nouns_monorepo.Webapp.Subscriber.Steps.{IsInStep, subscribe-IsInStep}
use nouns_monorepo.Webapp.Locales.{initial_locale}
use nouns_monorepo.Webapp.Locales.Supported.{IsSupported, initial_locale-IsSupported}
use nouns_monorepo.Webapp.Timers.{ended_at}
use nouns_monorepo.Webapp.Timers.Ending.{ended_at_lem}

title_of-description_text_example :
    title_of (some (unescape_lines (description_text (codes "More nouns") (codes "Why\\nnot"))))
    ≡ codes "More nouns"
unfolding is_plain_title lacks is_space
title_of-description_text_example =
    title_of-description_text (codes "More nouns") (codes "Why\\nnot") refl

abbrev modal : VoteModal
modal = record {
  vote = none;
  vote_reason = [];
  is_loading = false;
  is_vote_successful = false;
  is_vote_failed = false;
  failure_copy = [];
  error_text = [];
}

abbrev presses : List Event
presses =
    chosen for
    ∷ submitted
    ∷ submitted
    ∷ changed (record { status = mining; error_message = none })
    ∷ submitted
    ∷ []

run_once_example : length (run presses modal) ≤ 1
unfolding all_waiting
run_once_example = run_once presses modal refl

abbrev votes : List NounsVote
votes =
    record { support_detailed = 1; nouns_represented = "4" ∷ "7" ∷ [] }
    ∷ record { support_detailed = 0; nouns_represented = "5" ∷ [] }
    ∷ []

abbrev payment : ProposalTransaction
payment = record { address = codes "ab"; value = codes "1"; signature = []; calldata = codes "0x" }

abbrev actions : List Action
actions = added payment ∷ []

abbrev proposed : Propose
proposed = record {
  targets = codes "0xab" ∷ [];
  values = codes "1" ∷ [];
  signatures = [] ∷ [];
  calldatas = codes "0x" ∷ [];
  description = codes "# " ++ codes "\n\n";
}

handle_create_proposal-IsCallable_example : IsCallable proposed
unfolding handle_create_proposal propose_call act_all act handle_add_proposal_action with_0x
    starts_with_0x description_text
handle_create_proposal-IsCallable_example = handle_create_proposal-IsCallable actions proposed refl

abbrev third_of : ℕ → ℕ
third_of seed = if seed == 1 then 1 else 2

third_of_lt : (seed : ℕ) → third_of seed < 3
third_of_lt seed = ground arith

shuffle-Perm_example :
    (zs : List ℕ) × (pseudo_random_predictable_shuffle third_of 3 (7 ∷ 8 ∷ 9 ∷ []) 0
      ≡ some (map some zs))
    × Perm zs (7 ∷ 8 ∷ 9 ∷ [])
shuffle-Perm_example = shuffle-Perm third_of 3 third_of_lt (7 ∷ 8 ∷ 9 ∷ []) 0

abbrev shown : Auction
shown = record {
  amount = 5;
  bidder = codes "a";
  end_time = 20;
  start_time = 10;
  noun_id = 11;
  settled = false;
}

-- Numbers that print as they are, and whole hundreds only
abbrev whole_ether : Text → ℕ
whole_ether t = length t

abbrev whole_hundreds : ℕ → Option ℕ
whole_hundreds h = if h / 100 * 100 == h then some (h / 100) else none

place_bid_handler-IsFair_example :
    IsFair whole_ether (some shown) (some 20) (codes "12345") (insufficient 1)
unfolding place_bid_handler compute_minimum_next_bid min_bid_eth current_bid
place_bid_handler-IsFair_example =
    place_bid_handler-IsFair whole_ether whole_hundreds (λ wei. 1) (some shown) (some 20)
      (codes "12345") (insufficient 1) refl

abbrev app : AppState
app = record {
  auction = record { active_auction = none; bids = [] };
  on_display = record { last_auction_noun_id = some 11; on_display_auction_noun_id = some 11 };
  noun_path = none;
}

abbrev offer : BidEvent
offer = record {
  noun_id = 11;
  sender = codes "b";
  value = 6;
  extended = false;
  transaction_hash = codes "x";
  timestamp = 15;
}

abbrev next : AuctionCreateEvent
next = record { noun_id = 12; start_time = 20; end_time = 30; settled = false }

subscribe-IsInStep_example : IsInStep (subscribe shown (some offer ∷ []) (created next ∷ []) app)
subscribe-IsInStep_example = subscribe-IsInStep shown (some offer ∷ []) (created next ∷ []) app

-- A timer that is set at an odd moment is 40 ms late.
abbrev late : ℕ → ℕ
late now = if now % 2 == 0 then 0 else 40

late_le : (now : ℕ) → late now ≤ 40
late_le now = ground arith

ended_at_lem_example : (t : ℕ) × (ended_at late 20 20 401 ≡ some t) × (20000 ≤ t) × (t < 21040)
ended_at_lem_example = ended_at_lem late 40 late_le 20 401 (omega arith)

initial_locale-IsSupported_example :
    IsSupported (initial_locale (some (codes "xx")) (some (codes "ja")))
initial_locale-IsSupported_example =
    initial_locale-IsSupported (some (codes "xx")) (some (codes "ja"))
