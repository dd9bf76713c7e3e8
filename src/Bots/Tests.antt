-- ===== src/Bots/Tests.antt =====
-- The theorems about the bots at a concrete auction and proposal.
use nouns_monorepo.Prelude.{◌≡◌, refl, List, [], ◌∷◌, none, some}
use nouns_monorepo.Sdk.Text.{codes}
use nouns_monorepo.Bots.Types.{Account, AuctionBids, Proposal, Vote, for, extract_proposal_title}
use nouns_monorepo.Bots.Cache.{get_proposal_cache, find_proposal, update_proposal_cache}
use nouns_monorepo.Bots.Handlers.{Services, Bots, Handler, twitter, discord}
use nouns_monorepo.Bots.Ticks.{
  increment_counter, with_cache, process_auction_tick, process_proposal, warn_of_expiry,
}
use nouns_monorepo.Bots.Repeat.{process_auction_tick-again}
use nouns_monorepo.Bots.Votes.{process_proposal-again}

abbrev services : Services
services = record {
  noun_png_buffer = λ id. some (codes "png");
  message_id = λ sent. codes "77";
  lookup_address = λ a. none;
  format_ether = λ a. a;
}

abbrev handlers : List Handler
handlers = twitter ∷ discord (1 ∷ 2 ∷ []) ∷ []

abbrev alice : Account
alice = record { id = codes "0xa11ce" }

abbrev answer : AuctionBids
answer = record {
  id = 12;
  end_time = 1000;
  bids = record { id = codes "0x1"; amount = codes "5"; bidder = alice } ∷ [];
}

abbrev yes : Vote
yes = record {
  id = codes "1-0xa11ce";
  voter = alice;
  votes = 3;
  support_detailed = for;
  reason = none;
}

abbrev proposal : Proposal
proposal = record {
  id = 4;
  proposer = alice;
  description = codes "# Build\nmore";
  status = codes "QUEUED";
  quorum_votes = 1;
  proposal_threshold = 1;
  start_block = 1;
  end_block = 2;
  execution_eta = 1000;
  votes = yes ∷ [];
}

abbrev before : Proposal
before = record proposal { votes = []; status = codes "ACTIVE" }

abbrev started : Bots
started = record {
  cache = record {
    auction = some 11;
    bid = none;
    reply_tweet_id = none;
    auction_ending_soon = none;
    proposals = (4, before) ∷ [];
    expiry_warning_sent = [];
  };
  sent = [];
  counted = [];
}

process_auction_tick-again_example :
    process_auction_tick services handlers 500000
      (some answer)
      (process_auction_tick services handlers 500000 (some answer) started)
    ≡ increment_counter
        (codes "auction_process_last_auction")
        (process_auction_tick services handlers 500000 (some answer) started)
process_auction_tick-again_example =
    process_auction_tick-again services handlers 500000 answer started

process_proposal-again_example :
    let told = process_proposal services handlers 1100000000 proposal started in
    (process_proposal services handlers 1100000000 proposal told
      ≡ with_cache (update_proposal_cache proposal) told)
    × (process_proposal services handlers 1200000000 proposal told
        ≡ with_cache
            (update_proposal_cache proposal)
            (warn_of_expiry services handlers 1200000000 proposal told))
unfolding get_proposal_cache find_proposal
process_proposal-again_example =
    process_proposal-again services handlers 1100000000 1200000000 proposal before started refl

title : extract_proposal_title proposal ≡ codes "Build"
unfolding extract_proposal_title
title = refl
