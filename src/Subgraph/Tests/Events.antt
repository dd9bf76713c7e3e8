-- ===== src/Subgraph/Tests/Events.antt =====
-- The theorems about the governor's and the auction house's handlers at concrete events.
use text.Mathlib.Text.{◌==◌}
use nouns_monorepo.Prelude.{◌≡◌, refl, if◌then◌else◌}
use nouns_monorepo.Prelude.Int.{pos, ◌+ℤ◌}
use nouns_monorepo.Subgraph.Memory.{memory, empty_store}
use nouns_monorepo.Subgraph.Helpers.{is_none, get_governance, proposal_of, count_proposal}
use nouns_monorepo.Subgraph.Views.{proposal_at}
use nouns_monorepo.Subgraph.Dao.{VoteCast, unescape_lines, handle_proposal_queued}
use nouns_monorepo.Subgraph.Dao.Proposals.{
  handle, was_queued, next_status, next_eta, handle-next_status,
}
use nouns_monorepo.Subgraph.Dao.Queue.{counts, move_counts, handle-move_counts}
use nouns_monorepo.Subgraph.Auctions.{AuctionBid}
use nouns_monorepo.Subgraph.Auctions.Lifecycle.{bid, next_auction, is_some, handle-next_auction}
use nouns_monorepo.Subgraph.Auctions.Lifecycle

abbrev ballot : VoteCast
ballot = record {
  proposal_id = "1";
  voter = "0xa1";
  votes = 3;
  support = 1;
  reason = "";
  transaction_hash = "0xh";
}

handle-next_status_example :
    ((proposal_at (handle (was_queued "1" 50) empty_store) "1").status ≡ (
      if "1" == "1"
      then next_status (was_queued "1" 50) (proposal_at empty_store "1").status
      else (proposal_at empty_store "1").status))
    × ((proposal_at (handle (was_queued "1" 50) empty_store) "1").execution_eta ≡ (
        if "1" == "1"
        then next_eta (was_queued "1" 50) (proposal_at empty_store "1").execution_eta
        else (proposal_at empty_store "1").execution_eta))
handle-next_status_example = handle-next_status (was_queued "1" 50) empty_store "1"

-- The proposal was not stored before, and is not counted.
handle-move_counts_example :
    counts (get_governance (handle (was_queued "1" 50) empty_store))
    ≡ move_counts
        (was_queued "1" 50)
        (is_none (memory.proposals.load empty_store.proposals "1"))
        (counts (get_governance empty_store))
handle-move_counts_example = handle-move_counts (was_queued "1" 50) empty_store

queued_uncounted :
    counts (get_governance (handle_proposal_queued "1" 50 empty_store))
    ≡ record { in_queue = pos 1; known = pos 0 }
unfolding handle_proposal_queued get_governance proposal_of count_proposal ◌+ℤ◌
queued_uncounted = refl

unescape_lines_runs : unescape_lines "a\\nb" ≡ "a\nb"
unfolding unescape_lines
unescape_lines_runs = refl

abbrev first_bid : AuctionBid
first_bid = record {
  noun_id = "7";
  sender = "0xa1";
  value = 10;
  transaction_hash = "0xh";
  transaction_index = 0;
  block_number = 5;
  block_timestamp = 60;
}

handle-next_auction_example :
    memory.auctions.load (Lifecycle.handle (bid first_bid) empty_store).auctions "7" ≡ (
      if "7" == "7"
      then next_auction
          (bid first_bid)
          (is_some (memory.nouns.load empty_store.nouns "7"))
          (memory.auctions.load empty_store.auctions "7")
      else memory.auctions.load empty_store.auctions "7")
handle-next_auction_example = handle-next_auction (bid first_bid) empty_store "7"
