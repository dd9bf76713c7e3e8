-- ===== src/Webapp/Slices/Transactions.antt =====
-- How pages and components follow a transaction: pages/Vote, pages/CreateProposal and the two effects
-- of components/Bid. A translated text is its English original.
use nouns_monorepo.Prelude.{
  ◌≡◌, refl, arith, Bool, true, false, not, [], ◌∷◌, if◌then◌else◌, Option, none, some,
}
use nouns_monorepo.Sdk.Text.{Text, codes}

-- The status of a transaction, a type of the contract hooks
pub data Status : Type 0 where
  none_yet : Status
  mining : Status
  success : Status
  fail : Status
  exception : Status

pub record TransactionStatus : Type 0 where
  pub status : Status
  pub error_message : Option Text

-- What is set: whether the transaction is pending, and the alert, a title and a message
pub record Follow : Type 0 where
  pub pending : Bool
  pub alert : Option (Text × Text)

-- `message || other`: an empty text counts as none.
abbrev pub or_text : Option Text → Text → Text
or_text none other = other
or_text (some []) other = other
or_text (some (c ∷ t)) other = c ∷ t

abbrev pub try_again : Text
try_again = codes "Please try again."

abbrev pub told : Option (Option Text → Option Text) → Option Text → Option Text
told none error = none
told (some get_error_message) error = get_error_message error

-- pages/Vote
unfoldable pub on_transaction_state_change :
    TransactionStatus → Option Text → Option (Option Text → Option Text) → Follow → Follow
on_transaction_state_change tx success_message get_error_message s = elim (tx.status) [
  | none_yet ↦ record s { pending = false }
  | mining ↦ record s { pending = true }
  | success ↦ record {
    pending = false;
    alert = some (codes "Success", or_text success_message (codes "Transaction Successful!"));
  }
  | fail ↦ record {
    pending = false;
    alert = some (codes "Transaction Failed", or_text tx.error_message try_again);
  }
  | exception ↦ record {
    pending = false;
    alert = some (codes "Error", or_text (told get_error_message tx.error_message) try_again);
  }
]

unfoldable pub follow_queue : TransactionStatus → Follow → Follow
unfolding on_transaction_state_change
follow_queue tx s = on_transaction_state_change tx (some (codes "Proposal Queued!")) none s

unfoldable pub follow_execute : TransactionStatus → Follow → Follow
unfolding on_transaction_state_change
follow_execute tx s = on_transaction_state_change tx (some (codes "Proposal Executed!")) none s

-- pages/CreateProposal
unfoldable pub follow_propose : TransactionStatus → Follow → Follow
follow_propose tx s = elim (tx.status) [
  | none_yet ↦ record s { pending = false }
  | mining ↦ record s { pending = true }
  | success ↦ record { pending = false; alert = some (codes "Success", codes "Proposal Created!") }
  | fail ↦ record {
    pending = false;
    alert = some (codes "Transaction Failed", or_text tx.error_message try_again);
  }
  | exception ↦ record {
    pending = false;
    alert = some (codes "Error", or_text tx.error_message try_again);
  }
]

-- The button of components/Bid: whether it shows that it loads, and its text
pub record BidButton : Type 0 where
  pub loading : Bool
  pub content : Text

pub record BidFollow : Type 0 where
  pub button : BidButton
  pub bid_alert : Option (Text × Text)

abbrev pub show_button : Text → BidFollow → BidFollow
show_button content s = record s { button = record { loading = false; content = content } }

-- While the auction runs
unfoldable pub follow_bid : Bool → TransactionStatus → BidFollow → BidFollow
follow_bid auction_ended tx s = if auction_ended then s else elim (tx.status) [
  | none_yet ↦ show_button (codes "Place bid") s
  | mining ↦ record s { button = record { loading = true; content = [] } }
  | success ↦ s
  | fail ↦ record {
    button = record { loading = false; content = codes "Bid" };
    bid_alert = some (codes "Transaction Failed", or_text tx.error_message try_again);
  }
  | exception ↦ record {
    button = record { loading = false; content = codes "Bid" };
    bid_alert = some (codes "Error", or_text tx.error_message try_again);
  }
]

-- Once it has ended
unfoldable pub follow_settle : Bool → TransactionStatus → BidFollow → BidFollow
follow_settle auction_ended tx s = if not auction_ended then s else elim (tx.status) [
  | none_yet ↦ show_button (codes "Settle Auction") s
  | mining ↦ record s { button = record { loading = true; content = [] } }
  | success ↦ record {
    button = record { loading = false; content = codes "Settle Auction" };
    bid_alert = some (codes "Success", codes "Settled auction successfully!");
  }
  | fail ↦ record {
    button = record { loading = false; content = codes "Settle Auction" };
    bid_alert = some (codes "Transaction Failed", or_text tx.error_message try_again);
  }
  | exception ↦ record {
    button = record { loading = false; content = codes "Settle Auction" };
    bid_alert = some (codes "Error", or_text tx.error_message try_again);
  }
]

abbrev pub is_mining : TransactionStatus → Bool
is_mining tx = elim (tx.status) [
  | none_yet ↦ false
  | mining ↦ true
  | success ↦ false
  | fail ↦ false
  | exception ↦ false
]

-- Both pages show that they wait exactly while the transaction is being mined.
pub pending-is_mining :
    (tx : TransactionStatus) (s : Follow)
    → ((follow_queue tx s).pending ≡ is_mining tx)
      × ((follow_execute tx s).pending ≡ is_mining tx)
      × ((follow_propose tx s).pending ≡ is_mining tx)
unfolding follow_queue follow_execute follow_propose
pending-is_mining tx s = ground arith

-- On an exception pages/Vote never shows the message, and pages/CreateProposal does.
pub alert-exception :
    (tx : TransactionStatus) (s : Follow)
    → tx.status ≡ exception
    → ((follow_queue tx s).alert ≡ some (codes "Error", try_again))
      × ((follow_propose tx s).alert ≡ some (codes "Error", or_text tx.error_message try_again))
unfolding follow_queue follow_propose
alert-exception tx s h = rw h (refl, refl)
