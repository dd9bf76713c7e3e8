-- ===== src/Webapp/Voting.antt =====
-- packages/nouns-webapp/src/components/VoteModal and pages/Vote: casting a vote, and what the page
-- shows of a proposal's votes and dates.
pub mod Once
pub mod Page
pub mod Shown
use nouns_monorepo.Prelude.{
  ℕ, Bool, true, false, not, ◌&&◌, ◌||◌, List, [], ◌∷◌, ◌++◌, if◌then◌else◌, ◌==◌, Option, none,
  some,
}
use nouns_monorepo.Sdk.Text.{Text, codes, is_space}
use nouns_monorepo.Webapp.Slices.Transactions.{
  TransactionStatus, none_yet, mining, success, fail, exception, or_text, try_again,
}

-- The enum Vote of wrappers/nounsDao.ts
pub data Vote : Type 0 where
  against : Vote
  for : Vote
  abstain : Vote

pub record VoteModal : Type 0 where
  pub vote : Option Vote
  pub vote_reason : Text
  pub is_loading : Bool
  pub is_vote_successful : Bool
  pub is_vote_failed : Bool
  pub failure_copy : Text
  pub error_text : Text

-- The calls of the contract
pub data Cast : Type 0 where
  cast_vote : Vote → Cast
  cast_vote_with_reason : Vote → Text → Cast

-- Whether a text begins with another, and whether it contains it
unfoldable pub begins_with : Text → Text → Bool
begins_with [] t = true
begins_with (c ∷ p) [] = false
begins_with (c ∷ p) (d ∷ t) = c == d && begins_with p t

unfoldable pub contains : Text → Text → Bool
unfolding begins_with
contains p [] = begins_with p []
contains p (c ∷ t) = begins_with p (c ∷ t) || contains p t

unfoldable pub get_vote_error_message : Option Text → Option Text
unfolding contains
get_vote_error_message none = none
get_vote_error_message (some error) =
    some
      (if contains (codes "voter already voted") error then codes "User Already Voted" else error)

unfoldable pub handle_vote_state_change : TransactionStatus → VoteModal → VoteModal
unfolding get_vote_error_message
handle_vote_state_change state m = elim (state.status) [
  | none_yet ↦ record m { is_loading = false }
  | mining ↦ record m { is_loading = true }
  | success ↦ record m { is_loading = false; is_vote_successful = true }
  | fail ↦ record m {
    failure_copy = codes "Transaction Failed";
    error_text = or_text state.error_message try_again;
    is_loading = false;
    is_vote_failed = true;
  }
  | exception ↦ record m {
    failure_copy = codes "Error";
    error_text = or_text (get_vote_error_message state.error_message) try_again;
    is_loading = false;
    is_vote_failed = true;
  }
]

-- `text.trim() === ''`
unfoldable pub is_blank : Text → Bool
unfolding is_space
is_blank [] = true
is_blank (c ∷ t) = is_space c && is_blank t

-- The handler of the button
unfoldable pub submit : VoteModal → VoteModal × List Cast
unfolding is_blank
submit m = elim (m.vote) [
  | none ↦ (m, [])
  | some v ↦ if m.is_loading then (m, []) else (
    record m { is_loading = true },
    (if is_blank m.vote_reason then cast_vote v else cast_vote_with_reason v m.vote_reason) ∷ [],
  )
]

unfoldable pub reset_non_success_state : VoteModal → VoteModal
reset_non_success_state m = record m {
  is_loading = false;
  is_vote_failed = false;
  error_text = [];
  failure_copy = [];
}

-- The buttons are there until a vote has succeeded or failed.
abbrev pub has_buttons : VoteModal → Bool
has_buttons m = not m.is_vote_failed && not m.is_vote_successful

pub data Event : Type 0 where
  chosen : Vote → Event
  typed : Text → Event
  submitted : Event
  changed : TransactionStatus → Event
  dismissed : Event
  hidden : Event

unfoldable pub step : Event → VoteModal → VoteModal × List Cast
unfolding submit handle_vote_state_change reset_non_success_state
step (chosen v) m = (if has_buttons m then record m { vote = some v } else m, [])
step (typed t) m = (if has_buttons m then record m { vote_reason = t } else m, [])
step submitted m = if has_buttons m then submit m else (m, [])
step (changed state) m = (handle_vote_state_change state m, [])
step dismissed m = (reset_non_success_state m, [])
step hidden m = (record m { is_vote_failed = false }, [])

unfoldable pub run : List Event → VoteModal → List Cast
unfolding step
run [] m = []
run (e ∷ events) m = let (m1, casts) = step e m in casts ++ run events m1
