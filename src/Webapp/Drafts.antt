-- ===== src/Webapp/Drafts.antt =====
-- packages/nouns-webapp/src/pages/CreateProposal and components/CreateProposalButton: the draft of a
-- proposal, and whether it can be proposed.
pub mod Form
pub mod Checked
use nouns_monorepo.Prelude.{
  ℕ, zero, suc, Bool, true, false, not, ◌&&◌, ◌||◌, List, [], ◌∷◌, ◌++◌, map, if◌then◌else◌, ltb,
  ◌==◌, Option, none, some, length,
}
use nouns_monorepo.Sdk.Text.{Text, codes, text_eq}
use nouns_monorepo.Webapp.Proposals.{
  Proposal, ProposalState, undetermined, pending, active, canceled, defeated, succeeded, queued,
  expired, executed, vetoed,
}
use nouns_monorepo.Webapp.Titles.Entered.{description_text}

pub record ProposalTransaction : Type 0 where
  pub address : Text
  pub value : Text
  pub signature : Text
  pub calldata : Text

pub record Draft : Type 0 where
  pub proposal_transactions : List ProposalTransaction
  pub title_value : Text
  pub body_value : Text
  pub show_transaction_form : Bool

-- `text.startsWith('0x')`
unfoldable pub starts_with_0x : Text → Bool
starts_with_0x (z ∷ x ∷ t) = z == b'0' && x == b'x'
starts_with_0x _ = false

unfoldable pub with_0x : Text → Text
unfolding starts_with_0x
with_0x t = if starts_with_0x t then t else b'0' ∷ b'x' ∷ t

unfoldable pub handle_add_proposal_action : ProposalTransaction → Draft → Draft
unfolding with_0x
handle_add_proposal_action tx d = record d {
  proposal_transactions =
      d.proposal_transactions
      ++ record tx { address = with_0x tx.address; calldata = with_0x tx.calldata } ∷ [];
  show_transaction_form = false;
}

-- `list.filter((_, i) => i !== index)`
unfoldable pub without_index : ℕ → List ProposalTransaction → List ProposalTransaction
without_index i [] = []
without_index zero (tx ∷ txs) = txs
without_index (suc i) (tx ∷ txs) = tx ∷ without_index i txs

unfoldable pub handle_remove_proposal_action : ℕ → Draft → Draft
unfolding without_index
handle_remove_proposal_action index d = record d {
  proposal_transactions = without_index index d.proposal_transactions;
}

unfoldable pub handle_title_input : Text → Draft → Draft
handle_title_input title d = record d { title_value = title }

unfoldable pub handle_body_input : Text → Draft → Draft
handle_body_input body d = record d { body_value = body }

unfoldable pub is_form_invalid : Draft → Bool
unfolding text_eq
is_form_invalid d =
    length d.proposal_transactions == 0 || (text_eq d.title_value [] || text_eq d.body_value [])

-- No votes, or none known, are never enough.
unfoldable pub has_enough_vote : Option ℕ → Option ℕ → Bool
has_enough_vote none threshold = false
has_enough_vote (some votes) none = false
has_enough_vote (some votes) (some threshold) = not (votes == 0) && ltb threshold votes

-- The arguments of the contract's function `propose`
pub record Propose : Type 0 where
  pub targets : List Text
  pub values : List Text
  pub signatures : List Text
  pub calldatas : List Text
  pub description : Text

unfoldable pub propose_call : Draft → Propose
unfolding description_text
propose_call d = record {
  targets = map (λ tx. tx.address) d.proposal_transactions;
  values = map (λ tx. tx.value) d.proposal_transactions;
  signatures = map (λ tx. tx.signature) d.proposal_transactions;
  calldatas = map (λ tx. tx.calldata) d.proposal_transactions;
  description = description_text d.title_value d.body_value;
}

unfoldable pub handle_create_proposal : Draft → Option Propose
unfolding propose_call
handle_create_proposal d =
    if length d.proposal_transactions == 0 then none else some (propose_call d)

abbrev pub is_open : ProposalState → Bool
is_open active = true
is_open pending = true
is_open _ = false

abbrev pub same_account : Option Text → Option Text → Bool
same_account none none = true
same_account none (some a) = false
same_account (some a) none = false
same_account (some a) (some b) = text_eq a b

unfoldable pub has_active_or_pending_proposal : Option Proposal → Option Text → Bool
unfolding text_eq
has_active_or_pending_proposal none account = false
has_active_or_pending_proposal (some p) account =
    is_open p.status && same_account p.proposer account

-- The texts of the button
pub data ButtonText : Type 0 where
  already_open : ButtonText
  must_have : ℕ → ButtonText
  not_enough : ButtonText
  create : ButtonText

-- `proposalThreshold || 0 + 1` is the threshold where it is not 0.
unfoldable pub button_text : Option ℕ → Bool → Bool → ButtonText
button_text threshold has_open has_enough =
    if has_open
    then already_open
    else if not has_enough
    then elim threshold [ none ↦ not_enough | some n ↦ if n == 0 then not_enough else must_have n ]
    else create

unfoldable pub is_button_disabled : Bool → Bool → Bool → Bool
is_button_disabled is_invalid has_open has_enough = is_invalid || (has_open || not has_enough)
