-- ===== src/Webapp/Drafts/Checked.antt =====
-- What reaches the contract from pages/CreateProposal, and what its button says.
use nouns_monorepo.Prelude.{
  ℕ, zero, suc, ◌<◌, ◌≡◌, refl, arith, ap, sym, ◌∙◌, Bool, true, false, ◌&&◌, List, [], ◌∷◌, ◌++◌,
  map, ◌==◌, Option, none, some, length, length-map, Bool-cases, inl, inr,
}
use mathlib.Core.Path.{subst}
use nouns_monorepo.Sdk.Text.{Text}
use nouns_monorepo.Webapp.Drafts.{
  ProposalTransaction, Draft, starts_with_0x, with_0x, handle_add_proposal_action, without_index,
  handle_remove_proposal_action, handle_title_input, handle_body_input, has_enough_vote, Propose,
  propose_call, handle_create_proposal, must_have, button_text,
}

-- What the page's controls do
pub data Action : Type 0 where
  added : ProposalTransaction → Action
  removed : ℕ → Action
  titled : Text → Action
  described : Text → Action

unfoldable pub act : Action → Draft → Draft
unfolding handle_add_proposal_action handle_remove_proposal_action handle_title_input
    handle_body_input
act (added tx) d = handle_add_proposal_action tx d
act (removed i) d = handle_remove_proposal_action i d
act (titled t) d = handle_title_input t d
act (described t) d = handle_body_input t d

unfoldable pub act_all : List Action → Draft → Draft
unfolding act
act_all [] d = d
act_all (a ∷ actions) d = act_all actions (act a d)

abbrev pub empty_draft : Draft
empty_draft = record {
  proposal_transactions = [];
  title_value = [];
  body_value = [];
  show_transaction_form = false;
}

abbrev all_prefixed : List Text → Bool
all_prefixed [] = true
all_prefixed (t ∷ ts) = starts_with_0x t && all_prefixed ts

-- One entry for each transaction, and there is one; the addresses and the call data begin with `0x`.
pub IsCallable : Propose → Type 0
IsCallable p =
    (0 < length p.targets)
    × (length p.values ≡ length p.targets)
    × (length p.signatures ≡ length p.targets)
    × (length p.calldatas ≡ length p.targets)
    × (all_prefixed p.targets ≡ true)
    × (all_prefixed p.calldatas ≡ true)

abbrev is_prefixed : List ProposalTransaction → Bool
is_prefixed [] = true
is_prefixed (tx ∷ txs) =
    starts_with_0x tx.address && (starts_with_0x tx.calldata && is_prefixed txs)

starts_with_0x-with_0x : (t : Text) → starts_with_0x (with_0x t) ≡ true
unfolding with_0x starts_with_0x
starts_with_0x-with_0x t = elim (Bool-cases (starts_with_0x t)) [
  | inl h ↦ rw (h, h) refl
  | inr h ↦ rw h refl
]

is_prefixed-append :
    (txs more : List ProposalTransaction)
    → is_prefixed (txs ++ more) ≡ (is_prefixed txs && is_prefixed more)
is_prefixed-append [] more = refl
is_prefixed-append (tx ∷ txs) more = ground (arith, is_prefixed-append txs more)

is_prefixed-without_index :
    (i : ℕ) (txs : List ProposalTransaction)
    → is_prefixed txs ≡ true
    → is_prefixed (without_index i txs) ≡ true
unfolding without_index
is_prefixed-without_index i [] h = refl
is_prefixed-without_index zero (tx ∷ txs) h = ground (arith, h)
is_prefixed-without_index (suc i) (tx ∷ txs) h = ground (arith, h, is_prefixed-without_index i txs)

is_prefixed-act :
    (a : Action) (d : Draft)
    → is_prefixed d.proposal_transactions ≡ true
    → is_prefixed (act a d).proposal_transactions ≡ true
unfolding act handle_add_proposal_action handle_remove_proposal_action handle_title_input
    handle_body_input
is_prefixed-act (added tx) d h =
    let new : ProposalTransaction = record tx {
      address = with_0x tx.address;
      calldata = with_0x tx.calldata;
    } in
    rw
      (
        is_prefixed-append d.proposal_transactions (new ∷ []),
        h,
        starts_with_0x-with_0x tx.address,
        starts_with_0x-with_0x tx.calldata,
      )
      refl
is_prefixed-act (removed i) d h = is_prefixed-without_index i d.proposal_transactions h
is_prefixed-act (titled t) d h = h
is_prefixed-act (described t) d h = h

is_prefixed-act_all :
    (actions : List Action) (d : Draft)
    → is_prefixed d.proposal_transactions ≡ true
    → is_prefixed (act_all actions d).proposal_transactions ≡ true
unfolding act_all
is_prefixed-act_all [] d h = h
is_prefixed-act_all (a ∷ actions) d h =
    is_prefixed-act_all actions (act a d) (is_prefixed-act a d h)

all_prefixed-address :
    (txs : List ProposalTransaction)
    → is_prefixed txs ≡ true
    → all_prefixed (map (λ tx. tx.address) txs) ≡ true
all_prefixed-address [] h = refl
all_prefixed-address (tx ∷ txs) h = ground (arith, h, all_prefixed-address txs)

all_prefixed-calldata :
    (txs : List ProposalTransaction)
    → is_prefixed txs ≡ true
    → all_prefixed (map (λ tx. tx.calldata) txs) ≡ true
all_prefixed-calldata [] h = refl
all_prefixed-calldata (tx ∷ txs) h = ground (arith, h, all_prefixed-calldata txs)

abbrev propose_or : Propose → Option Propose → Propose
propose_or p none = p
propose_or p (some q) = q

propose_call-IsCallable :
    (d : Draft)
    → is_prefixed d.proposal_transactions ≡ true
    → (length d.proposal_transactions == 0) ≡ false
    → IsCallable (propose_call d)
unfolding propose_call IsCallable
propose_call-IsCallable d h n =
    let txs : List ProposalTransaction = d.proposal_transactions in
    let targets : length (map (λ tx. tx.address) txs) ≡ length txs =
      length-map txs (λ tx. tx.address) in
    (
      ground (arith, targets, n),
      length-map txs (λ tx. tx.value) ∙ sym targets,
      length-map txs (λ tx. tx.signature) ∙ sym targets,
      length-map txs (λ tx. tx.calldata) ∙ sym targets,
      all_prefixed-address txs h,
      all_prefixed-calldata txs h,
    )

handle_create_proposal-some :
    (d : Draft)
    → (length d.proposal_transactions == 0) ≡ false
    → handle_create_proposal d ≡ some (propose_call d)
unfolding handle_create_proposal
handle_create_proposal-some d n = rw n refl

handle_create_proposal-none :
    (d : Draft) → (length d.proposal_transactions == 0) ≡ true → handle_create_proposal d ≡ none
unfolding handle_create_proposal
handle_create_proposal-none d n = rw n refl

-- Whatever has been done on the page: if a proposal is sent, its four lists have one length, which
-- is not 0, and its targets and call data begin with `0x`.
pub handle_create_proposal-IsCallable :
    (actions : List Action) (p : Propose)
    → handle_create_proposal (act_all actions empty_draft) ≡ some p
    → IsCallable p
handle_create_proposal-IsCallable actions p e =
    let d : Draft = act_all actions empty_draft in
    elim (Bool-cases (length d.proposal_transactions == 0)) [
      | inl z ↦ absurd (ground (arith, sym (handle_create_proposal-none d z) ∙ e))
      | inr n ↦
          subst IsCallable (ap (propose_or p) (sym (handle_create_proposal-some d n) ∙ e))
            (propose_call-IsCallable d (is_prefixed-act_all actions empty_draft refl) n)
    ]

-- The number of votes that the button says one must have is not enough.
pub button_text-must_have :
    (threshold : Option ℕ) (has_open has_enough : Bool) (n : ℕ)
    → button_text threshold has_open has_enough ≡ must_have n
    → has_enough_vote (some n) threshold ≡ false
unfolding button_text has_enough_vote
button_text-must_have threshold has_open has_enough n h = ground (arith, h)
