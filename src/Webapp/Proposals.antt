-- ===== src/Webapp/Proposals.antt =====
-- packages/nouns-webapp/src/wrappers/nounsDao.ts: the proposals that the web application shows, from
-- the governor's answers and its creation logs. The contract's answers are arguments; the decoding of
-- call data and the printing of amounts are parameters.
use nouns_monorepo.Prelude.{
  ℕ, zero, suc, ◌*◌, ◌-◌, Bool, true, false, ◌&&◌, List, [], ◌∷◌, ◌++◌, if◌then◌else◌, ltb, ◌==◌,
  Option, none, some, length, take, get_elem?, map,
}
use nouns_monorepo.Prelude.Int.{ℤ, pos, ◌-ℤ◌}
use nouns_monorepo.Sdk.Text.{Text, codes, text_eq, decimal}
use nouns_monorepo.Sdk.Text.Splits.{split, join}
use nouns_monorepo.Webapp.Titles.{unescape_lines, title_of}

pub data ProposalState : Type 0 where
  undetermined : ProposalState
  pending : ProposalState
  active : ProposalState
  canceled : ProposalState
  defeated : ProposalState
  succeeded : ProposalState
  queued : ProposalState
  expired : ProposalState
  executed : ProposalState
  vetoed : ProposalState

pub record ProposalCallResult : Type 0 where
  pub id : ℕ
  pub abstain_votes : ℕ
  pub against_votes : ℕ
  pub for_votes : ℕ
  pub is_canceled : Bool
  pub is_vetoed : Bool
  pub is_executed : Bool
  pub starts : ℕ
  pub ends : ℕ
  pub earliest : ℕ
  pub threshold : ℕ
  pub caller : Text
  pub quorum : ℕ

pub record ProposalDetail : Type 0 where
  pub target : Text
  pub value : Option Text
  pub function_sig : Text
  pub call_data : Text

-- A number that may be NaN is `none` then.
pub record Proposal : Type 0 where
  pub proposal_id : Option Text
  pub title : Text
  pub description : Text
  pub status : ProposalState
  pub for_count : ℕ
  pub against_count : ℕ
  pub abstain_count : ℕ
  pub created_block : Option ℤ
  pub start_block : Option ℕ
  pub end_block : Option ℕ
  pub eta : Option ℕ
  pub proposer : Option Text
  pub proposal_threshold : ℕ
  pub quorum_votes : ℕ
  pub details : Option (List ProposalDetail)
  pub transaction_hash : Option Text

pub record ProposalData : Type 0 where
  pub proposals : List Proposal
  pub loading : Bool

-- The voting receipt's support; no receipt counts as -1.
unfoldable pub proposal_vote : Option ℕ → Text
proposal_vote none = []
proposal_vote (some support) =
    if support == 0
    then codes "Against"
    else if support == 1
    then codes "For"
    else if support == 2
    then codes "Abstain"
    else []

abbrev numbers_from : ℕ → ℕ → List ℕ
numbers_from i zero = []
numbers_from i (suc n) = i ∷ numbers_from (suc i) n

unfoldable pub count_to_indices : Option ℕ → List ℕ
count_to_indices none = []
count_to_indices (some count) = numbers_from 1 count

-- The event ProposalCreated, parsed; the fields of one transaction are together.
pub record CreatedTransaction : Type 0 where
  pub to : Text
  pub amount : ℕ
  pub signature : Text
  pub calldata : Text

pub record CreatedLog : Type 0 where
  pub text : Text
  pub hash : Text
  pub transactions : List CreatedTransaction

pub record FormattedLog : Type 0 where
  pub log_description : Text
  pub log_hash : Text
  pub log_details : List ProposalDetail

-- `text.substr(0, text.length - 1)`
unfoldable pub drop_last : Text → Text
drop_last t = take (length t - 1) t

module _ (format_ether : ℕ → Text) (decode : List Text → Text → List Text) where
  -- Without a name or without types the call is a transfer, or unknown; an amount is there always.
  unfoldable pub plain_detail : CreatedTransaction → Text → Text → ProposalDetail
  plain_detail tx name types = record {
    target = tx.to;
    value = none;
    function_sig = elim name [ [] ↦ codes "transfer" | c ∷ t ↦ c ∷ t ];
    call_data = elim types [ [] ↦ format_ether tx.amount ++ codes " ETH" | c ∷ t ↦ c ∷ t ];
  }

  unfoldable pub call_detail : CreatedTransaction → Text → Text → ProposalDetail
  unfolding split join
  call_detail tx name types = record {
    target = tx.to;
    function_sig = name;
    call_data = join b',' (decode (split b',' types) tx.calldata);
    value = some (
        if ltb 0 tx.amount
        then codes "{ value: " ++ (format_ether tx.amount ++ codes " ETH }")
        else []);
  }

  -- The pieces of a signature; no second one is an undefined `types`.
  unfoldable pub detail_of_pieces : CreatedTransaction → List Text → ProposalDetail
  unfolding plain_detail call_detail
  detail_of_pieces tx [] = plain_detail tx (codes "unknown") []
  detail_of_pieces tx (name ∷ []) = plain_detail tx name []
  detail_of_pieces tx ([] ∷ types ∷ more) = plain_detail tx [] types
  detail_of_pieces tx ((c ∷ t) ∷ [] ∷ more) = plain_detail tx (c ∷ t) []
  detail_of_pieces tx ((c ∷ t) ∷ (d ∷ u) ∷ more) = call_detail tx (c ∷ t) (d ∷ u)

  unfoldable pub detail_of : CreatedTransaction → ProposalDetail
  unfolding detail_of_pieces drop_last split
  detail_of tx = detail_of_pieces tx (split b'(' (drop_last tx.signature))

  unfoldable pub format_log : CreatedLog → FormattedLog
  unfolding detail_of
  format_log log = record {
    log_description = log.text;
    log_hash = log.hash;
    log_details = map detail_of log.transactions;
  }

abbrev pub number_or_0 : (ProposalCallResult → ℕ) → Option ProposalCallResult → ℕ
number_or_0 field none = 0
number_or_0 field (some p) = field p

abbrev pub field_of {ℓ κ} : {A : Type ℓ} {B : Type κ} → (A → B) → Option A → Option B
field_of field none = none
field_of field (some a) = some (field a)

abbrev pub or_0 : Option ℕ → ℕ
or_0 none = 0
or_0 (some n) = n

abbrev pub state_or_undetermined : Option (Option ProposalState) → ProposalState
state_or_undetermined (some (some status)) = status
state_or_undetermined _ = undetermined

abbrev pub text_or : Text → Option Text → Text
text_or other none = other
text_or other (some t) = t

-- One row of the table, from the answers at its place and the log at its place
unfoldable pub row :
    Option ℕ
    → Option ProposalCallResult
    → Option (Option ProposalState)
    → Option FormattedLog
    → Proposal
unfolding unescape_lines title_of
row voting_delay proposal state log =
    let description = field_of unescape_lines (field_of (λ p. p.log_description) log) in
    record {
      proposal_id = field_of (λ p. decimal p.id) proposal;
      title = title_of description;
      description = text_or (codes "No description.") description;
      proposer = field_of (λ p. p.caller) proposal;
      status = state_or_undetermined state;
      proposal_threshold = number_or_0 (λ p. p.threshold) proposal;
      quorum_votes = number_or_0 (λ p. p.quorum) proposal;
      for_count = number_or_0 (λ p. p.for_votes) proposal;
      against_count = number_or_0 (λ p. p.against_votes) proposal;
      abstain_count = number_or_0 (λ p. p.abstain_votes) proposal;
      created_block = field_of (λ p. pos p.starts -ℤ pos (or_0 voting_delay)) proposal;
      start_block = field_of (λ p. p.starts) proposal;
      end_block = field_of (λ p. p.ends) proposal;
      eta = field_of (λ p. p.earliest * 1000) proposal;
      details = field_of (λ p. p.log_details) log;
      transaction_hash = field_of (λ p. p.log_hash) log;
    }

unfoldable pub rows :
    Option ℕ
    → List (Option ProposalCallResult)
    → List (Option ProposalState)
    → List FormattedLog
    → ℕ
    → List Proposal
unfolding row
rows voting_delay [] states logs i = []
rows voting_delay (p ∷ ps) states logs i =
    row voting_delay p (get_elem? states i) (get_elem? logs i)
    ∷ rows voting_delay ps states logs (suc i)

abbrev pub logs_or_none : Option (List FormattedLog) → List FormattedLog
logs_or_none none = []
logs_or_none (some logs) = logs

-- Nothing is shown until the logs are there.
unfoldable pub all_proposals :
    Option ℕ
    → List (Option ProposalCallResult)
    → List (Option ProposalState)
    → Option (List FormattedLog)
    → ProposalData
unfolding rows
all_proposals voting_delay results states formatted_logs =
    let logs = logs_or_none formatted_logs in
    if ltb 0 (length results) && (length logs == 0)
    then record { proposals = []; loading = true }
    else record { proposals = rows voting_delay results states logs 0; loading = false }

abbrev pub has_id : Text → Proposal → Bool
has_id id p = elim (p.proposal_id) [ none ↦ false | some t ↦ text_eq t id ]

unfoldable pub find_proposal_by_id : Text → List Proposal → Option Proposal
unfolding text_eq
find_proposal_by_id id [] = none
find_proposal_by_id id (p ∷ ps) = if has_id id p then some p else find_proposal_by_id id ps
