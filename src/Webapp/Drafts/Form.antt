-- ===== src/Webapp/Drafts/Form.antt =====
-- packages/nouns-webapp/src/components/ProposalTransactionFormModal: the steps to a transaction. The
-- checks of addresses and amounts, the interface of a contract and its look-up, and the library's
-- stepping are parameters.
use nouns_monorepo.Prelude.{
  ℕ, zero, suc, Bool, true, false, not, ◌&&◌, ◌||◌, List, [], ◌∷◌, if◌then◌else◌, ◌==◌, Option,
  none, some, ◌>>=◌,
}
use nouns_monorepo.Sdk.Text.{Text, codes, text_eq}
use nouns_monorepo.Webapp.Drafts.{ProposalTransaction}

-- What the explorer's answer says of a contract
pub record ContractInformation : Type 0 where
  pub proxy : Text
  pub implementation : Text
  pub abi_text : Text

pub record FormState (Interface : Type 0) : Type 0 where
  pub address : Text
  pub abi : Option Interface
  pub value : Text
  pub func : Text
  pub args : List (Option Text)
  pub is_abi_upload_valid : Option Bool
  pub abi_file_name : Option Text
  pub current_step : ℕ

-- `values[index] = value`, with holes up to the index
unfoldable pub set_argument_at : ℕ → Text → List (Option Text) → List (Option Text)
set_argument_at zero v [] = some v ∷ []
set_argument_at zero v (a ∷ args) = some v ∷ args
set_argument_at (suc i) v [] = none ∷ set_argument_at i v []
set_argument_at (suc i) v (a ∷ args) = a ∷ set_argument_at i v args

abbrev pub is_empty : Text → Bool
is_empty [] = true
is_empty (c ∷ t) = false

module _ {Interface : Type 0} where
  unfoldable pub set_argument : ℕ → Text → FormState Interface → FormState Interface
  unfolding set_argument_at
  set_argument index v s = record s { args = set_argument_at index v s.args }

  unfoldable pub set_abi_invalid : FormState Interface → FormState Interface
  set_abi_invalid s = record s { is_abi_upload_valid = some false; abi_file_name = none }

  -- A file that was chosen: its name, and its interface unless it holds none
  unfoldable pub validate_and_set_abi :
      Option (Text × Option Interface) → FormState Interface → FormState Interface
  unfolding set_abi_invalid
  validate_and_set_abi none s = s
  validate_and_set_abi (some (name, none)) s = set_abi_invalid s
  validate_and_set_abi (some (name, some abi)) s = record s {
    abi = some abi;
    is_abi_upload_valid = some true;
    abi_file_name = some name;
  }

module _ {Interface : Type 0} (is_address : Text → Bool) (is_number : Text → Bool)
    (parse_ether : Text → Text) (parse_interface : Text → Option Interface)
    (get_contract_information : Text → Option ContractInformation)
    (encode_params : Interface → Text → List (Option Text) → Option Text)
    (step_forward : Bool → ℕ → ℕ) (step_backwards : ℕ → ℕ) where
  -- The contract behind a proxy, one step deep; without information the access of `ABI` throws.
  unfoldable pub behind_proxy : ContractInformation → Option ContractInformation
  behind_proxy info =
      if text_eq info.proxy (codes "1") && is_address info.implementation
      then get_contract_information info.implementation
      else some info

  unfoldable pub get_abi : Text → Option Text
  unfolding behind_proxy
  get_abi address = do
    info ← get_contract_information address
    final ← behind_proxy info
    some final.abi_text

  abbrev found_abi : Text → Option Interface
  found_abi address = do text ← get_abi address; parse_interface text

  unfoldable pub populate_abi_if_exists : Text → FormState Interface → FormState Interface
  unfolding get_abi
  populate_abi_if_exists address s = elim (found_abi address) [
    | none ↦ record s { is_abi_upload_valid = none; abi_file_name = none }
    | some abi ↦ record s {
      abi = some abi;
      is_abi_upload_valid = some true;
      abi_file_name = some (codes "etherscan-abi-download.json");
    }
  ]

  unfoldable pub value_validator : Text → Bool
  value_validator v = is_empty v || is_number v

  abbrev pub encoded : FormState Interface → Option Text
  encoded s = do abi ← s.abi; encode_params abi s.func s.args

  -- Some text that is not empty
  abbrev pub is_truthy : Option Text → Bool
  is_truthy none = false
  is_truthy (some t) = not (is_empty t)

  unfoldable pub arguments_validator : FormState Interface → Bool
  arguments_validator s = if is_empty s.func then true else is_truthy (encoded s)

  -- The check of the current step
  unfoldable pub validator : FormState Interface → Bool
  unfolding value_validator arguments_validator
  validator s =
      if s.current_step == 0
      then is_address s.address
      else if s.current_step == 1
      then value_validator s.value
      else if s.current_step == 3
      then arguments_validator s
      else true

  -- `text || '0x'`
  abbrev pub or_0x : Text → Text
  or_0x [] = codes "0x"
  or_0x (c ∷ t) = c ∷ t

  -- Without a function or an interface there is no call data; an encoding that fails throws.
  unfoldable pub calldata_of : FormState Interface → Option Text
  calldata_of s = if is_empty s.func then some (codes "0x") else elim (s.abi) [
    | none ↦ some (codes "0x")
    | some abi ↦ do t ← encode_params abi s.func s.args; some (or_0x t)
  ]

  unfoldable pub transaction_of : FormState Interface → Option ProposalTransaction
  unfolding calldata_of
  transaction_of s = do
    calldata ← calldata_of s
    some (record {
      address = s.address;
      value = if is_empty s.value then codes "0" else parse_ether s.value;
      signature = s.func;
      calldata = calldata;
    })

  unfoldable pub back_to_start : ℕ → ℕ → ℕ
  back_to_start zero step = step
  back_to_start (suc i) step = back_to_start i (step_backwards step)

  unfoldable pub clear_state : FormState Interface → FormState Interface
  unfolding back_to_start
  clear_state s = record {
    address = [];
    abi = none;
    value = [];
    func = [];
    args = [];
    is_abi_upload_valid = none;
    abi_file_name = none;
    current_step = back_to_start s.current_step s.current_step;
  }

  -- The check of the first step also looks the contract up.
  unfoldable pub checked : FormState Interface → FormState Interface
  unfolding populate_abi_if_exists
  checked s =
      if s.current_step == 0 && is_address s.address then populate_abi_if_exists s.address s else s

  -- On the last step the transaction is handed over, unless it throws, and the state is cleared.
  unfoldable pub step_forward_or_callback :
      FormState Interface → FormState Interface × Option ProposalTransaction
  unfolding validator transaction_of clear_state checked
  step_forward_or_callback s =
      if not (s.current_step == 4)
      then (record (checked s) { current_step = step_forward (validator s) s.current_step }, none)
      else elim (transaction_of s) [ none ↦ (s, none) | some tx ↦ (clear_state s, some tx) ]
