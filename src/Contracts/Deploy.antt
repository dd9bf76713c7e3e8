-- ===== src/Contracts/Deploy.antt =====
-- packages/nouns-contracts/tasks/deploy.ts and deploy-local.ts. A deployment takes the deployer's next
-- nonce and its contract has the address that `getContractAddress` gives, a parameter; call data that
-- are encoded stand for the values in them.
use nouns_monorepo.Prelude.{
  ℕ, suc, ◌+◌, Bool, true, false, List, [], ◌∷◌, if◌then◌else◌, ◌==◌, Option, none, some,
}
use nouns_monorepo.Sdk.Text.{Text, codes}

-- The names of both tasks; only deploy-local.ts has WETH.
pub data ContractName : Type 0 where
  weth : ContractName
  nft_descriptor : ContractName
  nouns_descriptor : ContractName
  nouns_seeder : ContractName
  nouns_token : ContractName
  nouns_auction_house : ContractName
  nouns_auction_house_proxy_admin : ContractName
  nouns_auction_house_proxy : ContractName
  nouns_dao_executor : ContractName
  nouns_dao_logic_v1 : ContractName
  nouns_dao_proxy : ContractName

abbrev index_of : ContractName → ℕ
index_of weth = 0
index_of nft_descriptor = 1
index_of nouns_descriptor = 2
index_of nouns_seeder = 3
index_of nouns_token = 4
index_of nouns_auction_house = 5
index_of nouns_auction_house_proxy_admin = 6
index_of nouns_auction_house_proxy = 7
index_of nouns_dao_executor = 8
index_of nouns_dao_logic_v1 = 9
index_of nouns_dao_proxy = 10

abbrev pub same_name : ContractName → ContractName → Bool
same_name a b = index_of a == index_of b

-- An argument of a constructor: a value, or a call of `initialize` that is encoded
pub data Value : Type 0 where
  text : Text → Value
  number : ℕ → Value
  undefined : Value

pub data Arg : Type 0 where
  value : Value → Arg
  initialize : List Value → Arg

abbrev pub address_value : Option Text → Value
address_value none = undefined
address_value (some a) = text a

-- The addresses of the contracts that are there, the latest first
abbrev pub Addresses : Type 0
Addresses = List (ContractName × Text)

unfoldable pub address_of : Addresses → ContractName → Option Text
address_of [] name = none
address_of ((n, a) ∷ addresses) name =
    if same_name n name then some a else address_of addresses name

pub record DeployArgs : Type 0 where
  pub noundersdao : Option Text
  pub weth_address : Text
  pub auction_time_buffer : ℕ
  pub auction_reserve_price : ℕ
  pub auction_min_increment_bid_percentage : ℕ
  pub auction_duration : ℕ
  pub timelock_delay : ℕ
  pub voting_period : ℕ
  pub voting_delay : ℕ
  pub proposal_threshold_bps : ℕ
  pub quorum_votes_bps : ℕ

-- What is known before the first deployment
pub record Expected : Type 0 where
  pub nounders : Option Text
  pub proxy_registry : Text
  pub auction_house_proxy : Text
  pub dao_proxy : Text

-- The arguments of a contract, as they are when it is deployed: those that are functions read the
-- addresses of that moment. The second argument is the address of WETH.
unfoldable pub constructor_args :
    DeployArgs → Value → Expected → Addresses → ContractName → List Arg
unfolding address_of
constructor_args args weth_value known at nouns_token =
    value (address_value known.nounders)
    ∷ value (text known.auction_house_proxy)
    ∷ value (address_value (address_of at nouns_descriptor))
    ∷ value (address_value (address_of at nouns_seeder))
    ∷ value (text known.proxy_registry)
    ∷ []
constructor_args args weth_value known at nouns_auction_house_proxy =
    value (address_value (address_of at nouns_auction_house))
    ∷ value (address_value (address_of at nouns_auction_house_proxy_admin))
    ∷ initialize (
        address_value (address_of at nouns_token)
        ∷ weth_value
        ∷ number args.auction_time_buffer
        ∷ number args.auction_reserve_price
        ∷ number args.auction_min_increment_bid_percentage
        ∷ number args.auction_duration
        ∷ [])
    ∷ []
constructor_args args weth_value known at nouns_dao_executor =
    value (text known.dao_proxy) ∷ value (number args.timelock_delay) ∷ []
constructor_args args weth_value known at nouns_dao_proxy =
    value (address_value (address_of at nouns_dao_executor))
    ∷ value (address_value (address_of at nouns_token))
    ∷ value (address_value known.nounders)
    ∷ value (address_value (address_of at nouns_dao_executor))
    ∷ value (address_value (address_of at nouns_dao_logic_v1))
    ∷ value (number args.voting_period)
    ∷ value (number args.voting_delay)
    ∷ value (number args.proposal_threshold_bps)
    ∷ value (number args.quorum_votes_bps)
    ∷ []
constructor_args args weth_value known at _ = []

-- The library that a contract is linked with
unfoldable pub library_of : Addresses → ContractName → Option Text
unfolding address_of
library_of at nouns_descriptor = address_of at nft_descriptor
library_of at _ = none

-- A deployment, and all of them, the latest first, with the contracts' addresses
pub record Deployment : Type 0 where
  pub name : ContractName
  pub args : List Arg
  pub library : Option Text

pub record Deployed : Type 0 where
  pub sent : List Deployment
  pub addresses : Addresses

abbrev pub nothing_deployed : Deployed
nothing_deployed = record { sent = []; addresses = [] }

abbrev pub deploy_names : List ContractName
deploy_names =
    nft_descriptor ∷ nouns_descriptor ∷ nouns_seeder ∷ nouns_token ∷ nouns_auction_house
    ∷ nouns_auction_house_proxy_admin ∷ nouns_auction_house_proxy ∷ nouns_dao_executor
    ∷ nouns_dao_logic_v1 ∷ nouns_dao_proxy ∷ []

abbrev pub proxy_registry_for : ℕ → Text
proxy_registry_for chain_id =
    if chain_id == 1
    then codes "0xa5409ec958c83c3f309868babaca7c86dcb077c1"
    else codes "0xf57b2c51ded3a29e6891aba85459d600256cf317"

abbrev pub or_deployer : Option Text → Text → Text
or_deployer none deployer = deployer
or_deployer (some []) deployer = deployer
or_deployer (some (c ∷ t)) deployer = c ∷ t

module _ (get_contract_address : Text → ℕ → Text) where
  -- The loop. A contract that is not confirmed ends the task, which returns nothing then.
  unfoldable pub deploy_loop :
      (Addresses → ContractName → List Arg)
      → (ContractName → Bool)
      → Text
      → List ContractName
      → ℕ
      → Deployed
      → Deployed × Bool
  unfolding library_of
  deploy_loop args_of confirms from [] nonce d = (d, true)
  deploy_loop args_of confirms from (name ∷ names) nonce d =
      let next = deploy_loop args_of confirms from names (suc nonce) (record {
        sent =
            record {
              name = name;
              args = args_of d.addresses name;
              library = library_of d.addresses name;
            }
            ∷ d.sent;
        addresses = (name, get_contract_address from nonce) ∷ d.addresses;
      }) in
      if confirms name then next else (d, false)

  -- The task `deploy`, on the chain and the deployer that it runs with
  unfoldable pub deploy : DeployArgs → ℕ → Text → ℕ → (ContractName → Bool) → Deployed × Bool
  unfolding deploy_loop constructor_args
  deploy args chain_id deployer nonce confirms =
      let known : Expected = record {
        nounders = args.noundersdao;
        proxy_registry = proxy_registry_for chain_id;
        auction_house_proxy = get_contract_address deployer (nonce + 6);
        dao_proxy = get_contract_address deployer (nonce + 9);
      } in
      deploy_loop (constructor_args args (text args.weth_address) known) confirms deployer
        deploy_names nonce nothing_deployed

  -- The task `deploy-local`, which deploys WETH too and asks for no confirmation
  unfoldable pub deploy_local : DeployArgs → ℕ → Text → ℕ → Option Deployed
  unfolding deploy_loop constructor_args
  deploy_local args chain_id deployer nonce =
      let known : Expected = record {
        nounders = some (or_deployer args.noundersdao deployer);
        proxy_registry = codes "0xa5409ec958c83c3f309868babaca7c86dcb077c1";
        auction_house_proxy = get_contract_address deployer (nonce + 7);
        dao_proxy = get_contract_address deployer (nonce + 10);
      } in
      if chain_id == 31337
      then some (
          (deploy_loop
            (λ at name. constructor_args args (address_value (address_of at weth)) known at name)
            (λ name. true) deployer (weth ∷ deploy_names) nonce nothing_deployed).0)
      else none
