-- ===== src/Contracts/Expected.antt =====
-- That the addresses which tasks/deploy.ts and deploy-local.ts expect are those that they get.
use nouns_monorepo.Prelude.{
  ℕ, suc, ◌+◌, ◌≡◌, refl, arith, true, List, [], ◌∷◌, if◌then◌else◌, Option, some,
}
use nouns_monorepo.Sdk.Text.{Text, codes}
use nouns_monorepo.Contracts.Deploy.{
  ContractName, nouns_descriptor, nouns_seeder, nouns_token, nouns_auction_house_proxy,
  nouns_dao_executor, nouns_dao_proxy, text, number, Arg, value, address_value, address_of,
  same_name, DeployArgs, Deployment, Deployed, deploy, deploy_loop, deploy_local, constructor_args,
  proxy_registry_for, or_deployer,
}

-- The arguments that a contract was deployed with
pub args_sent : List Deployment → ContractName → List Arg
args_sent [] name = []
args_sent (d ∷ sent) name = if same_name d.name name then d.args else args_sent sent name

abbrev at : Deployed → ContractName → Arg
at d name = value (address_value (address_of d.addresses name))

-- The contracts know one another by the addresses that they have.
pub IsWired : DeployArgs → Option Text → Text → Deployed → Type 0
IsWired args nounders registry d =
    (args_sent d.sent nouns_token
      ≡ value (address_value nounders)
        ∷ at d nouns_auction_house_proxy
        ∷ at d nouns_descriptor
        ∷ at d nouns_seeder
        ∷ value (text registry)
        ∷ [])
    × (args_sent d.sent nouns_dao_executor
        ≡ at d nouns_dao_proxy ∷ value (number args.timelock_delay) ∷ [])

module _ (get_contract_address : Text → ℕ → Text) where
  -- If every contract is confirmed, whatever the first nonce is: the token is deployed with the
  -- addresses that the auction house proxy, the descriptor and the seeder have in the end, and the
  -- executor with that of the DAO proxy.
  pub deploy-IsWired :
      (args : DeployArgs) (chain_id : ℕ) (deployer : Text) (nonce : ℕ)
      → IsWired args args.noundersdao
          (proxy_registry_for chain_id)
          (deploy get_contract_address args chain_id deployer nonce (λ name. true)).0
  unfolding IsWired deploy deploy_loop constructor_args args_sent address_of
  deploy-IsWired args chain_id deployer nonce =
      let six : nonce + 6 ≡ suc (suc (suc (suc (suc (suc nonce))))) = omega arith in
      let nine : nonce + 9 ≡ suc (suc (suc (suc (suc (suc (suc (suc (suc nonce)))))))) =
        omega arith in
      (rw six refl, rw nine refl)

  -- The same of `deploy-local`, on the chain that it is for.
  pub deploy_local-IsWired :
      (args : DeployArgs) (deployer : Text) (nonce : ℕ)
      → (d : Deployed) × (deploy_local get_contract_address args 31337 deployer nonce ≡ some d)
        × IsWired args
            (some (or_deployer args.noundersdao deployer))
            (codes "0xa5409ec958c83c3f309868babaca7c86dcb077c1")
            d
  unfolding IsWired deploy_local deploy_loop constructor_args args_sent address_of
  deploy_local-IsWired args deployer nonce =
      let seven : nonce + 7 ≡ suc (suc (suc (suc (suc (suc (suc nonce)))))) = omega arith in
      let ten : nonce + 10 ≡ suc (suc (suc (suc (suc (suc (suc (suc (suc (suc nonce))))))))) =
        omega arith in
      (_, refl, (rw seven refl, rw ten refl))
