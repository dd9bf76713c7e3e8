-- ===== src/Contracts/Tests.antt =====
-- The theorems about the tasks at a concrete deployment.
use nouns_monorepo.Prelude.{ℕ, ◌≡◌, List, [], ◌∷◌, ◌++◌, some, true}
use nouns_monorepo.Sdk.Text.{Text, codes, decimal}
use nouns_monorepo.Assets.{ImageData}
use nouns_monorepo.Contracts.Deploy.{DeployArgs, deploy, proxy_registry_for}
use nouns_monorepo.Contracts.Expected.{IsWired, deploy-IsWired}
use nouns_monorepo.Contracts.Populate.{Call, populate_descriptor, add_calls, no_art}
use nouns_monorepo.Contracts.Filled.{art_of, populate_descriptor-art_of}

abbrev task_args : DeployArgs
task_args = record {
  noundersdao = some (codes "0xdao");
  weth_address = codes "0xweth";
  auction_time_buffer = 300;
  auction_reserve_price = 1;
  auction_min_increment_bid_percentage = 5;
  auction_duration = 86400;
  timelock_delay = 172800;
  voting_period = 17280;
  voting_delay = 1;
  proposal_threshold_bps = 500;
  quorum_votes_bps = 1000;
}

abbrev nonce_address : Text → ℕ → Text
nonce_address from nonce = from ++ decimal nonce

deploy-IsWired_example :
    IsWired task_args
      (some (codes "0xdao"))
      (proxy_registry_for 1)
      (deploy nonce_address task_args 1 (codes "0xme") 3 (λ name. true)).0
deploy-IsWired_example = deploy-IsWired nonce_address task_args 1 (codes "0xme") 3

abbrev images : ImageData
images = record {
  bgcolors = codes "d5d7e1" ∷ [];
  bodies = [];
  accessories = record { filename = codes "a"; fields = codes "0x00" } ∷ [];
  heads = [];
  glasses_images = [];
}

populate_descriptor-art_of_example :
    (calls : List Call) × (populate_descriptor images [] ≡ some calls)
    × (add_calls calls no_art ≡ art_of images)
populate_descriptor-art_of_example = populate_descriptor-art_of images []
