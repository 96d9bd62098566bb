-- ===== src/Tests/LaunchRuns.antt =====
-- The chains that the node knows, with concrete keys.
use konomi_node.Base.{refl, [], ◌∷◌, some, none}
use konomi_node.Node.ChainSpec.{ChainSpec, local, testnet_genesis, local_testnet_config}
use konomi_node.Node.Command.{load_spec}
use konomi_node.Node.Launch.{Launched, load_spec_launches}
use konomi_node.Base.{false, true, ℕ}
use konomi_node.Node.Service.{Configuration, Libraries}
use konomi_node.Tests.RuntimeRuns.{keys, platform, decimals-Divides}

abbrev local_testnet : ChainSpec
local_testnet = record {
  name = "Local Testnet";
  id = "local_testnet";
  chain_type = local;
  genesis =
      testnet_genesis keys [] ((11, 12) ∷ (11, 12) ∷ []) 5
        (5 ∷ 3 ∷ 7 ∷ 4 ∷ 3 ∷ 6 ∷ 12 ∷ 10 ∷ 14 ∷ 11 ∷ 10 ∷ 13 ∷ []);
}

load_spec_launches_example : Launched platform local_testnet.genesis
unfolding load_spec local_testnet_config
load_spec_launches_example =
    load_spec_launches keys platform refl decimals-Divides (some []) (λ path. none) "local"
      local_testnet refl refl

-- An authority, over libraries that do not fail, and over a network that does.
abbrev authority : Configuration
authority = record {
  role = record { is_light = false; is_authority = true; is_network_authority = true };
  force_authoring = false;
  node_name = "alice";
  disable_grandpa = false;
  offchain_worker_enabled = true;
}

abbrev working : Libraries ℕ
working part = none
