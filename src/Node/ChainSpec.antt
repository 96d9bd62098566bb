-- ===== src/Node/ChainSpec.antt =====
-- node/src/chain_spec.rs: the chains that the node knows. The key pairs that `sp_core` derives
-- from seeds are a parameter.
use Prim.Native.String.{String}
use konomi_node.Base.{ℕ, ◌^◌, List, [], ◌∷◌, map, Option, none, some}
use konomi_node.Runtime.Genesis.{GenesisConfig}

-- `get_account_id_from_seed`, and `get_from_seed` for the two kinds of authorities.
pub record Keys : Type 0 where
  pub account_id : String → ℕ
  pub aura_id : String → ℕ
  pub grandpa_id : String → ℕ

-- `sc_service::ChainType`, as far as it is used.
pub data ChainType : Type 0 where
  development local : ChainType

-- The arguments of `ChainSpec::from_genesis` that are not empty.
pub record ChainSpec : Type 0 where
  pub name : String
  pub id : String
  pub chain_type : ChainType
  pub genesis : GenesisConfig

module _ (keys : Keys) where
  open keys use {account_id, aura_id, grandpa_id}

  abbrev pub authority_keys_from_seed : String → ℕ × ℕ
  authority_keys_from_seed s = (aura_id s, grandpa_id s)

  unfoldable pub testnet_genesis : List ℕ → List (ℕ × ℕ) → ℕ → List ℕ → GenesisConfig
  testnet_genesis wasm_binary initial_authorities root_key endowed_accounts = record {
    code = wasm_binary;
    balances = map (λ k. (k, 2 ^ 60)) endowed_accounts;
    aura_authorities = map (λ x. x.0) initial_authorities;
    grandpa_authorities = map (λ x. (x.1, 1)) initial_authorities;
    sudo_key = root_key;
    assets_owner = account_id "Bob";
    assets =
        (account_id "Alice", 1_000_000_000_000_000_000, 100)
        ∷ (account_id "Alice", 1_000_000_000_000_000_000, 60)
        ∷ (account_id "Alice", 1_000_000_000_000_000_000, 5)
        ∷ (account_id "Alice", 1_000_000_000_000_000_000, 600)
        ∷ (account_id "Alice", 1_000_000_000_000_000_000, 20_000)
        ∷ [];
    swap_fee_rate = 1;
    lending_pools = 0 ∷ 1 ∷ 2 ∷ 3 ∷ 4 ∷ [];
  }

  -- `none` is the error "Development wasm binary not available".
  unfoldable pub development_config : Option (List ℕ) → Option ChainSpec
  unfolding testnet_genesis
  development_config none = none
  development_config (some wasm_binary) = some record {
    name = "Development";
    id = "dev";
    chain_type = development;
    genesis =
        testnet_genesis wasm_binary (authority_keys_from_seed "Alice" ∷ []) (account_id "Alice")
          (map account_id ("Alice" ∷ "Bob" ∷ "Alice//stash" ∷ "Bob//stash" ∷ []));
  }

  unfoldable pub local_testnet_config : Option (List ℕ) → Option ChainSpec
  unfolding testnet_genesis
  local_testnet_config none = none
  local_testnet_config (some wasm_binary) = some record {
    name = "Local Testnet";
    id = "local_testnet";
    chain_type = local;
    genesis =
        testnet_genesis wasm_binary
          (authority_keys_from_seed "Alice" ∷ authority_keys_from_seed "Bob" ∷ [])
          (account_id "Alice")
          (map account_id (
            "Alice" ∷ "Bob" ∷ "Charlie" ∷ "Dave" ∷ "Eve" ∷ "Ferdie" ∷ "Alice//stash" ∷ "Bob//stash"
            ∷ "Charlie//stash" ∷ "Dave//stash" ∷ "Eve//stash" ∷ "Ferdie//stash" ∷ []));
  }
