-- ===== src/Runtime/Genesis.antt =====
-- runtime/src/lib.rs: the genesis configuration of the runtime, as node/src/chain_spec.rs fills it
-- in, and the store that the pallets of this repository build from it.
use konomi_node.Base.{ℕ, List, [], none, ◌>>◌}
use konomi_node.Assets.Calls as Assets
use konomi_node.Lending.Calls as Lending
use konomi_node.Runtime.State.{Chain, Platform, lending, put_assets, put_lending}
use konomi_node.Runtime.Calls.{Call, assets_error, lending_error, on_part, lending_config}

-- Balances, authorities and the key of sudo are other crates' concern. An asset is its holder's
-- account, its supply and its price.
pub record GenesisConfig : Type 0 where
  pub code : List ℕ
  pub balances : List (ℕ × ℕ)
  pub aura_authorities : List ℕ
  pub grandpa_authorities : List (ℕ × ℕ)
  pub sudo_key : ℕ
  pub assets_owner : ℕ
  pub assets : List (ℕ × ℕ × ℕ)
  pub swap_fee_rate : ℕ
  pub lending_pools : List ℕ

module _ (p : Platform) where
  -- What the storage reads before anything was built, with the configured values.
  abbrev pub configured : GenesisConfig → Chain
  configured g = record {
    block_number = 0;
    assets = record {
      next_asset_id = 0;
      total_supply = λ _. 0;
      balances = λ _ _. 0;
      inherent_asset = 0;
      price = λ _. 0;
      owner = g.assets_owner;
      events = [];
    };
    user_debts = λ _ _. none;
    user_supplies = λ _ _. none;
    pools = λ _. none;
    user_supply_set = λ _. [];
    user_debt_set = λ _. [];
    liquidation_threshold = p.fixed.one_value;
    lending_events = [];
    fee_rate = g.swap_fee_rate;
    total_liquidities = λ _. 0;
    account_liquidities = λ _ _. 0;
    exchange_accounts = λ _. 0;
    swap_events = [];
    next_unsigned_at = 0;
    worker_events = [];
  }

  -- The pallets' `build`, in the order of `construct_runtime!`.
  unfoldable pub build : GenesisConfig → Call
  build g = do
    on_part assets_error (λ c. c.assets) put_assets (Assets.genesis p.checks p.fixed g.assets)
    on_part lending_error lending put_lending (Lending.genesis (lending_config p) g.lending_pools)
