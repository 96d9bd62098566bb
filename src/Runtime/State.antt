-- ===== src/Runtime/State.antt =====
-- runtime/src/lib.rs: the storage of the runtime's pallets of this repository, which lies side by
-- side in one store, and each pallet's view of it.
use konomi_node.Base.{ℕ, List, Option, Bool}
use konomi_node.FixedPoint.{FixedPoint}
use konomi_node.Assets.State as Assets
use konomi_node.Lending.State as Lending
use konomi_node.Swap.State as Swap
use konomi_node.Offchain.State as Offchain

pub record Chain : Type 0 where
  pub block_number : ℕ
  pub assets : Assets.State
  pub user_debts : ℕ → ℕ → Option Lending.UserDebt
  pub user_supplies : ℕ → ℕ → Option Lending.UserSupply
  pub pools : ℕ → Option Lending.Pool
  pub user_supply_set : ℕ → List ℕ
  pub user_debt_set : ℕ → List ℕ
  pub liquidation_threshold : ℕ
  pub lending_events : List Lending.Event
  pub fee_rate : ℕ
  pub total_liquidities : ℕ → ℕ
  pub account_liquidities : ℕ → ℕ → ℕ
  pub exchange_accounts : ℕ → ℕ
  pub swap_events : List Swap.Event
  pub next_unsigned_at : ℕ
  pub worker_events : List Offchain.Event

-- The lending pallet's storage, with the assets behind `MultiAsset` and `Oracle`.
abbrev pub lending : Chain → Lending.State Assets.State
lending c = record {
  ledger = c.assets;
  user_debts = c.user_debts;
  user_supplies = c.user_supplies;
  pools = c.pools;
  user_supply_set = c.user_supply_set;
  user_debt_set = c.user_debt_set;
  liquidation_threshold = c.liquidation_threshold;
  block_number = c.block_number;
  events = c.lending_events;
}

abbrev pub exchange : Chain → Swap.Exchange
exchange c = record {
  assets = c.assets;
  fee_rate = c.fee_rate;
  total_liquidities = c.total_liquidities;
  account_liquidities = c.account_liquidities;
  exchange_accounts = c.exchange_accounts;
  events = c.swap_events;
}

abbrev pub worker : Chain → Offchain.Worker
worker c = record {
  assets = c.assets;
  next_unsigned_at = c.next_unsigned_at;
  block_number = c.block_number;
  events = c.worker_events;
}

-- The store after a pallet wrote its part.
abbrev pub put_assets : Chain → Assets.State → Chain
put_assets c a = record c { assets = a }

abbrev pub put_lending : Chain → Lending.State Assets.State → Chain
put_lending c s = record c {
  assets = s.ledger;
  user_debts = s.user_debts;
  user_supplies = s.user_supplies;
  pools = s.pools;
  user_supply_set = s.user_supply_set;
  user_debt_set = s.user_debt_set;
  liquidation_threshold = s.liquidation_threshold;
  lending_events = s.events;
}

abbrev pub put_exchange : Chain → Swap.Exchange → Chain
put_exchange c s = record c {
  assets = s.assets;
  fee_rate = s.fee_rate;
  total_liquidities = s.total_liquidities;
  account_liquidities = s.account_liquidities;
  exchange_accounts = s.exchange_accounts;
  swap_events = s.events;
}

abbrev pub put_worker : Chain → Offchain.Worker → Chain
put_worker c s = record c {
  assets = s.assets;
  next_unsigned_at = s.next_unsigned_at;
  worker_events = s.events;
}

-- What the pallets' configurations leave to other crates: the arithmetic of `FixedU128`, the
-- account of the lending pallet, the hash of the exchange address; and the build's checks.
pub record Platform : Type 0 where
  pub fixed : FixedPoint
  pub lending_account : ℕ
  pub hash : List ℕ → ℕ
  pub checks : Bool
