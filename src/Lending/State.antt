-- ===== src/Lending/State.antt =====
-- pallets/lending/src/lib.rs: the configuration, the records, the storage, events and errors.
use konomi_node.Base.{ℕ, Bool, Option, List, ◌∷◌, Action, modify, update, update₂, some}
use konomi_node.FixedPoint.{FixedPoint}
use konomi_node.Traits.{MultiAsset, Oracle}

-- `struct Pool`; rates, factors and indices are inner values of `FixedU128`.
pub record Pool : Type 0 where
  pub enabled : Bool
  pub can_be_collateral : Bool
  pub asset : ℕ
  pub supply : ℕ
  pub debt : ℕ
  pub safe_factor : ℕ
  pub close_factor : ℕ
  pub discount_factor : ℕ
  pub total_supply_index : ℕ
  pub total_debt_index : ℕ
  pub last_updated : ℕ
  pub utilization_factor : ℕ
  pub initial_interest_rate : ℕ

-- `struct UserSupply`
pub record UserSupply : Type 0 where
  pub amount : ℕ
  pub index : ℕ

-- `struct UserDebt`
pub record UserDebt : Type 0 where
  pub amount : ℕ
  pub index : ℕ

-- `enum Event`
pub data Event : Type 0 where
  supplied withdrawn borrowed repaid : ℕ → ℕ → ℕ → Event
  liquidated : ℕ → ℕ → ℕ → ℕ → ℕ → ℕ → Event

-- `enum Error`, and FRAME's refusal of an origin.
pub data Error : Type 0 where
  bad_origin transfer_failed not_enough_liquidity pool_not_exist asset_not_collateral : Error
  above_liquidation_threshold below_liquidation_threshold user_no_supply user_no_debt : Error

-- The storage, with the assets' storage that its calls reach through `MultiAsset` and `Oracle`,
-- and the block number of frame_system. The double maps go by asset and account.
pub record State (Store : Type 0) : Type 0 where
  pub ledger : Store
  pub user_debts : ℕ → ℕ → Option UserDebt
  pub user_supplies : ℕ → ℕ → Option UserSupply
  pub pools : ℕ → Option Pool
  pub user_supply_set : ℕ → List ℕ
  pub user_debt_set : ℕ → List ℕ
  pub liquidation_threshold : ℕ
  pub block_number : ℕ
  pub events : List Event

-- `trait Trait`, the operations of `FixedU128`, the account that `PALLET_ID.into_account()`
-- gives, and whether the build has overflow checks.
pub record Config (E Store : Type 0) : Type 0 where
  pub multi_asset : MultiAsset E Store
  pub oracle : Oracle Store
  pub fixed : FixedPoint
  pub account_id : ℕ
  pub checks : Bool

abbrev pub Call : Type 0 → Type 0 → Type 0
Call Store A = Action Error (State Store) A

module _ {Store : Type 0} where
  abbrev pub put_pool : ℕ → Pool → Call Store (Unit {0})
  put_pool id pool = modify (λ s. record s { pools = update s.pools id (some pool) })

  abbrev pub put_supply : ℕ → ℕ → Option UserSupply → Call Store (Unit {0})
  put_supply id who entry =
      modify (λ s. record s { user_supplies = update₂ s.user_supplies id who entry })

  abbrev pub put_debt : ℕ → ℕ → Option UserDebt → Call Store (Unit {0})
  put_debt id who entry = modify (λ s. record s { user_debts = update₂ s.user_debts id who entry })

  abbrev pub deposit_event : Event → Call Store (Unit {0})
  deposit_event e = modify (λ s. record s { events = e ∷ s.events })
