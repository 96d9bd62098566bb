-- ===== src/Lending/Liquidate.antt =====
-- pallets/lending/src/lib.rs: `liquidate`, by which an arbitrager pays a part of the debt of a
-- user under the threshold, and gets a part of the user's collateral.
use konomi_node.Base.{
  ℕ, Origin, ◌>>=◌, ◌>>◌, gets, or_panic, ok_or, ensure, ltb, if◌then◌else◌, false,
}
use konomi_node.Lending.State.{
  Pool, Config, Call, bad_origin, pool_not_exist, asset_not_collateral, above_liquidation_threshold,
  user_no_supply, put_pool,
}
use konomi_node.Lending.Interest.{accrue_interest}
use konomi_node.Lending.Accounts.{
  update_user_supply, update_user_debt, accrue_supply_with_interest, accrue_debt_with_interest,
}
use konomi_node.Lending.Info.{get_user_info}
use konomi_node.Lending.Calls.{move_asset}
use konomi_node.Lending.Seizure.{pay_limit, get_amount}

module _ {E Store : Type 0} (t : Config E Store) where
  open t use {fixed, checks, oracle, account_id}

  -- `liquidate` from where the target user's entries have their interest: steps 3 to 7.
  unfoldable pub settle : ℕ → ℕ → ℕ → ℕ → ℕ → Pool → Pool → Call Store (Unit {0})
  settle account target_user pay_asset_id get_asset_id requested pay_pool get_pool = do
    info ← gets (get_user_info t target_user)
    totals ← or_panic info
    threshold ← gets (λ s. s.liquidation_threshold)
    ensure (ltb totals.1 (fixed.saturating_mul_int threshold totals.2)) above_liquidation_threshold
    supply_found ← gets (λ s. s.user_supplies get_asset_id target_user)
    supply ← ok_or supply_found user_no_supply
    get_price ← gets (λ s. oracle.get_rate get_asset_id s.ledger)
    pay_price ← gets (λ s. oracle.get_rate pay_asset_id s.ledger)
    limit ← or_panic (pay_limit fixed get_pool get_price pay_price supply.amount)
    debt_found ← gets (λ s. s.user_debts pay_asset_id target_user)
    debt ← ok_or debt_found user_no_supply
    let limited = if ltb limit requested then limit else requested
    let paid = if ltb debt.amount limited then debt.amount else limited
    got ← or_panic (get_amount fixed get_pool get_price pay_price paid)
    move_asset t account pay_asset_id account_id paid
    move_asset t account_id get_asset_id account got
    update_user_supply t get_pool get_asset_id target_user got false
    update_user_debt t pay_pool pay_asset_id target_user paid false
    put_pool get_asset_id get_pool
    put_pool pay_asset_id pay_pool

  unfoldable pub liquidate : Origin → ℕ → ℕ → ℕ → ℕ → Call Store (Unit {0})
  unfolding settle
  liquidate origin target_user pay_asset_id get_asset_id requested = do
    account ← ok_or origin.signed_by bad_origin
    get_found ← gets (λ s. s.pools get_asset_id)
    get_stored ← ok_or get_found pool_not_exist
    ensure get_stored.can_be_collateral asset_not_collateral
    pay_found ← gets (λ s. s.pools pay_asset_id)
    pay_stored ← ok_or pay_found pool_not_exist
    now ← gets (λ s. s.block_number)
    pay_pool ← or_panic (accrue_interest fixed checks now pay_stored)
    get_pool ← or_panic (accrue_interest fixed checks now get_stored)
    accrue_supply_with_interest t get_pool get_asset_id target_user
    accrue_debt_with_interest t pay_pool pay_asset_id target_user
    settle account target_user pay_asset_id get_asset_id requested pay_pool get_pool
