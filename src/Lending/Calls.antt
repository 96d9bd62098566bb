-- ===== src/Lending/Calls.antt =====
-- pallets/lending/src/lib.rs: the dispatchable calls. The log lines are left out.
use konomi_node.Base.{
  ℕ, Bool, true, false, List, [], ◌∷◌, ok, err, panic, Origin, ◌>>=◌, ◌>>◌, pure, gets, or_panic,
  ok_or, ensure, not, leb, ltb, if◌then◌else◌, sub_word, add_word, u128_size,
}
use konomi_node.Lending.State.{
  Pool, Config, Call, bad_origin, transfer_failed, not_enough_liquidity, pool_not_exist,
  below_liquidation_threshold, user_no_supply, user_no_debt, supplied, withdrawn, borrowed, repaid,
  put_pool, deposit_event,
}
use konomi_node.Lending.Interest.{accrue_interest, update_pool_supply, update_pool_debt}
use konomi_node.Lending.Accounts.{
  update_user_supply, update_user_debt, accrue_supply_with_interest, accrue_debt_with_interest,
  join_supply_set, join_debt_set,
}
use konomi_node.Lending.Info.{get_user_info}

module _ {E Store : Type 0} (t : Config E Store) where
  open t use {fixed, checks, oracle, multi_asset, account_id}

  -- `T::MultiAsset::transfer(..).map_err(|_| Error::<T>::TransferFailed)?`
  unfoldable pub move_asset : ℕ → ℕ → ℕ → ℕ → Call Store (Unit {0})
  move_asset from id to amount s = elim (multi_asset.transfer from id to amount s.ledger) [
    | ok _ ledger ↦ ok tt (record s { ledger = ledger })
    | err _ ledger ↦ err transfer_failed (record s { ledger = ledger })
    | panic ↦ panic
  ]

  -- The pool of an asset with its interest accrued, not yet committed to the storage.
  unfoldable pub accrued_pool : ℕ → Call Store Pool
  accrued_pool asset_id = do
    found ← gets (λ s. s.pools asset_id)
    pool ← ok_or found pool_not_exist
    now ← gets (λ s. s.block_number)
    or_panic (accrue_interest fixed checks now pool)

  unfoldable pub supply : Origin → ℕ → ℕ → Call Store (Unit {0})
  unfolding accrued_pool
  supply origin asset_id amount = do
    account ← ok_or origin.signed_by bad_origin
    pool ← accrued_pool asset_id
    move_asset account asset_id account_id amount
    update_user_supply t pool asset_id account amount true
    pool' ← or_panic (update_pool_supply checks pool amount true)
    deposit_event (supplied asset_id account amount)
    join_supply_set t asset_id account
    put_pool asset_id pool'

  unfoldable pub withdraw : Origin → ℕ → ℕ → Call Store (Unit {0})
  unfolding accrued_pool
  withdraw origin asset_id requested = do
    account ← ok_or origin.signed_by bad_origin
    pool ← accrued_pool asset_id
    accrue_supply_with_interest t pool asset_id account
    found ← gets (λ s. s.user_supplies asset_id account)
    entry ← ok_or found user_no_supply
    let amount = if ltb entry.amount requested then entry.amount else requested
    info ← gets (get_user_info t account)
    totals ← or_panic info
    price ← gets (λ s. oracle.get_rate asset_id s.ledger)
    safe_price ← or_panic (fixed.mul price pool.safe_factor)
    converted_supply ←
        or_panic (sub_word u128_size checks totals.1 (fixed.saturating_mul_int safe_price amount))
    threshold ← gets (λ s. s.liquidation_threshold)
    ensure (leb (fixed.saturating_mul_int threshold totals.2) converted_supply)
        below_liquidation_threshold
    cash ← or_panic (sub_word u128_size checks pool.supply pool.debt)
    ensure (not (ltb cash amount)) not_enough_liquidity
    move_asset account_id asset_id account amount
    update_user_supply t pool asset_id account amount false
    pool' ← or_panic (update_pool_supply checks pool amount false)
    deposit_event (withdrawn asset_id account amount)
    put_pool asset_id pool'

  unfoldable pub borrow : Origin → ℕ → ℕ → Call Store (Unit {0})
  unfolding accrued_pool
  borrow origin asset_id amount = do
    account ← ok_or origin.signed_by bad_origin
    pool ← accrued_pool asset_id
    cash ← or_panic (sub_word u128_size checks pool.supply pool.debt)
    ensure (not (ltb cash amount)) not_enough_liquidity
    accrue_debt_with_interest t pool asset_id account
    info ← gets (get_user_info t account)
    totals ← or_panic info
    price ← gets (λ s. oracle.get_rate asset_id s.ledger)
    converted_borrow ←
        or_panic (add_word u128_size checks totals.2 (fixed.saturating_mul_int price amount))
    threshold ← gets (λ s. s.liquidation_threshold)
    ensure (leb (fixed.saturating_mul_int threshold converted_borrow) totals.1)
        below_liquidation_threshold
    move_asset account_id asset_id account amount
    update_user_debt t pool asset_id account amount true
    pool' ← or_panic (update_pool_debt checks pool amount true)
    deposit_event (borrowed asset_id account amount)
    join_debt_set t asset_id account
    put_pool asset_id pool'

  unfoldable pub repay : Origin → ℕ → ℕ → Call Store (Unit {0})
  unfolding accrued_pool
  repay origin asset_id requested = do
    account ← ok_or origin.signed_by bad_origin
    pool ← accrued_pool asset_id
    accrue_debt_with_interest t pool asset_id account
    found ← gets (λ s. s.user_debts asset_id account)
    entry ← ok_or found user_no_debt
    let amount = if ltb entry.amount requested then entry.amount else requested
    move_asset account asset_id account_id amount
    update_user_debt t pool asset_id account amount false
    pool' ← or_panic (update_pool_debt checks pool amount false)
    deposit_event (repaid asset_id account amount)
    put_pool asset_id pool'

  -- `fn _init_pool`
  unfoldable pub init_pool_at : ℕ → Bool → Call Store (Unit {0})
  init_pool_at id can_be_collateral = do
    safe_factor ← or_panic (fixed.saturating_from_rational 7 10)
    discount_factor ← or_panic (fixed.saturating_from_rational 95 100)
    now ← gets (λ s. s.block_number)
    utilization_factor ← or_panic (fixed.saturating_from_rational 385 10_000_000_000)
    initial_interest_rate ← or_panic (fixed.saturating_from_rational 385 100_000_000_000)
    put_pool id (record {
      enabled = true;
      can_be_collateral = can_be_collateral;
      asset = id;
      supply = 0;
      debt = 0;
      safe_factor = safe_factor;
      close_factor = fixed.one_value;
      discount_factor = discount_factor;
      total_supply_index = fixed.one_value;
      total_debt_index = fixed.one_value;
      last_updated = now;
      utilization_factor = utilization_factor;
      initial_interest_rate = initial_interest_rate;
    })

  -- The origin is not looked at.
  unfoldable pub init_pool : Origin → ℕ → Bool → Call Store (Unit {0})
  unfolding init_pool_at
  init_pool origin id can_be_collateral = init_pool_at id can_be_collateral

  -- The loop of `build` in `add_extra_genesis`.
  unfoldable pub genesis : List ℕ → Call Store (Unit {0})
  genesis [] = pure tt
  genesis (pool ∷ pools) = do init_pool_at pool true; genesis pools
