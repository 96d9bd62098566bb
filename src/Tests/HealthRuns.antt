-- ===== src/Tests/HealthRuns.antt =====
-- The guards of the lending calls, at a concrete state.
use konomi_node.Base.{
  ℕ, ◌≡◌, ◌≤◌, ◌<◌, ◌+◌, ◌-◌, after, refl, some, ok, min, Post, add_word, sub_word,
}
use konomi_node.Lending.State.{State, Pool, UserSupply}
use konomi_node.Lending.Accounts.{
  accrue_supply_with_interest, accrue_debt_with_interest, with_interest, accrue_found_supply,
  accrue_found_debt, update_user_supply, update_found_supply, update_user_debt, update_found_debt,
  store_supply, store_debt, leave_supply_set, leave_debt_set,
}
use konomi_node.Lending.Interest.{
  supply_rate_internal, debt_rate_internal, multiplier, supply_multiplier, debt_multiplier,
  accrue_interest,
}
use konomi_node.Lending.Info.{
  get_user_info, supply_totals, debt_total, get_user_supply_with_interest,
  get_user_debt_with_interest, supply_rate, debt_rate,
}
use konomi_node.Lending.Calls.{borrow, withdraw, move_asset, accrued_pool}
use konomi_node.Lending.Seizure.{pay_limit, get_amount}
use konomi_node.Lending.Liquidate.{liquidate, settle}
use konomi_node.Assets.Calls as AssetsCalls
use konomi_node.Lending.Effects.{Anything, Lent, Withdrawn}
use konomi_node.Lending.Health.{Valued, required, IsCurrent, borrow-Healthy, withdraw-Healthy}
use konomi_node.Lending.Liquidatable.{liquidate-Unhealthy}
use konomi_node.Assets.State as Ledger
use konomi_node.Tests.Fixed.{decimals}
use konomi_node.Tests.LendingRuns.{signed, runtime, chain, sunk}

borrow-Healthy_example :
    Post
      (λ _ end.
        (who : ℕ) × (pool : Pool) × (v : State Ledger.State) × (has : Valued runtime v who)
        × ((signed 1).signed_by ≡ some who)
        × IsCurrent runtime chain 0 pool
        × (accrue_debt_with_interest runtime pool 0 who chain ≡ ok tt v)
        × (required runtime v (has.borrowed + decimals.saturating_mul_int (v.ledger.price 0) 100)
            ≤ has.converted)
        × Lent runtime pool 0 who 100 v end)
      Anything
      (borrow runtime (signed 1) 0 100 chain)
borrow-Healthy_example = borrow-Healthy runtime (signed 1) 0 100 chain refl

withdraw-Healthy_example :
    Post
      (λ _ end.
        (who : ℕ) × (pool : Pool) × (v : State Ledger.State) × (has : Valued runtime v who)
        × (entry : UserSupply) × (price : ℕ) × ((signed 1).signed_by ≡ some who)
        × IsCurrent runtime chain 0 pool
        × (accrue_supply_with_interest runtime pool 0 who chain ≡ ok tt v)
        × (v.user_supplies 0 who ≡ some entry)
        × (decimals.mul (v.ledger.price 0) pool.safe_factor ≡ some price)
        × (required runtime v has.borrowed
              + decimals.saturating_mul_int price (min entry.amount 100)
            ≤ has.converted)
        × Withdrawn runtime pool 0 who (min entry.amount 100) v end)
      Anything
      (withdraw runtime (signed 1) 0 100 chain)
withdraw-Healthy_example = withdraw-Healthy runtime (signed 1) 0 100 chain refl

-- The liquidation succeeds: account 2 pays 50 units of asset 1 and gets 52 of asset 0.
liquidated :
    let u = after sunk (liquidate runtime (signed 2) 1 1 0 50 sunk) in
    (liquidate runtime (signed 2) 1 1 0 50 sunk ≡ ok tt u)
    × (u.ledger.balances 0 2 ≡ 5_000 + 52)
    × (u.ledger.balances 1 2 ≡ 5_000 - 50)
unfolding liquidate settle pay_limit get_amount get_user_info supply_totals debt_total
    get_user_supply_with_interest get_user_debt_with_interest supply_rate debt_rate
    supply_rate_internal debt_rate_internal multiplier supply_multiplier debt_multiplier
    accrue_interest with_interest accrue_supply_with_interest accrue_found_supply
    accrue_debt_with_interest accrue_found_debt update_user_supply update_found_supply
    update_user_debt update_found_debt store_supply store_debt leave_supply_set leave_debt_set
    move_asset AssetsCalls.transfer add_word sub_word accrued_pool
liquidated = (refl, refl, refl)

liquidate-Unhealthy_example :
    Post
      (λ _ _.
        (pay_pool : Pool) × (get_pool : Pool) × (u : State Ledger.State) × (v : State Ledger.State)
        × (has : Valued runtime v 1) × IsCurrent runtime sunk 1 pay_pool
        × IsCurrent runtime sunk 0 get_pool
        × (accrue_supply_with_interest runtime get_pool 0 1 sunk ≡ ok tt u)
        × (accrue_debt_with_interest runtime pay_pool 1 1 u ≡ ok tt v)
        × (has.converted < required runtime v has.borrowed))
      Anything
      (liquidate runtime (signed 2) 1 1 0 50 sunk)
liquidate-Unhealthy_example = liquidate-Unhealthy runtime (signed 2) 1 1 0 50 sunk
