-- ===== src/Lending/Interest.antt =====
-- pallets/lending/src/lib.rs: the interest rates, and the accrual of a pool's interest. `none`
-- is a panic.
use konomi_node.Base.{
  ℕ, Bool, Option, some, ◌==◌, if◌then◌else◌, add_word, sub_word, u32_size, u128_size,
}
use konomi_node.Base.Panic.{◌>>=◌}
use konomi_node.FixedPoint.{FixedPoint}
use konomi_node.Lending.State.{Pool}

module _ (fixed : FixedPoint) where
  open fixed use {
    zero_value, one_value, add, mul, saturating_mul_int, saturating_from_rational,
    saturating_from_integer,
  }

  unfoldable pub debt_rate_internal : Pool → Option ℕ
  debt_rate_internal pool = if pool.supply == 0 then some pool.initial_interest_rate else (do
    utilization_ratio ← saturating_from_rational pool.debt pool.supply
    slope ← mul pool.utilization_factor utilization_ratio
    add pool.initial_interest_rate slope)

  unfoldable pub supply_rate_internal : Pool → Option ℕ
  supply_rate_internal pool = if pool.supply == 0 then some zero_value else (do
    utilization_ratio ← saturating_from_rational pool.debt pool.supply
    rate ← debt_rate_internal pool
    mul rate utilization_ratio)

  -- `FixedU128::one() + rate * FixedU128::saturating_from_integer(elapsed)`
  unfoldable pub multiplier : ℕ → ℕ → Option ℕ
  multiplier rate elapsed = do
    interest ← mul rate (saturating_from_integer elapsed)
    add one_value interest

  -- The factors by which supply and debt grow from the last update to block `now`.
  unfoldable pub supply_multiplier : Bool → ℕ → Pool → Option ℕ
  supply_multiplier checks now pool = do
    elapsed ← sub_word u32_size checks now pool.last_updated
    rate ← supply_rate_internal pool
    multiplier rate elapsed

  unfoldable pub debt_multiplier : Bool → ℕ → Pool → Option ℕ
  debt_multiplier checks now pool = do
    elapsed ← sub_word u32_size checks now pool.last_updated
    rate ← debt_rate_internal pool
    multiplier rate elapsed

  unfoldable pub accrue_interest : Bool → ℕ → Pool → Option Pool
  accrue_interest checks now pool = if pool.last_updated == now then some pool else (do
    by_supply ← supply_multiplier checks now pool
    by_debt ← debt_multiplier checks now pool
    supply_index ← mul pool.total_supply_index by_supply
    debt_index ← mul pool.total_debt_index by_debt
    some (record pool {
      supply = saturating_mul_int by_supply pool.supply;
      total_supply_index = supply_index;
      debt = saturating_mul_int by_debt pool.debt;
      total_debt_index = debt_index;
      last_updated = now;
    }))

-- `fn update_pool_supply` and `fn update_pool_debt`
unfoldable pub update_pool_supply : Bool → Pool → ℕ → Bool → Option Pool
update_pool_supply checks pool amount positive = do
  supply ←
      if positive
      then add_word u128_size checks pool.supply amount
      else sub_word u128_size checks pool.supply amount
  some (record pool { supply = supply })

unfoldable pub update_pool_debt : Bool → Pool → ℕ → Bool → Option Pool
update_pool_debt checks pool amount positive = do
  debt ←
      if positive
      then add_word u128_size checks pool.debt amount
      else sub_word u128_size checks pool.debt amount
  some (record pool { debt = debt })
