-- ===== src/Lending/Seizure.antt =====
-- pallets/lending/src/lib.rs: the amounts of a liquidation, step 4 of `liquidate`. `none` is a
-- panic.
use konomi_node.Base.{ℕ, Option, some}
use konomi_node.Base.Panic.{◌>>=◌}
use konomi_node.FixedPoint.{FixedPoint}
use konomi_node.Lending.State.{Pool}

module _ (fixed : FixedPoint) where
  open fixed use {mul, div, saturating_mul_int}

  -- Step 4: the most that the arbitrager may pay, from the supply that may be seized.
  unfoldable pub pay_limit : Pool → ℕ → ℕ → ℕ → Option ℕ
  pay_limit get_pool get_price pay_price supply = do
    let get_limit = saturating_mul_int get_pool.close_factor supply
    relative ← div get_price pay_price
    discounted ← mul relative get_pool.discount_factor
    some (saturating_mul_int discounted get_limit)

  -- What the arbitrager gets for the amount paid.
  unfoldable pub get_amount : Pool → ℕ → ℕ → ℕ → Option ℕ
  get_amount get_pool get_price pay_price paid = do
    relative ← div pay_price get_price
    bonus ← div relative get_pool.discount_factor
    some (saturating_mul_int bonus paid)
