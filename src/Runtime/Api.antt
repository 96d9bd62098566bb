-- ===== src/Runtime/Api.antt =====
-- runtime/src/lib.rs: the runtime APIs of the swap and lending pallets. `none` is a panic.
-- `saturated_into` is sp_arithmetic's conversion of a u128 to a u64, a parameter.
use konomi_node.Base.{ℕ, Option, some, ◌<◌, ◌≤◌, ◌≡◌, ◌-◌, u64_size}
use konomi_node.Base.Panic.{◌>>=◌}
use konomi_node.Lending.Info as Lending
use konomi_node.Swap.Pricing as Swap
use konomi_node.Runtime.State.{Chain, Platform, lending, exchange}
use konomi_node.Runtime.Calls.{lending_config, swap_config}

-- What is relied on of the conversion: a number in range is kept, another becomes the largest.
pub record Saturates (into : ℕ → ℕ) : Type 0 where
  pub keeps : (n : ℕ) → n < u64_size → into n ≡ n
  pub caps : (n : ℕ) → u64_size ≤ n → into n ≡ u64_size - 1

module _ (p : Platform) where
  unfoldable pub calculate_output : ℕ → ℕ → ℕ → Chain → Option ℕ
  calculate_output in_id out_id amount_in c =
      Swap.calculate_output (swap_config p) in_id out_id amount_in (exchange c)

  unfoldable pub supply_rate : ℕ → Chain → Option ℕ
  supply_rate id c = Lending.supply_rate (lending_config p) id (lending c)

  unfoldable pub debt_rate : ℕ → Chain → Option ℕ
  debt_rate id c = Lending.debt_rate (lending_config p) id (lending c)

  unfoldable pub get_user_info : (ℕ → ℕ) → ℕ → Chain → Option (ℕ × ℕ × ℕ)
  get_user_info saturated_into user c = do
    info ← Lending.get_user_info (lending_config p) user (lending c)
    some (saturated_into info.0, saturated_into info.1, saturated_into info.2)

  unfoldable pub get_user_debt_with_interest : ℕ → ℕ → Chain → Option ℕ
  get_user_debt_with_interest asset_id user c =
      Lending.get_user_debt_with_interest (lending_config p) asset_id user (lending c)

  unfoldable pub get_user_supply_with_interest : ℕ → ℕ → Chain → Option ℕ
  get_user_supply_with_interest asset_id user c =
      Lending.get_user_supply_with_interest (lending_config p) asset_id user (lending c)
