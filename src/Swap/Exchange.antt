-- ===== src/Swap/Exchange.antt =====
-- pallets/swap/src/lib.rs: the six ways to swap. The limits `min_output_amount` and
-- `max_input_amount` are parameters that the code does not look at.
use konomi_node.Base.{ℕ, ◌>>=◌, ◌>>◌, pure}
use konomi_node.Swap.State.{
  Config, Call, assets_swapped, reserve_changed, deposit_event, inherent_asset_id, balance,
  transfer,
}
use konomi_node.Swap.Pricing.{
  calc_inherent_asset_input_amount, calc_inherent_asset_output_amount,
  calc_paired_asset_input_amount, calc_paired_asset_output_amount,
}

-- The events about the reserves of a pool: of `first`, then of `second`.
unfoldable pub report_reserves : ℕ → ℕ → ℕ → Call (Unit {0})
report_reserves address first second = do
  first_balance ← balance first address
  deposit_event (reserve_changed first first_balance)
  second_balance ← balance second address
  deposit_event (reserve_changed second second_balance)

module _ (t : Config) where
  open t use {checks, make_exchange_address}

  unfoldable pub inherent_asset_to_paired_asset_with_exact_input : ℕ → ℕ → ℕ → ℕ → ℕ → ℕ → Call ℕ
  unfolding report_reserves
  inherent_asset_to_paired_asset_with_exact_input input output paired amount min_output fee_rate =
      do
        out ← calc_paired_asset_output_amount t paired amount fee_rate
        inherent ← inherent_asset_id
        let address = make_exchange_address inherent paired
        transfer checks input inherent address amount
        transfer checks address paired output out
        deposit_event (assets_swapped input inherent amount paired out)
        report_reserves address paired inherent
        pure out

  unfoldable pub inherent_asset_to_paired_asset_with_exact_output : ℕ → ℕ → ℕ → ℕ → ℕ → ℕ → Call ℕ
  unfolding report_reserves
  inherent_asset_to_paired_asset_with_exact_output input output paired amount max_input fee_rate =
      do
        cost ← calc_inherent_asset_input_amount t paired amount fee_rate
        inherent ← inherent_asset_id
        let address = make_exchange_address inherent paired
        transfer checks input inherent address cost
        transfer checks address paired output amount
        deposit_event (assets_swapped input inherent cost paired amount)
        report_reserves address paired inherent
        pure cost

  unfoldable pub paired_asset_to_inherent_asset_with_exact_input : ℕ → ℕ → ℕ → ℕ → ℕ → ℕ → Call ℕ
  unfolding report_reserves
  paired_asset_to_inherent_asset_with_exact_input input output paired amount min_output fee_rate =
      do
        out ← calc_inherent_asset_output_amount t paired amount fee_rate
        inherent ← inherent_asset_id
        let address = make_exchange_address inherent paired
        transfer checks input paired address amount
        transfer checks address inherent output out
        deposit_event (assets_swapped input paired amount inherent out)
        report_reserves address paired inherent
        pure out

  unfoldable pub paired_asset_to_inherent_asset_with_exact_output : ℕ → ℕ → ℕ → ℕ → ℕ → ℕ → Call ℕ
  unfolding report_reserves
  paired_asset_to_inherent_asset_with_exact_output input output paired amount max_input fee_rate =
      do
        cost ← calc_paired_asset_input_amount t paired amount fee_rate
        inherent ← inherent_asset_id
        let address = make_exchange_address inherent paired
        transfer checks input paired address cost
        transfer checks address inherent output amount
        deposit_event (assets_swapped input paired cost inherent amount)
        report_reserves address paired inherent
        pure cost

  unfoldable pub asset_a_to_asset_b_with_exact_input : ℕ → ℕ → ℕ → ℕ → ℕ → ℕ → ℕ → Call ℕ
  unfolding report_reserves
  asset_a_to_asset_b_with_exact_input input output asset_a asset_b amount min_output fee_rate = do
    inherent ← inherent_asset_id
    let address_a = make_exchange_address inherent asset_a
    let address_b = make_exchange_address inherent asset_b
    between ← calc_inherent_asset_output_amount t asset_a amount fee_rate
    out ← calc_paired_asset_output_amount t asset_b between fee_rate
    transfer checks input asset_a address_a amount
    transfer checks address_a inherent address_b between
    transfer checks address_b asset_b output out
    deposit_event (assets_swapped input asset_a amount asset_b out)
    report_reserves address_a asset_a inherent
    report_reserves address_b asset_b inherent
    pure out

  unfoldable pub asset_a_to_asset_b_with_exact_output : ℕ → ℕ → ℕ → ℕ → ℕ → ℕ → ℕ → Call ℕ
  unfolding report_reserves
  asset_a_to_asset_b_with_exact_output input output asset_a asset_b amount max_input fee_rate = do
    inherent ← inherent_asset_id
    let address_a = make_exchange_address inherent asset_a
    let address_b = make_exchange_address inherent asset_b
    between ← calc_inherent_asset_input_amount t asset_b amount fee_rate
    cost ← calc_paired_asset_input_amount t asset_a between fee_rate
    transfer checks input asset_a address_a cost
    transfer checks address_a inherent address_b between
    transfer checks address_b asset_b output amount
    deposit_event (assets_swapped input asset_a cost asset_b amount)
    report_reserves address_a asset_a inherent
    report_reserves address_b asset_b inherent
    pure cost
