-- ===== src/Swap/Calls.antt =====
-- pallets/swap/src/lib.rs: the dispatchable calls.
use konomi_node.Base.{ℕ, Origin, ◌>>=◌, ◌>>◌, pure, gets, modify, ok_or, ◌==◌, if◌then◌else◌}
use konomi_node.Swap.State.{
  Config, Call, bad_origin, liquidity_added, liquidity_removed, deposit_event, inherent_asset_id,
}
use konomi_node.Swap.Exchange.{
  inherent_asset_to_paired_asset_with_exact_input, inherent_asset_to_paired_asset_with_exact_output,
  paired_asset_to_inherent_asset_with_exact_input, paired_asset_to_inherent_asset_with_exact_output,
  asset_a_to_asset_b_with_exact_input, asset_a_to_asset_b_with_exact_output,
}
use konomi_node.Swap.Liquidity.{inject_liquidity, take_liquidity}

-- The origin is not looked at.
unfoldable pub set_fee_rate : Origin → ℕ → Call (Unit {0})
set_fee_rate origin fee_rate = modify (λ s. record s { fee_rate = fee_rate })

module _ (t : Config) where
  unfoldable pub swap_assets_with_exact_input : Origin → ℕ → ℕ → ℕ → ℕ → ℕ → Call (Unit {0})
  swap_assets_with_exact_input origin output asset_input asset_output amount min_output = do
    input ← ok_or origin.signed_by bad_origin
    inherent ← inherent_asset_id
    fee_rate ← gets (λ s. s.fee_rate)
    if asset_input == inherent
        then inherent_asset_to_paired_asset_with_exact_input t input output asset_output amount
            min_output fee_rate
        else if asset_output == inherent
        then paired_asset_to_inherent_asset_with_exact_input t input output asset_input amount
            min_output fee_rate
        else asset_a_to_asset_b_with_exact_input t input output asset_input asset_output amount
            min_output fee_rate
    pure tt

  unfoldable pub swap_assets_with_exact_output : Origin → ℕ → ℕ → ℕ → ℕ → ℕ → Call (Unit {0})
  swap_assets_with_exact_output origin output asset_input asset_output amount max_input = do
    input ← ok_or origin.signed_by bad_origin
    inherent ← inherent_asset_id
    fee_rate ← gets (λ s. s.fee_rate)
    if asset_input == inherent
        then inherent_asset_to_paired_asset_with_exact_output t input output asset_output amount
            max_input fee_rate
        else if asset_output == inherent
        then paired_asset_to_inherent_asset_with_exact_output t input output asset_input amount
            max_input fee_rate
        else asset_a_to_asset_b_with_exact_output t input output asset_input asset_output amount
            max_input fee_rate
    pure tt

  unfoldable pub add_liquidity : Origin → ℕ → ℕ → ℕ → ℕ → Call (Unit {0})
  add_liquidity origin asset_id inherent_amount asset_amount min_liquidity = do
    account ← ok_or origin.signed_by bad_origin
    inject_liquidity t account asset_id inherent_amount asset_amount min_liquidity
    deposit_event (liquidity_added account inherent_amount asset_id)

  unfoldable pub remove_liquidity : Origin → ℕ → ℕ → ℕ → ℕ → Call (Unit {0})
  remove_liquidity origin asset_id liquidity min_inherent_amount min_asset_amount = do
    account ← ok_or origin.signed_by bad_origin
    take_liquidity t account asset_id liquidity min_inherent_amount min_asset_amount
    deposit_event (liquidity_removed account liquidity asset_id)
