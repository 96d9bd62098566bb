-- ===== src/Swap/Pricing.antt =====
-- pallets/swap/src/lib.rs: the prices of the constant product, and their quotes for a pool. The
-- fee rate is passed along and not used.
use konomi_node.Base.{
  ℕ, ◌-◌, ◌||◌, Option, none, some, ok, err, panic, ◌>>=◌, pure, fail, or_panic, ◌==◌, leb,
  if◌then◌else◌, add_word, sub_word, mul_word, div_word, u128_size,
}
use konomi_node.Swap.State.{Exchange, Config, Call, empty_pool, inherent_asset_id, balance}

module _ (t : Config) where
  open t use {checks, make_exchange_address}

  unfoldable pub calc_output_at_known_input : ℕ → ℕ → ℕ → ℕ → Call ℕ
  calc_output_at_known_input input_amount input_part output_part fee_rate =
      if input_part == 0 || output_part == 0 then fail empty_pool else (do
        denominator ← or_panic (add_word u128_size checks input_amount input_part)
        product ← or_panic (mul_word u128_size checks output_part input_amount)
        or_panic (div_word product denominator))

  -- The quotient is computed and not returned: the code converts `output_volumn` instead.
  unfoldable pub calc_input_at_known_output : ℕ → ℕ → ℕ → ℕ → Call ℕ
  calc_input_at_known_output output_amount input_part output_part fee_rate =
      if input_part == 0 || output_part == 0
      then fail empty_pool
      else if leb output_part output_amount
      then pure (u128_size - 1)
      else (do
        denominator ← or_panic (sub_word u128_size checks output_part output_amount)
        product ← or_panic (mul_word u128_size checks input_part output_amount)
        input_volumn ← or_panic (div_word product denominator)
        pure output_amount)

  unfoldable pub calc_inherent_asset_input_amount : ℕ → ℕ → ℕ → Call ℕ
  calc_inherent_asset_input_amount asset_id amount fee_rate = do
    inherent ← inherent_asset_id
    let address = make_exchange_address inherent asset_id
    inherent_balance ← balance inherent address
    paired_balance ← balance asset_id address
    calc_input_at_known_output amount inherent_balance paired_balance fee_rate

  unfoldable pub calc_inherent_asset_output_amount : ℕ → ℕ → ℕ → Call ℕ
  calc_inherent_asset_output_amount asset_id amount fee_rate = do
    inherent ← inherent_asset_id
    let address = make_exchange_address inherent asset_id
    inherent_balance ← balance inherent address
    paired_balance ← balance asset_id address
    calc_output_at_known_input amount paired_balance inherent_balance fee_rate

  unfoldable pub calc_paired_asset_input_amount : ℕ → ℕ → ℕ → Call ℕ
  calc_paired_asset_input_amount asset_id amount fee_rate = do
    inherent ← inherent_asset_id
    let address = make_exchange_address inherent asset_id
    inherent_balance ← balance inherent address
    paired_balance ← balance asset_id address
    calc_input_at_known_output amount paired_balance inherent_balance fee_rate

  unfoldable pub calc_paired_asset_output_amount : ℕ → ℕ → ℕ → Call ℕ
  calc_paired_asset_output_amount asset_id amount fee_rate = do
    inherent ← inherent_asset_id
    let address = make_exchange_address inherent asset_id
    inherent_balance ← balance inherent address
    paired_balance ← balance asset_id address
    calc_output_at_known_input amount inherent_balance paired_balance fee_rate

  -- The quote of the runtime API; `unwrap` panics on an error.
  unfoldable pub calculate_output : ℕ → ℕ → ℕ → Exchange → Option ℕ
  calculate_output in_id out_id amount_in s =
      let quote =
        if in_id == s.assets.inherent_asset
        then calc_paired_asset_output_amount out_id amount_in s.fee_rate
        else calc_inherent_asset_output_amount out_id amount_in s.fee_rate in
      elim (quote s) [ ok out _ ↦ some out | err _ _ ↦ none | panic ↦ none ]
