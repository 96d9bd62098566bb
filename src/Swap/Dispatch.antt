-- ===== src/Swap/Dispatch.antt =====
-- pallets/swap/src/lib.rs: the pallet's `enum Call`.
use konomi_node.Base.{ℕ, ◌<◌, u64_size, u128_size, Origin}
use konomi_node.Swap.State.{Config, Call}
use konomi_node.Swap.Calls.{
  set_fee_rate, swap_assets_with_exact_input, swap_assets_with_exact_output, add_liquidity,
  remove_liquidity,
}

pub data Request : Type 0 where
  sets_fee_rate : Origin → ℕ → Request
  swaps_exact_input swaps_exact_output : Origin → ℕ → ℕ → ℕ → ℕ → ℕ → Request
  adds_liquidity removes_liquidity : Origin → ℕ → ℕ → ℕ → ℕ → Request

-- An amount of liquidity is made of a `Balance`, and a fee rate is a u64.
abbrev pub HasShares : Request → Type 0
HasShares (sets_fee_rate _ fee_rate) = fee_rate < u64_size
HasShares (adds_liquidity _ _ inherent_amount _ _) = inherent_amount < u128_size
HasShares _ = Unit {0}

module _ (t : Config) where
  unfoldable pub dispatch : Request → Call (Unit {0})
  dispatch (sets_fee_rate origin fee_rate) = set_fee_rate origin fee_rate
  dispatch (swaps_exact_input origin output asset_input asset_output amount min_output) =
      swap_assets_with_exact_input t origin output asset_input asset_output amount min_output
  dispatch (swaps_exact_output origin output asset_input asset_output amount max_input) =
      swap_assets_with_exact_output t origin output asset_input asset_output amount max_input
  dispatch (adds_liquidity origin asset_id inherent_amount asset_amount min_liquidity) =
      add_liquidity t origin asset_id inherent_amount asset_amount min_liquidity
  dispatch (removes_liquidity origin asset_id liquidity min_inherent_amount min_asset_amount) =
      remove_liquidity t origin asset_id liquidity min_inherent_amount min_asset_amount
