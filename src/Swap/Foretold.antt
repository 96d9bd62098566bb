-- ===== src/Swap/Foretold.antt =====
-- pallets/swap/src/lib.rs: the quote of the runtime API, and the swaps with an exact input.
use konomi_node.Base.{ℕ, ◌+◌, ◌≤◌, ◌<◌, ◌≡◌, ◌≢◌, true, none, some, ok, arith, u128_size}
use konomi_node.Swap.Paid.{Traded, swap_inherent}
use konomi_node.Swap.State.{Exchange, Config}
use konomi_node.Swap.Pricing.{
  calculate_output, calc_paired_asset_output_amount, calc_inherent_asset_output_amount,
  calc_output_at_known_input,
}
use konomi_node.Swap.Exchange.{inherent_asset_to_paired_asset_with_exact_input}

module _ (t : Config) (s : Exchange) where
  quoted :
      (paired amount fee_rate out : ℕ)
      → paired ≢ s.assets.inherent_asset
      → calculate_output t s.assets.inherent_asset paired amount s ≡ some out
      → calc_paired_asset_output_amount t paired amount fee_rate s ≡ ok out s
  unfolding calculate_output calc_paired_asset_output_amount calc_output_at_known_input
  quoted paired amount fee_rate out other h = ground (arith, h)

  -- Where the build has overflow checks, and the runtime API quotes an output for an amount of the
  -- inherent asset that the caller has, and neither the caller nor the recipient is the pool, and
  -- the balances that grow stay in range: a swap of the amount on the same state, whatever its fee
  -- rate and its limit, succeeds, returns the quote, pays the recipient exactly the quote out of
  -- the pool and charges the caller exactly the amount.
  pub swap_inherent_foretold :
      (caller recipient paired amount limit fee_rate out : ℕ)
      → let inherent = s.assets.inherent_asset in
        let address = t.make_exchange_address inherent paired in
        t.checks ≡ true
        → calculate_output t inherent paired amount s ≡ some out
        → paired ≢ inherent
        → caller ≢ address
        → recipient ≢ address
        → 0 < amount
        → amount ≤ s.assets.balances inherent caller
        → s.assets.balances inherent caller + s.assets.balances inherent address < u128_size
        → s.assets.balances paired recipient + s.assets.balances paired address < u128_size
        → (u : Exchange) × (inherent_asset_to_paired_asset_with_exact_input t caller recipient
              paired amount limit fee_rate s
            ≡ ok out u)
          × Traded inherent paired caller recipient address amount out s u
  swap_inherent_foretold caller recipient paired amount limit fee_rate out checked h other apart
        apart' pos has fits fits' =
      let (u, e, traded, _) =
        swap_inherent t checked caller recipient paired amount limit fee_rate out s
          (quoted paired amount fee_rate out other h) other apart apart' pos has fits fits' in
      (u, e, traded)

  -- For an amount of any other asset to be swapped for the inherent one, the runtime API panics
  -- while the exchange account of the inherent asset with itself holds none of it: the quote looks
  -- for the pool of the asset that is paid out.
  pub calculate_output_panics :
      (paired amount : ℕ)
      → let inherent = s.assets.inherent_asset in
        paired ≢ inherent
        → s.assets.balances inherent (t.make_exchange_address inherent inherent) ≡ 0
        → calculate_output t paired inherent amount s ≡ none
  unfolding calculate_output calc_inherent_asset_output_amount calc_output_at_known_input
  calculate_output_panics paired amount other empty = ground (arith, empty)
