-- ===== src/Swap/Unpaid.antt =====
-- pallets/swap/src/lib.rs: a swap whose input the caller does not have.
use konomi_node.Base.{
  ℕ, ◌+◌, ◌≤◌, ◌<◌, ◌≡◌, ◌≢◌, sym, ◌∷◌, Bool, arith, after, ok, add_word, sub_word, u128_size,
}
use konomi_node.Assets.Calls as Assets
use konomi_node.Swap.State.{Exchange, Config, transfer, reserve_changed, assets_swapped}
use konomi_node.Swap.Exchange.{inherent_asset_to_paired_asset_with_exact_input, report_reserves}
use konomi_node.Swap.Pricing.{calc_paired_asset_output_amount}

module _ (checks : Bool) (from id to amount : ℕ) (s : Exchange) where
  -- A transfer of more than the sender has is dropped.
  transfer_refused :
      0 < amount
      → s.assets.balances id from < amount
      → transfer checks from id to amount s ≡ ok tt s
  unfolding transfer Assets.transfer
  transfer_refused pos poor = ground arith

  -- What a transfer that is paid leaves of the two balances, and of all others.
  transfer_paid :
      from ≢ to
      → 0 < amount
      → amount ≤ s.assets.balances id from
      → s.assets.balances id to + amount < u128_size
      → (u : Exchange) × (transfer checks from id to amount s ≡ ok tt u)
        × (u.assets.balances id to ≡ s.assets.balances id to + amount)
        × (u.assets.inherent_asset ≡ s.assets.inherent_asset)
        × ((j k : ℕ) → (j ≢ id) → u.assets.balances j k ≡ s.assets.balances j k)
  unfolding transfer Assets.transfer add_word sub_word
  transfer_paid apart pos enough fits = (
    after s (transfer checks from id to amount s),
    ground arith,
    ground arith,
    ground arith,
    λ j k ne. ground arith,
  )

module _ (t : Config) where
  -- Where the pool quotes an output of the paired asset that it can pay, and that the recipient,
  -- not the pool, can hold: the swap of an input of the inherent asset that the caller does not
  -- have succeeds, the recipient is paid the output in full, and the caller pays nothing.
  pub swap_unpaid :
      (input output paired amount min_output fee_rate out : ℕ) (s : Exchange)
      → let inherent = s.assets.inherent_asset in
        let address = t.make_exchange_address inherent paired in
        calc_paired_asset_output_amount t paired amount fee_rate s ≡ ok out s
        → paired ≢ inherent
        → output ≢ address
        → 0 < amount
        → s.assets.balances inherent input < amount
        → 0 < out
        → out ≤ s.assets.balances paired address
        → s.assets.balances paired output + out < u128_size
        → (u : Exchange) × (inherent_asset_to_paired_asset_with_exact_input t input output paired
              amount min_output fee_rate s
            ≡ ok out u)
          × (u.assets.balances paired output ≡ s.assets.balances paired output + out)
          × (u.assets.balances inherent input ≡ s.assets.balances inherent input)
  unfolding inherent_asset_to_paired_asset_with_exact_input report_reserves
  swap_unpaid input output paired amount min_output fee_rate out s quoted other apart pos poor
        some_out enough fits =
      let address = t.make_exchange_address s.assets.inherent_asset paired in
      let unpaid =
        transfer_refused t.checks input s.assets.inherent_asset address amount s pos poor in
      let (u, moved, got, same, kept) =
        transfer_paid t.checks address paired output out s (λ e. apart (sym e)) some_out enough
          fits in
      (
        record u {
          events =
              reserve_changed u.assets.inherent_asset
                (u.assets.balances u.assets.inherent_asset address)
              ∷ reserve_changed paired (u.assets.balances paired address)
              ∷ assets_swapped input u.assets.inherent_asset amount paired out
              ∷ u.events;
        },
        ground (arith, quoted, unpaid, moved, same),
        got,
        kept s.assets.inherent_asset input (λ e. other (sym e)),
      )
