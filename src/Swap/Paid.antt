-- ===== src/Swap/Paid.antt =====
-- pallets/swap/src/lib.rs: a swap with an exact input that the caller has.
use konomi_node.Base.{
  ℕ, ◌+◌, ◌-◌, ◌*◌, ◌≤◌, ◌<◌, ◌≡◌, ◌≢◌, refl, sym, ◌∷◌, Bool, true, arith, ok, u128_size,
  ℕ_discrete,
}
use konomi_node.Assets.Transfer.{moved, transfer_moves, transfer_zero}
use konomi_node.Swap.State.{Exchange, Config, transfer, reserve_changed, assets_swapped}
use konomi_node.Swap.Exchange.{
  inherent_asset_to_paired_asset_with_exact_input, paired_asset_to_inherent_asset_with_exact_input,
  report_reserves,
}
use konomi_node.Swap.Pricing.{
  calc_paired_asset_output_amount, calc_inherent_asset_output_amount, calc_output_at_known_input,
}
use konomi_node.Swap.Product.{calc_output-keeps_product}

module _ (checks : Bool) (from id to amount : ℕ) (s : Exchange) where
  pub transfer-moved :
      amount ≢ 0
      → amount ≤ s.assets.balances id from
      → s.assets.balances id from + s.assets.balances id to < u128_size
      → transfer checks from id to amount s
        ≡ ok tt (record s { assets = moved from id to amount s.assets })
  unfolding transfer
  transfer-moved nz enough fits =
      rw
        (
          transfer,
          transfer_moves checks from id to amount s.assets nz enough (omega arith) (λ _. fits),
        )
        refl

  pub transfer-nothing : amount ≡ 0 → transfer checks from id to amount s ≡ ok tt s
  unfolding transfer
  transfer-nothing z = rw (transfer, transfer_zero checks from id to amount s.assets z) refl

-- What two transfers of a swap make of an exchange: the caller pays the pool `amount` of `i`, and
-- the pool pays the recipient `out` of `o`.
pub record Traded (i o caller recipient address amount out : ℕ) (s u : Exchange) : Type 0 where
  pub paid : u.assets.balances i address ≡ s.assets.balances i address + amount
  pub charged : u.assets.balances i caller ≡ s.assets.balances i caller - amount
  pub handed : u.assets.balances o recipient ≡ s.assets.balances o recipient + out
  pub left : u.assets.balances o address ≡ s.assets.balances o address - out
  pub settings : u.assets.inherent_asset ≡ s.assets.inherent_asset

module _ (checks : Bool) (i o caller recipient address amount out : ℕ) (s : Exchange)
    (other : i ≢ o) (apart : caller ≢ address) (apart' : recipient ≢ address) (nz : amount ≢ 0)
    (has : amount ≤ s.assets.balances i caller) (enough : out ≤ s.assets.balances o address)
    (fits : s.assets.balances i caller + s.assets.balances i address < u128_size)
    (fits' : s.assets.balances o recipient + s.assets.balances o address < u128_size) where
  trade :
      (v : Exchange) × (u : Exchange) × (transfer checks caller i address amount s ≡ ok tt v)
      × (transfer checks address o recipient out v ≡ ok tt u)
      × Traded i o caller recipient address amount out s u
  trade =
      let v : Exchange = record s { assets = moved caller i address amount s.assets } in
      let first = transfer-moved checks caller i address amount s nz has fits in
      elim (ℕ_discrete out 0) [
        | yes z ↦ (
          v,
          v,
          first,
          transfer-nothing checks address o recipient out v z,
          record {
            paid = ground arith;
            charged = ground arith;
            handed = ground arith;
            left = ground arith;
            settings = refl;
          },
        )
        | no pos ↦ (
          v,
          record v { assets = moved address o recipient out v.assets },
          first,
          transfer-moved checks address o recipient out v pos (ground arith) (ground arith),
          record {
            paid = ground arith;
            charged = ground arith;
            handed = ground arith;
            left = ground arith;
            settings = refl;
          },
        )
      ]

module _ (t : Config) (checked : t.checks ≡ true) (caller recipient paired amount limit : ℕ)
    (fee_rate out : ℕ) (s : Exchange) where
  abbrev inherent : ℕ
  inherent = s.assets.inherent_asset

  abbrev address : ℕ
  address = t.make_exchange_address inherent paired

  quoted_parts :
      calc_paired_asset_output_amount t paired amount fee_rate s ≡ ok out s
      → calc_output_at_known_input t amount
          (s.assets.balances inherent address)
          (s.assets.balances paired address)
          fee_rate
          s
        ≡ ok out s
  unfolding calc_paired_asset_output_amount
  quoted_parts h = h

  -- Where the build has overflow checks, and the pool quotes an output for an amount of the
  -- inherent asset that the caller has, and neither the caller nor the recipient is the pool, and
  -- the balances that grow stay in range: the swap succeeds, the caller is charged the amount and
  -- the recipient paid the output, both from and to the pool, and the product of the pool's two
  -- balances does not fall.
  pub swap_inherent :
      calc_paired_asset_output_amount t paired amount fee_rate s ≡ ok out s
      → paired ≢ inherent
      → caller ≢ address
      → recipient ≢ address
      → 0 < amount
      → amount ≤ s.assets.balances inherent caller
      → s.assets.balances inherent caller + s.assets.balances inherent address < u128_size
      → s.assets.balances paired recipient + s.assets.balances paired address < u128_size
      → (u : Exchange) × (inherent_asset_to_paired_asset_with_exact_input t caller recipient paired
            amount limit fee_rate s
          ≡ ok out u)
        × Traded inherent paired caller recipient address amount out s u
        × (s.assets.balances inherent address * s.assets.balances paired address
            ≤ u.assets.balances inherent address * u.assets.balances paired address)
  unfolding inherent_asset_to_paired_asset_with_exact_input report_reserves
  swap_inherent quoted other apart apart' pos has fits fits' =
      let (less, product, best, same) =
        calc_output-keeps_product t amount (s.assets.balances inherent address)
          (s.assets.balances paired address) fee_rate s checked (quoted_parts quoted) in
      let (v, u, first, second, traded) =
        trade t.checks inherent paired caller recipient address amount out s (λ e. other (sym e))
          apart apart' (omega arith) has (omega arith) fits fits' in
      (
        record u {
          events =
              reserve_changed u.assets.inherent_asset
                (u.assets.balances u.assets.inherent_asset address)
              ∷ reserve_changed paired (u.assets.balances paired address)
              ∷ assets_swapped caller inherent amount paired out
              ∷ u.events;
        },
        ground (arith, quoted, first, second, traded.settings),
        record {
          paid = traded.paid;
          charged = traded.charged;
          handed = traded.handed;
          left = traded.left;
          settings = traded.settings;
        },
        rw (traded.paid, traded.left) product,
      )

  quoted_inherent_parts :
      calc_inherent_asset_output_amount t paired amount fee_rate s ≡ ok out s
      → calc_output_at_known_input t amount
          (s.assets.balances paired address)
          (s.assets.balances inherent address)
          fee_rate
          s
        ≡ ok out s
  unfolding calc_inherent_asset_output_amount
  quoted_inherent_parts h = h

  -- Where the build has overflow checks, and the pool quotes an output for an amount of the
  -- paired asset that the caller has, and neither the caller nor the recipient is the pool, and
  -- the balances that grow stay in range: the swap succeeds, the caller is charged the amount and
  -- the recipient paid the output in the inherent asset, both from and to the pool, and the
  -- product of the pool's two balances does not fall.
  pub swap_paired :
      calc_inherent_asset_output_amount t paired amount fee_rate s ≡ ok out s
      → paired ≢ inherent
      → caller ≢ address
      → recipient ≢ address
      → 0 < amount
      → amount ≤ s.assets.balances paired caller
      → s.assets.balances paired caller + s.assets.balances paired address < u128_size
      → s.assets.balances inherent recipient + s.assets.balances inherent address < u128_size
      → (u : Exchange) × (paired_asset_to_inherent_asset_with_exact_input t caller recipient paired
            amount limit fee_rate s
          ≡ ok out u)
        × Traded paired inherent caller recipient address amount out s u
        × (s.assets.balances paired address * s.assets.balances inherent address
            ≤ u.assets.balances paired address * u.assets.balances inherent address)
  unfolding paired_asset_to_inherent_asset_with_exact_input report_reserves
  swap_paired quoted other apart apart' pos has fits fits' =
      let (less, product, best, same) =
        calc_output-keeps_product t amount (s.assets.balances paired address)
          (s.assets.balances inherent address) fee_rate s checked (quoted_inherent_parts quoted) in
      let (v, u, first, second, traded) =
        trade t.checks paired inherent caller recipient address amount out s other apart apart'
          (omega arith) has (omega arith) fits fits' in
      (
        record u {
          events =
              reserve_changed u.assets.inherent_asset
                (u.assets.balances u.assets.inherent_asset address)
              ∷ reserve_changed paired (u.assets.balances paired address)
              ∷ assets_swapped caller paired amount inherent out
              ∷ u.events;
        },
        ground (arith, quoted, first, second, traded.settings),
        record {
          paid = traded.paid;
          charged = traded.charged;
          handed = traded.handed;
          left = traded.left;
          settings = traded.settings;
        },
        rw (traded.paid, traded.left) product,
      )
