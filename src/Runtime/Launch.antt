-- ===== src/Runtime/Launch.antt =====
-- runtime/src/lib.rs: the genesis build ends, with the configured assets and pools.
use konomi_node.Base.{◌<◌, ◌≡◌, refl, ok, arith, length, u64_size}
use konomi_node.Assets.Genesis.{IsFresh, AreBalances, AreConfigured, genesis_lem}
use konomi_node.Lending.Opening.{Divides, AreOpen, genesis_opens}
use konomi_node.Runtime.State.{Chain, Platform, lending, put_assets, put_lending}
use konomi_node.Runtime.Calls.{lending_config, on_part}
use konomi_node.Runtime.Genesis.{GenesisConfig, configured, build}

module _ (p : Platform) (divides : Divides p.fixed) where
  -- For every genesis configuration with at most as many assets as there are identifiers, whose
  -- supplies are balances: the build succeeds, the assets have the identifiers from 0 on, with
  -- the configured supplies and prices, and each configured pool is enabled and empty.
  pub build_ends :
      (g : GenesisConfig)
      → AreBalances g.assets
      → length g.assets < u64_size
      → (c : Chain) × (build p g (configured p g) ≡ ok tt c)
        × (c.assets.next_asset_id ≡ length g.assets)
        × AreConfigured p.fixed g.assets 0 c.assets
        × AreOpen g.lending_pools c.pools
  unfolding build on_part
  build_ends g typed room =
      let start = configured p g in
      let fresh : IsFresh start.assets = record { at = λ id who le. refl } in
      let (a, first, count, filled, kept) =
        genesis_lem p.checks p.fixed g.assets start.assets fresh (omega arith) typed in
      let c = put_assets start a in
      let (s, rest, opened, keeps, same) =
        genesis_opens (lending_config p) divides g.lending_pools (lending c) in
      (put_lending c s, ground (arith, first, rest), rw same (omega arith), rw same filled, opened)
