-- ===== src/Node/Launch.antt =====
-- node/src/command.rs and node/src/chain_spec.rs: the chains that the node knows can be started.
use Prim.Native.String.{String}
use text.Mathlib.Text.{◌==◌}
use konomi_node.Base.{
  ℕ, ◌≡◌, refl, subst, true, Bool-cases, inl, inr, List, [], ◌∷◌, Option, some, none, ◌||◌, ◌^◌, ok,
  after, arith, length,
}
use konomi_node.Assets.Genesis.{AreBalances}
use konomi_node.Lending.Opening.{Divides, AreOpen}
use konomi_node.Runtime.State.{Chain, Platform}
use konomi_node.Runtime.Genesis.{GenesisConfig, configured, build}
use konomi_node.Runtime.Birth.{genesis-IsSound}
use konomi_node.Runtime.Launch.{build_ends}
use konomi_node.Runtime.Sound.{IsSound}
use konomi_node.Node.ChainSpec.{
  Keys, ChainSpec, testnet_genesis, development_config, local_testnet_config,
}
use konomi_node.Node.Command.{load_spec}

-- What a chain starts with: a sound state, with five assets and their pools.
pub record Launched (p : Platform) (g : GenesisConfig) : Type 0 where
  pub first : Chain
  pub built : build p g (configured p g) ≡ ok tt first
  pub sound : IsSound first
  pub assets : first.assets.next_asset_id ≡ 5
  pub pools : AreOpen (0 ∷ 1 ∷ 2 ∷ 3 ∷ 4 ∷ []) first.pools

module _ (keys : Keys) (p : Platform) (checked : p.checks ≡ true) (divides : Divides p.fixed) where
  launches :
      (g : GenesisConfig)
      → AreBalances g.assets
      → length g.assets ≡ 5
      → g.lending_pools ≡ 0 ∷ 1 ∷ 2 ∷ 3 ∷ 4 ∷ []
      → Launched p g
  launches g typed five listed =
      let (c, built, count, filled, opened) = build_ends p divides g typed (omega arith) in
      record {
        first = c;
        built = built;
        sound =
            subst (λ o. IsSound (after (configured p g) o)) built
              (genesis-IsSound p checked g typed);
        assets = omega arith;
        pools = subst (λ l. AreOpen l c.pools) listed opened;
      }

  five_balances :
      (who : ℕ)
      → AreBalances (
          (who, 10 ^ 18, 100)
          ∷ (who, 10 ^ 18, 60)
          ∷ (who, 10 ^ 18, 5)
          ∷ (who, 10 ^ 18, 600)
          ∷ (who, 10 ^ 18, 20_000)
          ∷ [])
  five_balances who = (omega arith, (omega arith, (omega arith, (omega arith, (omega arith, tt)))))

  AllLaunched : Option ChainSpec → Type 0
  AllLaunched none = Unit {0}
  AllLaunched (some spec) = Launched p spec.genesis

  development_launches : (wasm : Option (List ℕ)) → AllLaunched (development_config keys wasm)
  unfolding AllLaunched development_config testnet_genesis
  development_launches none = tt
  development_launches (some wasm) = launches _ (five_balances (keys.account_id "Alice")) refl refl

  local_launches : (wasm : Option (List ℕ)) → AllLaunched (local_testnet_config keys wasm)
  unfolding AllLaunched local_testnet_config testnet_genesis
  local_launches none = tt
  local_launches (some wasm) = launches _ (five_balances (keys.account_id "Alice")) refl refl

  -- With overflow checks: a chain specification that the node loads by one of the names that it
  -- knows, "dev", "local" and the empty one, has a genesis build that succeeds, in a sound state
  -- with five assets and an enabled, empty pool for each.
  pub load_spec_launches :
      (wasm_binary : Option (List ℕ)) (from_json_file : String → Option ChainSpec) (id : String)
      (spec : ChainSpec)
      → (id == "dev" || id == "" || id == "local") ≡ true
      → load_spec keys wasm_binary from_json_file id ≡ some spec
      → Launched p spec.genesis
  unfolding load_spec AllLaunched
  load_spec_launches wasm from_json_file id spec known h = elim (Bool-cases (id == "dev")) [
    | inl e ↦
        let same : development_config keys wasm ≡ some spec = ground (arith, e, h) in
        subst AllLaunched same (development_launches wasm)
    | inr e ↦
        let same : local_testnet_config keys wasm ≡ some spec = ground (arith, e, h, known) in
        subst AllLaunched same (local_launches wasm)
  ]
