-- ===== src/Runtime/Birth.antt =====
-- runtime/src/lib.rs: the store that genesis builds is sound.
use konomi_node.Base.{
  Bool, ℕ, ◌<◌, ◌≡◌, refl, true, List, [], ◌∷◌, ok, err, panic, Outcome, Action, ignore_result,
  after, u128_size, u64_size, sub_word, arith,
}
use konomi_node.Base.Keeps.{
  Keeps, Keeps-after, Keeps-bind, Keeps-then, Keeps-gets, Keeps-or_panic, Ends, Keeps-trivial,
  keeps_rules,
}
use konomi_node.FixedPoint.{FixedPoint}
use konomi_node.Assets.State as AssetsState
use konomi_node.Assets.Genesis.{AreBalances}
use konomi_node.Assets.Holders.{IsHeld, issue_to-IsHeld, transfer-IsHeld}
use konomi_node.Assets.Calls as Assets
use konomi_node.Lending.State as LendingState
use konomi_node.Lending.Calls as Lending
use konomi_node.Lending.Ledger.{genesis-OnLedger}
use konomi_node.Lending.Sets.{SetsAgree}
use konomi_node.Runtime.State.{Chain, Platform, lending, exchange, put_assets, put_lending}
use konomi_node.Runtime.Calls.{Reach, lending_config}
use konomi_node.Runtime.Parts.{on_part-Keeps}
use konomi_node.Runtime.Held.{ChainIsHeld}
use konomi_node.Runtime.Sound.{IsSound, SetsAgree-else, IsShared-else, Reach-IsSound}
use konomi_node.Swap.Holders.{IsShared}
use konomi_node.Runtime.Genesis.{GenesisConfig, configured, build}

ignored-Ends :
    {E S A : Type 0} (F : Type 0) (P : S → Type 0) (o : Outcome E S A)
    → Ends P o
    → Ends P (elim o as (λ _. Outcome F S (Unit {0})) [
      | ok _ s ↦ ok tt s
      | err _ s ↦ ok tt s
      | panic ↦ panic
    ])
ignored-Ends F P (ok _ s) h = h
ignored-Ends F P (err _ s) h = h
ignored-Ends F P panic h = tt

ignore_result-Keeps :
    {E S A : Type 0} (F : Type 0) (P : S → Type 0) (m : Action E S A)
    → Keeps P m
    → Keeps {E = F} P (ignore_result m)
ignore_result-Keeps F P m k = record { at = λ s h. ignored-Ends F P (m s) (k.at s h) }

module _ (checks : Bool) (checked : checks ≡ true) (fixed : FixedPoint) where
  put_price-IsHeld : (id rate : ℕ) → Keeps IsHeld (Assets.put_price id rate)
  unfolding Assets.put_price
  put_price-IsHeld id rate = record {
    at = λ s (holders, distinct, b). (
      holders,
      distinct,
      record { backed = b.backed; elsewhere = b.elsewhere; fits = b.fits; unused = b.unused },
    );
  }

  asset-IsHeld :
      (account amount price : ℕ)
      → amount < u128_size
      → Keeps IsHeld (Assets.genesis_asset checks fixed (account, amount, price))
  unfolding Assets.genesis_asset
  asset-IsHeld account amount price small =
      Keeps-then _ _ (issue_to-IsHeld checks account amount checked small) (
        Keeps-bind _ _ (Keeps-gets (λ s. s.owner)) λ owner.
          Keeps-bind _ _ (Keeps-gets (λ s. s.next_asset_id)) λ following.
            Keeps-bind _ _ (Keeps-or_panic (sub_word u64_size checks following 1)) λ id.
              Keeps-then _ _
                (ignore_result-Keeps AssetsState.Error IsHeld _
                  (transfer-IsHeld checks account id owner 500000))
                (put_price-IsHeld id (fixed.saturating_from_integer price)))

  assets-IsHeld :
      (assets : List (ℕ × ℕ × ℕ))
      → AreBalances assets
      → Keeps IsHeld (Assets.genesis checks fixed assets)
  unfolding Assets.genesis
  assets-IsHeld [] typed = search keeps_rules
  assets-IsHeld ((account, amount, price) ∷ assets) (small, typed) =
      search (keeps_rules, asset-IsHeld account amount price small, assets-IsHeld assets typed)

module _ (p : Platform) (checked : p.checks ≡ true) where
  put_pool-SetsAgree :
      (id : ℕ) (pool : LendingState.Pool)
      → Keeps (SetsAgree {Store = AssetsState.State}) (LendingState.put_pool id pool)
  put_pool-SetsAgree id pool = record {
    at = λ s h. record {
      supplies = h.supplies;
      debts = h.debts;
      supply_distinct = h.supply_distinct;
      debt_distinct = h.debt_distinct;
    };
  }

  pool-SetsAgree :
      (id : ℕ) (c : Bool) → Keeps SetsAgree (Lending.init_pool_at (lending_config p) id c)
  unfolding Lending.init_pool_at
  pool-SetsAgree id c = search (keeps_rules, put_pool-SetsAgree) depth 20

  pools-SetsAgree : (pools : List ℕ) → Keeps SetsAgree (Lending.genesis (lending_config p) pools)
  unfolding Lending.genesis
  pools-SetsAgree [] = search keeps_rules
  pools-SetsAgree (id ∷ pools) = Keeps-then _ _ (pool-SetsAgree id true) (pools-SetsAgree pools)

  -- The invariants hold of the storage before anything is built.
  pub configured-IsSound : (g : GenesisConfig) → IsSound (configured p g)
  configured-IsSound g = record {
    held = (
      [],
      tt,
      record {
        backed = λ id. refl;
        elsewhere = λ id who e. refl;
        fits = λ id. omega arith;
        unused = λ id e. refl;
      },
    );
    shared = ([], tt, record { sums = λ id. refl }, record { none_else = λ id who e. refl });
    agree = record {
      supplies = λ asset user. refl;
      debts = λ asset user. refl;
      supply_distinct = λ user. tt;
      debt_distinct = λ user. tt;
    };
  }

  build-ChainIsHeld : (g : GenesisConfig) → AreBalances g.assets → Keeps ChainIsHeld (build p g)
  unfolding build
  build-ChainIsHeld g typed =
      Keeps-then _ _
        (on_part-Keeps _ _ _ IsHeld ChainIsHeld (λ c h. h) (λ c q s h. h)
          (assets-IsHeld p.checks checked p.fixed g.assets typed))
        (on_part-Keeps _ _ _ (λ s. IsHeld s.ledger) ChainIsHeld (λ c h. h) (λ c q s h. h)
          (genesis-OnLedger (lending_config p) IsHeld (transfer-IsHeld p.checks) g.lending_pools))

  build-SetsAgree : (g : GenesisConfig) → Keeps (λ c. SetsAgree (lending c)) (build p g)
  unfolding build
  build-SetsAgree g =
      Keeps-then _ _
        (on_part-Keeps _ _ _ (λ _. Unit {0}) (λ c. SetsAgree (lending c)) (λ c h. tt)
          (λ c q s h. SetsAgree-else refl refl refl refl q) (Keeps-trivial _))
        (on_part-Keeps _ _ _ SetsAgree (λ c. SetsAgree (lending c)) (λ c h. h)
          (λ c q s h. SetsAgree-else refl refl refl refl h) (pools-SetsAgree g.lending_pools))

  build-IsShared : (g : GenesisConfig) → Keeps (λ c. IsShared (exchange c)) (build p g)
  unfolding build
  build-IsShared g =
      Keeps-then _ _
        (on_part-Keeps _ _ _ (λ _. Unit {0}) (λ c. IsShared (exchange c)) (λ c h. tt)
          (λ c q s h. IsShared-else (exchange c) (exchange (put_assets c s)) refl refl q)
          (Keeps-trivial _))
        (on_part-Keeps _ _ _ (λ _. Unit {0}) (λ c. IsShared (exchange c)) (λ c h. tt)
          (λ c q s h. IsShared-else (exchange c) (exchange (put_lending c s)) refl refl q)
          (Keeps-trivial _))

  pub genesis-IsSound :
      (g : GenesisConfig)
      → AreBalances g.assets
      → IsSound (after (configured p g) (build p g (configured p g)))
  genesis-IsSound g typed =
      let i = configured-IsSound g in
      record {
        held = Keeps-after (build-ChainIsHeld g typed) _ i.held;
        shared = Keeps-after (build-IsShared g) _ i.shared;
        agree = Keeps-after (build-SetsAgree g) _ i.agree;
      }

  -- With overflow checks, from a genesis configuration whose assets' supplies are balances: every
  -- state that the chain can reach by calls and blocks from the store that genesis builds is
  -- sound, with its supplies and liquidities held and the users' sets in agreement.
  pub chain-IsSound :
      (g : GenesisConfig) (c : Chain)
      → AreBalances g.assets
      → Reach p (after (configured p g) (build p g (configured p g))) c
      → IsSound c
  chain-IsSound g c typed r = Reach-IsSound p checked r (genesis-IsSound g typed)
