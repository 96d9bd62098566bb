-- ===== src/Runtime/Typed.antt =====
-- runtime/src/lib.rs: on the chain, the numbers that the pallets store stay in their types, in
-- builds with and without overflow checks.
use konomi_node.Base.{ℕ, ◌+◌, ◌<◌, refl, arith, after, u32_size, u64_size}
use konomi_node.Base.Keeps.{Keeps, Keeps-after, Keeps-then, Keeps-both}
use konomi_node.FixedPoint.{IsTypedFixed}
use konomi_node.Assets.State as Assets
use konomi_node.Assets.Genesis.{AreBalances}
use konomi_node.Assets.Typed.{AreWords, transfer-AreWords, dispatch-AreWords, genesis-AreWords}
use konomi_node.Lending.State as LendingState
use konomi_node.Lending.Words.{PoolInRange, InRange, elsewhere}
use konomi_node.Lending.Ledger.{dispatch-OnLedger, genesis-OnLedger}
use konomi_node.Lending.Typed.{AreIds, genesis-InRange}
use konomi_node.Lending.Typed as Lending
use konomi_node.Swap.State as SwapState
use konomi_node.Swap.Assets.{dispatch-OnAssets}
use konomi_node.Swap.Typed.{AreShares, else-AreShares, dispatch-AreShares}
use konomi_node.Offchain.State as OffchainState
use konomi_node.Offchain.Typed.{IsTimed, submit-IsTimed}
use konomi_node.Runtime.State.{
  Chain, Platform, lending, exchange, put_assets, put_lending, put_worker, put_exchange,
}
use konomi_node.Runtime.Parts.{on_part-Keeps}
use konomi_node.Runtime.Genesis.{GenesisConfig, configured, build}
use konomi_node.Runtime.Calls.{
  RuntimeCall, assets_call, swap_call, lending_call, submits_price, CallIsTyped, dispatch, calls,
  next_block, Reach, here, next, lending_config, swap_config, worker_config,
}

-- Of a chain at block `now`: the block's number is a u32; the inherent asset, the next identifier
-- of an asset, the lending pools' assets and the fee rate are u64; the total supplies, balances and
-- prices, the lending pools' other numbers, the users' entries with their indexes, the threshold of
-- liquidation and the liquidities are u128; and the next block for an unsigned price is a u32.
pub record ChainInRange (now : ℕ) (c : Chain) : Type 0 where
  pub block_number : c.block_number < u32_size
  pub lending : InRange Assets.State now (lending c)
  pub assets : AreWords c.assets
  pub shares : AreShares (exchange c)
  pub next_unsigned_at : c.next_unsigned_at < u32_size

-- The clock is the chain's.
timed-InRange : (now : ℕ) (c : Chain) → ChainInRange now c → ChainInRange c.block_number c
timed-InRange now c q =
    let h = q.lending in
    record {
      block_number = q.block_number;
      lending = record {
        clock = refl;
        pools = λ id p e. rw h.clock (h.pools id p e);
        supplies = h.supplies;
        debts = h.debts;
        threshold = h.threshold;
      };
      assets = q.assets;
      shares = q.shares;
      next_unsigned_at = q.next_unsigned_at;
    }

later-PoolInRange : (now : ℕ) (p : LendingState.Pool) → PoolInRange now p → PoolInRange (now + 1) p
later-PoolInRange now p r = record {
  asset = r.asset;
  supply = r.supply;
  debt = r.debt;
  safe_factor = r.safe_factor;
  close_factor = r.close_factor;
  discount_factor = r.discount_factor;
  total_supply_index = r.total_supply_index;
  total_debt_index = r.total_debt_index;
  utilization_factor = r.utilization_factor;
  initial_interest_rate = r.initial_interest_rate;
  last_updated = omega (arith, r.last_updated);
}

-- A later block leaves every last update in the past.
later-InRange :
    (now : ℕ) (c : Chain)
    → c.block_number + 1 < u32_size
    → ChainInRange now c
    → ChainInRange (now + 1) (record c { block_number = c.block_number + 1 })
later-InRange now c small q =
    let h = q.lending in
    record {
      block_number = small;
      lending = record {
        clock = omega (arith, h.clock);
        pools = λ id p e. later-PoolInRange now p (h.pools id p e);
        supplies = h.supplies;
        debts = h.debts;
        threshold = h.threshold;
      };
      assets = q.assets;
      shares = else-AreShares (exchange c) _ refl refl refl q.shares;
      next_unsigned_at = q.next_unsigned_at;
    }

module _ (now : ℕ) (c : Chain) (q : ChainInRange now c) where
  put_assets-InRange : (s : Assets.State) → AreWords s → ChainInRange now (put_assets c s)
  put_assets-InRange s h = record {
    block_number = q.block_number;
    lending =
        elsewhere now (lending c) (lending (put_assets c s)) refl refl refl refl refl q.lending;
    assets = h;
    shares = else-AreShares (exchange c) (exchange (put_assets c s)) refl refl refl q.shares;
    next_unsigned_at = q.next_unsigned_at;
  }

  put_exchange-InRange :
      (s : SwapState.Exchange)
      → AreShares s × AreWords s.assets
      → ChainInRange now (put_exchange c s)
  put_exchange-InRange s (h, w) = record {
    block_number = q.block_number;
    lending =
        elsewhere now (lending c) (lending (put_exchange c s)) refl refl refl refl refl q.lending;
    assets = w;
    shares = else-AreShares s (exchange (put_exchange c s)) refl refl refl h;
    next_unsigned_at = q.next_unsigned_at;
  }

  put_lending-InRange :
      (s : LendingState.State Assets.State)
      → InRange Assets.State now s × AreWords s.ledger
      → ChainInRange now (put_lending c s)
  put_lending-InRange s (h, w) = record {
    block_number = q.block_number;
    lending = record {
      clock = q.lending.clock;
      pools = h.pools;
      supplies = h.supplies;
      debts = h.debts;
      threshold = h.threshold;
    };
    assets = w;
    shares = else-AreShares (exchange c) (exchange (put_lending c s)) refl refl refl q.shares;
    next_unsigned_at = q.next_unsigned_at;
  }

  put_worker-InRange : (s : OffchainState.Worker) → IsTimed s → ChainInRange now (put_worker c s)
  put_worker-InRange s h = record {
    block_number = q.block_number;
    lending =
        elsewhere now (lending c) (lending (put_worker c s)) refl refl refl refl refl q.lending;
    assets = h.assets;
    shares = else-AreShares (exchange c) (exchange (put_worker c s)) refl refl refl q.shares;
    next_unsigned_at = h.next_unsigned_at;
  }

module _ (p : Platform) (typed : IsTypedFixed p.fixed) where
  dispatch-InRange :
      (now : ℕ) (r : RuntimeCall) → CallIsTyped r → Keeps (ChainInRange now) (dispatch p r)
  unfolding dispatch
  dispatch-InRange now (assets_call r) h =
      on_part-Keeps _ _ _ AreWords (ChainInRange now) (λ c q. q.assets) (put_assets-InRange now)
        (dispatch-AreWords p.checks r h)
  dispatch-InRange now (swap_call r) h =
      on_part-Keeps _ _ _ (λ s. AreShares s × AreWords s.assets) (ChainInRange now)
        (λ c q. (q.shares, q.assets)) (put_exchange-InRange now)
        (Keeps-both (dispatch-AreShares (swap_config p) r h)
          (dispatch-OnAssets (swap_config p) AreWords (transfer-AreWords p.checks) r))
  dispatch-InRange now (lending_call r) h =
      on_part-Keeps _ _ _ (λ s. InRange Assets.State now s × AreWords s.ledger) (ChainInRange now)
        (λ c q. (q.lending, q.assets)) (put_lending-InRange now)
        (Keeps-both (Lending.dispatch-InRange (lending_config p) typed now r h)
          (dispatch-OnLedger (lending_config p) AreWords (transfer-AreWords p.checks) r))
  dispatch-InRange now (submits_price origin block_number price) h =
      on_part-Keeps _ _ _ IsTimed (ChainInRange now)
        (λ c q. record { assets = q.assets; next_unsigned_at = q.next_unsigned_at })
        (put_worker-InRange now) (submit-IsTimed (worker_config p) typed origin block_number price)

  build-InRange :
      (g : GenesisConfig)
      → AreBalances g.assets
      → AreIds g.lending_pools
      → Keeps (ChainInRange 0) (build p g)
  unfolding build
  build-InRange g small ids =
      Keeps-then _ _
        (on_part-Keeps _ _ _ AreWords (ChainInRange 0) (λ c q. q.assets) (put_assets-InRange 0)
          (genesis-AreWords p.checks p.fixed typed g.assets small))
        (on_part-Keeps _ _ _ (λ s. InRange Assets.State 0 s × AreWords s.ledger) (ChainInRange 0)
          (λ c q. (q.lending, q.assets)) (put_lending-InRange 0)
          (Keeps-both (genesis-InRange (lending_config p) typed 0 g.lending_pools ids) (
            genesis-OnLedger (lending_config p) AreWords (transfer-AreWords p.checks)
              g.lending_pools)))

  configured-InRange :
      (g : GenesisConfig) → g.swap_fee_rate < u64_size → ChainInRange 0 (configured p g)
  configured-InRange g small = record {
    block_number = omega arith;
    lending = record {
      clock = refl;
      pools = λ id pool e. grind (arith, e);
      supplies = λ id who entry e. grind (arith, e);
      debts = λ id who entry e. grind (arith, e);
      threshold = typed.one_small;
    };
    assets = record {
      next_asset_id = omega arith;
      inherent = omega arith;
      supplies = λ id. omega arith;
      balances = λ id who. omega arith;
      prices = λ id. omega arith;
    };
    shares = record {
      shares = λ id who. omega arith;
      totals = λ id. omega arith;
      fee_rate = small;
    };
    next_unsigned_at = omega arith;
  }

  Reach-InRange :
      {c d : Chain} → Reach p c d → ChainInRange c.block_number c → ChainInRange d.block_number d
  Reach-InRange here h = h
  Reach-InRange {c = c} (next {d = d} r (calls call typed_call)) h =
      let kept =
        Keeps-after (dispatch-InRange d.block_number call typed_call) d (Reach-InRange r h) in
      timed-InRange d.block_number (after d (dispatch p call d)) kept
  Reach-InRange (next {d = d} r (next_block small)) h =
      later-InRange d.block_number d small (Reach-InRange r h)

  -- With calls and a genesis configuration whose numbers are of their types, and block numbers
  -- that are u32: in every state that the chain can reach from the store that genesis builds,
  -- whether calls succeed, fail or panic and whether the build checks overflow or wraps, these
  -- stored numbers are of their types. The total supplies, balances and prices, the lending pools'
  -- amounts, indexes, factors and rates, the users' amounts and indexes, the threshold of
  -- liquidation and the swap pools' liquidities are u128; the next identifier, the inherent asset,
  -- the lending pools' assets and the fee rate are u64; and the next block for an unsigned price
  -- is a u32. A lending pool's last update is not after the current block, which is a u32. The
  -- identifiers in the users' sets, the keys of the maps and the events are not spoken of.
  pub chain-InRange :
      (g : GenesisConfig) (c : Chain)
      → AreBalances g.assets
      → AreIds g.lending_pools
      → g.swap_fee_rate < u64_size
      → Reach p (after (configured p g) (build p g (configured p g))) c
      → ChainInRange c.block_number c
  chain-InRange g c small ids small' r =
      let born =
        Keeps-after (build-InRange g small ids) (configured p g) (configured-InRange g small') in
      Reach-InRange r (timed-InRange 0 (after (configured p g) (build p g (configured p g))) born)
