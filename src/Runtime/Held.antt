-- ===== src/Runtime/Held.antt =====
-- runtime/src/lib.rs: whatever the pallets do to the assets, their supplies stay backed.
use konomi_node.Base.{ℕ, ◌≡◌, true, modify, Origin}
use konomi_node.Base.Keeps.{Keeps, Keeps-after, keeps_rules}
use konomi_node.Assets.Holders.{IsHeld, transfer-IsHeld, dispatch-IsHeld}
use konomi_node.Assets.Calls as Assets
use konomi_node.Lending.Ledger.{OnLedger, dispatch-OnLedger}
use konomi_node.Swap.Assets.{OnAssets, dispatch-OnAssets}
use konomi_node.Offchain.State as Offchain
use konomi_node.Offchain.Calls.{submit_price_unsigned, put_price}
use konomi_node.Runtime.State.{Chain, Platform}
use konomi_node.Runtime.Parts.{on_part-Keeps}
use konomi_node.Runtime.Calls.{
  RuntimeCall, assets_call, swap_call, lending_call, submits_price, CallIsTyped, dispatch, calls,
  next_block, Reach, here, next, lending_config, swap_config, worker_config,
}

-- The assets of the chain are held.
abbrev pub ChainIsHeld : Chain → Type 0
ChainIsHeld c = IsHeld c.assets

-- A submitted price is the only other write of the assets' storage, and it touches no balance.
put_price-IsHeld :
    (id rate : ℕ) → Keeps (λ (s : Offchain.Worker). IsHeld s.assets) (put_price id rate)
put_price-IsHeld id rate = record {
  at = λ s (holders, distinct, b). (
    holders,
    distinct,
    record { backed = b.backed; elsewhere = b.elsewhere; fits = b.fits; unused = b.unused },
  );
}

submit-IsHeld :
    (t : Offchain.Config) (origin : Origin) (block_number price : ℕ)
    → Keeps
        (λ (s : Offchain.Worker). IsHeld s.assets)
        (submit_price_unsigned t origin block_number price)
unfolding submit_price_unsigned
submit-IsHeld t origin block_number price =
    search (keeps_rules, put_price-IsHeld, wait, event) depth 20
  where
    wait :
        (n : ℕ)
        → Keeps {E = Offchain.Error}
            (λ (s : Offchain.Worker). IsHeld s.assets)
            (modify (λ s. record s { next_unsigned_at = n }))
    wait n = record { at = λ s h. h }

    event :
        (e : Offchain.Event)
        → Keeps (λ (s : Offchain.Worker). IsHeld s.assets) (Offchain.deposit_event e)
    event e = record { at = λ s h. h }

module _ (p : Platform) (checked : p.checks ≡ true) where
  moves : (from id to amount : ℕ) → Keeps IsHeld (Assets.transfer p.checks from id to amount)
  moves = transfer-IsHeld p.checks

  pub dispatch-ChainIsHeld : (r : RuntimeCall) → CallIsTyped r → Keeps ChainIsHeld (dispatch p r)
  unfolding dispatch
  dispatch-ChainIsHeld (assets_call r) typed =
      on_part-Keeps _ _ _ IsHeld ChainIsHeld (λ c h. h) (λ c q s h. h)
        (dispatch-IsHeld p.checks r checked typed)
  dispatch-ChainIsHeld (swap_call r) typed =
      on_part-Keeps _ _ _ (OnAssets (swap_config p) IsHeld moves) ChainIsHeld (λ c h. h)
        (λ c q s h. h) (dispatch-OnAssets (swap_config p) IsHeld moves r)
  dispatch-ChainIsHeld (lending_call r) typed =
      on_part-Keeps _ _ _ (OnLedger (lending_config p) IsHeld moves) ChainIsHeld (λ c h. h)
        (λ c q s h. h) (dispatch-OnLedger (lending_config p) IsHeld moves r)
  dispatch-ChainIsHeld (submits_price origin block_number price) typed =
      on_part-Keeps _ _ _ (λ s. IsHeld s.assets) ChainIsHeld (λ c h. h) (λ c q s h. h)
        (submit-IsHeld (worker_config p) origin block_number price)

  -- With overflow checks: over any sequence of calls of the four pallets, whether they succeed,
  -- fail or panic, and of blocks, the total supply of each asset stays the sum of what finitely
  -- many accounts hold, the accounts of the lending pallet and of the pools among them; it fits a
  -- u128, and identifiers not yet given out stay unused.
  pub Reach-ChainIsHeld : {c d : Chain} → Reach p c d → ChainIsHeld c → ChainIsHeld d
  Reach-ChainIsHeld here h = h
  Reach-ChainIsHeld (next r (calls call typed)) h =
      Keeps-after (dispatch-ChainIsHeld call typed) _ (Reach-ChainIsHeld r h)
  Reach-ChainIsHeld (next r (next_block _)) h = Reach-ChainIsHeld r h
