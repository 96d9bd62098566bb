-- ===== src/Runtime/Sound.antt =====
-- runtime/src/lib.rs: the invariants of the pallets, in every state of the chain.
use konomi_node.Base.{◌≡◌, refl, true}
use konomi_node.Base.Keeps.{Keeps, Keeps-after, Keeps-trivial, after-Ends}
use konomi_node.Assets.State as AssetsState
use konomi_node.Assets.Transfer.{multi_asset-IsMultiAsset}
use konomi_node.Lending.State as LendingState
use konomi_node.Lending.Dispatch as Lending
use konomi_node.Lending.Sets.{SetsAgree}
use konomi_node.Lending.Sets.Reachable.{dispatch-SetsAgree}
use konomi_node.Swap.State.{Exchange}
use konomi_node.Swap.Holders.{IsShared, dispatch-IsShared}
use konomi_node.Runtime.State.{
  Chain, Platform, lending, exchange, put_assets, put_lending, put_worker,
}
use konomi_node.Runtime.Parts.{on_part-Keeps}
use konomi_node.Runtime.Held.{ChainIsHeld, dispatch-ChainIsHeld}
use konomi_node.Runtime.Calls.{
  RuntimeCall, assets_call, swap_call, lending_call, submits_price, dispatch, calls, next_block,
  Reach, here, next, lending_config, swap_config,
}

-- Supplies and liquidities are held, and the users' sets agree with their entries.
pub record IsSound (c : Chain) : Type 0 where
  pub held : ChainIsHeld c
  pub shared : IsShared (exchange c)
  pub agree : SetsAgree (lending c)

pub SetsAgree-else :
    {c d : LendingState.State AssetsState.State}
    → d.user_supplies ≡ c.user_supplies
    → d.user_debts ≡ c.user_debts
    → d.user_supply_set ≡ c.user_supply_set
    → d.user_debt_set ≡ c.user_debt_set
    → SetsAgree c
    → SetsAgree d
SetsAgree-else a b e f h = record {
  supplies = λ asset user. rw (a, e) (h.supplies asset user);
  debts = λ asset user. rw (b, f) (h.debts asset user);
  supply_distinct = λ user. rw e (h.supply_distinct user);
  debt_distinct = λ user. rw f (h.debt_distinct user);
}

pub IsShared-else :
    (c d : Exchange)
    → d.total_liquidities ≡ c.total_liquidities
    → d.account_liquidities ≡ c.account_liquidities
    → IsShared c
    → IsShared d
IsShared-else c d a b (holders, distinct, sums, others) = (
  holders,
  distinct,
  record { sums = λ id. rw (a, b) (sums.sums id) },
  record { none_else = λ id who out. rw b (others.none_else id who out) },
)

module _ (p : Platform) (checked : p.checks ≡ true) where
  pub SetsAgree-kept : (r : RuntimeCall) → Keeps (λ c. SetsAgree (lending c)) (dispatch p r)
  unfolding dispatch
  SetsAgree-kept (lending_call r) =
      on_part-Keeps _ _ _ SetsAgree (λ c. SetsAgree (lending c)) (λ c h. h)
        (λ c q s h. record {
          supplies = h.supplies;
          debts = h.debts;
          supply_distinct = h.supply_distinct;
          debt_distinct = h.debt_distinct;
        })
        (record {
          at = λ s h. after-Ends SetsAgree s (Lending.dispatch (lending_config p) r s) (
              dispatch-SetsAgree (lending_config p)
                (multi_asset-IsMultiAsset p.checks).transfers_positive checked r s h);
        })
  SetsAgree-kept (assets_call r) =
      on_part-Keeps _ _ _ (λ _. Unit {0}) (λ c. SetsAgree (lending c)) (λ c h. tt)
        (λ c q s h. SetsAgree-else refl refl refl refl q) (Keeps-trivial _)
  SetsAgree-kept (swap_call r) =
      on_part-Keeps _ _ _ (λ _. Unit {0}) (λ c. SetsAgree (lending c)) (λ c h. tt)
        (λ c q s h. SetsAgree-else refl refl refl refl q) (Keeps-trivial _)
  SetsAgree-kept (submits_price origin block_number price) =
      on_part-Keeps _ _ _ (λ _. Unit {0}) (λ c. SetsAgree (lending c)) (λ c h. tt)
        (λ c q s h. SetsAgree-else refl refl refl refl q) (Keeps-trivial _)

  pub IsShared-kept : (r : RuntimeCall) → Keeps (λ c. IsShared (exchange c)) (dispatch p r)
  unfolding dispatch
  IsShared-kept (swap_call r) =
      on_part-Keeps _ _ _ IsShared (λ c. IsShared (exchange c)) (λ c h. h)
        (λ c q s (holders, distinct, sums, others).
          (holders, distinct, record { sums = sums.sums }, record { none_else = others.none_else }))
        (dispatch-IsShared (swap_config p) checked r)
  IsShared-kept (assets_call r) =
      on_part-Keeps _ _ _ (λ _. Unit {0}) (λ c. IsShared (exchange c)) (λ c h. tt)
        (λ c q s h. IsShared-else (exchange c) (exchange (put_assets c s)) refl refl q)
        (Keeps-trivial _)
  IsShared-kept (lending_call r) =
      on_part-Keeps _ _ _ (λ _. Unit {0}) (λ c. IsShared (exchange c)) (λ c h. tt)
        (λ c q s h. IsShared-else (exchange c) (exchange (put_lending c s)) refl refl q)
        (Keeps-trivial _)
  IsShared-kept (submits_price origin block_number price) =
      on_part-Keeps _ _ _ (λ _. Unit {0}) (λ c. IsShared (exchange c)) (λ c h. tt)
        (λ c q s h. IsShared-else (exchange c) (exchange (put_worker c s)) refl refl q)
        (Keeps-trivial _)

  -- With overflow checks: over any sequence of calls of the four pallets, whether they succeed,
  -- fail or panic, and of blocks, the chain stays sound. The total supply of each asset is the sum
  -- of what finitely many accounts hold, those of the lending pallet and of the pools among them,
  -- and fits a u128; identifiers not yet given out are unused; the total liquidity of each pool is
  -- the sum of what finitely many accounts have of it; and each user's two sets list, once each,
  -- the assets for which the user has an entry.
  pub Reach-IsSound : {c d : Chain} → Reach p c d → IsSound c → IsSound d
  Reach-IsSound here h = h
  Reach-IsSound (next r (calls call typed)) h =
      let i = Reach-IsSound r h in
      record {
        held = Keeps-after (dispatch-ChainIsHeld p checked call typed) _ i.held;
        shared = Keeps-after (IsShared-kept call) _ i.shared;
        agree = Keeps-after (SetsAgree-kept call) _ i.agree;
      }
  Reach-IsSound (next r (next_block _)) h =
      let i = Reach-IsSound r h in
      record {
        held = i.held;
        shared = i.shared;
        agree = SetsAgree-else refl refl refl refl i.agree;
      }
