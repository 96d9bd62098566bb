-- ===== src/Lending/Settlement.antt =====
-- pallets/lending/src/lib.rs: `supply`, `withdraw`, `borrow` and `repay` move what they book; the
-- first and the last stand here.
use konomi_node.Base.{
  or_panic, ◌>>=◌, ◌>>◌, ℕ, ◌+◌, ◌≤◌, ◌<◌, ◌≡◌, ◌≢◌, refl, Bool, true, false, not, some, arith,
  u128_size, Origin, Post, succeeds, Post-ok_or, Post-or_panic, Post-ensure, Post->>=, ltb, leb,
  if◌then◌else◌, sub_word, add_word,
}
use konomi_node.Traits.{IsMultiAsset}
use konomi_node.Lending.State.{
  State, Config, Pool, bad_origin, user_no_supply, user_no_debt, below_liquidation_threshold,
  not_enough_liquidity, withdrawn, borrowed, put_pool, deposit_event,
}
use konomi_node.Lending.Interest.{update_pool_supply, update_pool_debt}
use konomi_node.Lending.Accounts.{
  update_user_supply, update_user_debt, accrue_supply_with_interest, accrue_debt_with_interest,
  join_supply_set, join_debt_set,
}
use konomi_node.Lending.Info.{get_user_info}
use konomi_node.Lending.Calls.{supply, withdraw, borrow, repay, move_asset, accrued_pool}
use konomi_node.Lending.Untouched.{
  Untouched, accrue_supply-Untouched, update_supply-Untouched, join_supply-Untouched,
  accrue_debt-Untouched, update_debt-Untouched, join_debt-Untouched,
}
use konomi_node.Lending.Cash.{
  Accrued, Settled, accrued_pool-Accrued, move_asset-in, move_asset-out, Untouched-trans,
  update_pool_supply-add, update_pool_supply-sub, update_pool_debt-add, update_pool_debt-sub,
}
pub mod Withdrawal
pub mod Borrowing

-- With checks, an amount within the liquidity leaves the pool no more debt than supply.
pub within_liquidity :
    {checks : Bool}
    → checks ≡ true
    → (a b amount : ℕ) {cash : ℕ} → sub_word u128_size checks a b ≡ some cash
    → not (ltb cash amount) ≡ true
    → b + amount ≤ a
unfolding sub_word
within_liquidity c a b amount h g = ground arith

-- Nothing was changed yet.
pub unchanged : {Store : Type 0} (s : State Store) → Untouched s s
unchanged s = record { ledger = refl; pools = refl; threshold = refl; clock = refl }

module _ {E Store : Type 0} (t : Config E Store) (balance : ℕ → ℕ → Store → ℕ)
    (contract : IsMultiAsset t.multi_asset balance) (checked : t.checks ≡ true) (origin : Origin)
    (id amount : ℕ) (s : State Store)
    (apart : (who : ℕ) → origin.signed_by ≡ some who → who ≢ t.account_id)
    (fits : (who : ℕ)
      → origin.signed_by ≡ some who
      → balance id who s.ledger + balance id t.account_id s.ledger < u128_size) where
  -- With overflow checks, over assets that meet the contract, for a caller other than the
  -- pallet's account, whose balance and the pallet's together fit a u128: a supply that succeeds
  -- writes the asset's pool only, and moves the pallet's balance exactly as far as it moves the
  -- pool's supply less its debt from where interest took them; one that is refused has
  -- changed no pool and no balance.
  pub supply-Settled :
      Post (λ _ u. Settled t balance s u id) (Untouched s) (supply t origin id amount s)
  unfolding supply
  supply-Settled = Post-ok_or origin.signed_by bad_origin _ s (unchanged s) λ account e.
      Post->>= (accrued_pool t id) _ s (accrued_pool-Accrued t balance id s) λ pool u (acc, a).
        Post->>= (move_asset t account id t.account_id amount) _ u
          (move_asset-in t balance contract account id amount (apart account e) (fits account e) a)
          λ _ v (cash, p).
            Post->>= (update_user_supply t pool id account amount true) _ v
              (update_supply-Untouched t pool id account v amount true)
              λ _ w b. Post-or_panic (update_pool_supply t.checks pool amount true) _ w λ pool' g.
                Post->>= (join_supply_set t id account) _ _
                  (join_supply-Untouched t pool id account _)
                  λ _ x c.
                    let (more, same) = update_pool_supply-add checked pool amount g in
                    succeeds (record {
                      accrued = pool;
                      left = pool';
                      has_accrued = acc;
                      pools = rw (c.pools, b.pools, p) refl;
                      cash = rw (c.ledger, b.ledger) (omega (arith, cash, more, same));
                    })

  -- With overflow checks, over assets that meet the contract, for a caller other than the
  -- pallet's account, whose balance and the pallet's together fit a u128: a repayment that succeeds
  -- writes the asset's pool only, and moves the pallet's balance exactly as far as it moves the
  -- pool's supply less its debt from where interest took them; one that is refused has
  -- changed no pool and no balance.
  pub repay-Settled :
      Post (λ _ u. Settled t balance s u id) (Untouched s) (repay t origin id amount s)
  unfolding repay
  repay-Settled = Post-ok_or origin.signed_by bad_origin _ s (unchanged s) λ account e.
      Post->>= (accrued_pool t id) _ s (accrued_pool-Accrued t balance id s) λ pool u (acc, a).
        Post->>= (accrue_debt_with_interest t pool id account) _ u
          (accrue_debt-Untouched t pool id account u)
          λ _ v b.
            let same = Untouched-trans a b in
            Post-ok_or (v.user_debts id account) user_no_debt _ v same λ entry _.
              let n = if ltb entry.amount amount then entry.amount else amount in
              Post->>= (move_asset t account id t.account_id n) _ v
                (move_asset-in t balance contract account id n (apart account e) (fits account e)
                  same)
                λ _ w (cash, p).
                  Post->>= (update_user_debt t pool id account n false) _ w
                    (update_debt-Untouched t pool id account w n false)
                    λ _ x c. Post-or_panic (update_pool_debt t.checks pool n false) _ x λ pool' g.
                      let (less, kept) = update_pool_debt-sub checked pool n g in
                      succeeds (record {
                        accrued = pool;
                        left = pool';
                        has_accrued = acc;
                        pools = rw (c.pools, p) refl;
                        cash = rw (c.ledger) (omega (arith, cash, less, kept));
                      })
