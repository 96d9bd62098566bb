-- ===== src/Lending/Settlement/Withdrawal.antt =====
-- pallets/lending/src/lib.rs: `withdraw` moves what it books.
use konomi_node.Base.{
  or_panic, ◌>>=◌, ◌>>◌, ℕ, ◌+◌, ◌≤◌, ◌<◌, ◌≡◌, ◌≢◌, refl, true, false, not, some, arith, u128_size,
  Origin, Post, succeeds, Post-ok_or, Post-or_panic, Post-ensure, Post->>=, ltb, leb, if◌then◌else◌,
  sub_word,
}
use konomi_node.Traits.{IsMultiAsset}
use konomi_node.Lending.State.{
  State, Config, Pool, bad_origin, user_no_supply, below_liquidation_threshold,
  not_enough_liquidity, withdrawn, put_pool, deposit_event,
}
use konomi_node.Lending.Interest.{update_pool_supply}
use konomi_node.Lending.Accounts.{update_user_supply, accrue_supply_with_interest}
use konomi_node.Lending.Info.{get_user_info}
use konomi_node.Lending.Calls.{withdraw, move_asset, accrued_pool}
use konomi_node.Lending.Untouched.{Untouched, accrue_supply-Untouched, update_supply-Untouched}
use konomi_node.Lending.Cash.{
  Accrued, Settled, accrued_pool-Accrued, move_asset-out, Untouched-trans, update_pool_supply-sub,
}
use konomi_node.Lending.Settlement.{within_liquidity, unchanged}

module _ {E Store : Type 0} (t : Config E Store) (balance : ℕ → ℕ → Store → ℕ)
    (contract : IsMultiAsset t.multi_asset balance) (checked : t.checks ≡ true) (origin : Origin)
    (id amount : ℕ) (s : State Store)
    (apart : (who : ℕ) → origin.signed_by ≡ some who → who ≢ t.account_id)
    (fits : (who : ℕ)
      → origin.signed_by ≡ some who
      → balance id who s.ledger + balance id t.account_id s.ledger < u128_size) where
  -- The last steps of a withdrawal.
  paid_out :
      (account : ℕ) (pool : Pool)
      → Accrued t balance s id pool
      → origin.signed_by ≡ some account
      → (n : ℕ) (v : State Store) → Untouched s v
      → pool.debt + n ≤ pool.supply
      → Post
          (λ _ u. (settled : Settled t balance s u id) × (settled.left.debt ≤ settled.left.supply))
          (Untouched s)
          ((do
            move_asset t t.account_id id account n
            update_user_supply t pool id account n false
            pool' ← or_panic (update_pool_supply t.checks pool n false)
            deposit_event (withdrawn id account n)
            put_pool id pool')
            v)
  paid_out account pool acc e n v same enough =
      Post->>= (move_asset t t.account_id id account n) _ v
        (move_asset-out t balance contract account id n (apart account e) (fits account e) same)
        λ _ w (cash, p).
          Post->>= (update_user_supply t pool id account n false) _ w
            (update_supply-Untouched t pool id account w n false)
            λ _ x b. Post-or_panic (update_pool_supply t.checks pool n false) _ x λ pool' g.
              let (less, kept) = update_pool_supply-sub checked pool n g in
              succeeds (
                record {
                  accrued = pool;
                  left = pool';
                  has_accrued = acc;
                  pools = rw (b.pools, p) refl;
                  cash = rw (b.ledger) (omega (arith, cash, less, kept));
                },
                omega (arith, enough, less, kept),
              )

  -- With overflow checks, over assets that meet the contract, for a caller other than the
  -- pallet's account, whose balance and the pallet's together fit a u128: a withdrawal that succeeds
  -- writes the asset's pool only, and moves the pallet's balance exactly as far as it moves the
  -- pool's supply less its debt from where interest took them,
  -- and leaves the pool no more debt than supply; one that is refused has
  -- changed no pool and no balance.
  pub withdraw-Settled :
      Post
        (λ _ u. (settled : Settled t balance s u id) × (settled.left.debt ≤ settled.left.supply))
        (Untouched s)
        (withdraw t origin id amount s)
  unfolding withdraw
  withdraw-Settled = Post-ok_or origin.signed_by bad_origin _ s (unchanged s) λ account e.
      Post->>= (accrued_pool t id) _ s (accrued_pool-Accrued t balance id s) λ pool u (acc, a).
        Post->>= (accrue_supply_with_interest t pool id account) _ u
          (accrue_supply-Untouched t pool id account u)
          λ _ v b.
            let same = Untouched-trans a b in
            Post-ok_or (v.user_supplies id account) user_no_supply _ v same λ entry _.
              Post-or_panic (get_user_info t account v) _ v λ totals _.
                Post-or_panic (t.fixed.mul (t.oracle.get_rate id v.ledger) pool.safe_factor) _ v
                  λ price _.
                    let n = if ltb entry.amount amount then entry.amount else amount in
                    Post-or_panic
                      (sub_word u128_size t.checks totals.1 (t.fixed.saturating_mul_int price n)) _
                      v
                      λ converted _.
                        Post-ensure
                          (leb (t.fixed.saturating_mul_int v.liquidation_threshold totals.2)
                            converted)
                          below_liquidation_threshold _ v same
                          λ _.
                            Post-or_panic (sub_word u128_size t.checks pool.supply pool.debt) _ v
                              λ cash c.
                                Post-ensure (not (ltb cash n)) not_enough_liquidity _ v same λ d.
                                  paid_out account pool acc e n v same
                                    (within_liquidity checked pool.supply pool.debt n c d)
