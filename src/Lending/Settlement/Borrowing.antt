-- ===== src/Lending/Settlement/Borrowing.antt =====
-- pallets/lending/src/lib.rs: `borrow` moves what it books.
use konomi_node.Base.{
  or_panic, ◌>>=◌, ◌>>◌, ℕ, ◌+◌, ◌≤◌, ◌<◌, ◌≡◌, ◌≢◌, refl, true, not, some, arith, u128_size,
  Origin, Post, succeeds, Post-ok_or, Post-or_panic, Post-ensure, Post->>=, ltb, leb, sub_word,
  add_word,
}
use konomi_node.Traits.{IsMultiAsset}
use konomi_node.Lending.State.{
  State, Config, Pool, bad_origin, below_liquidation_threshold, not_enough_liquidity, borrowed,
  put_pool, deposit_event,
}
use konomi_node.Lending.Interest.{update_pool_debt}
use konomi_node.Lending.Accounts.{update_user_debt, accrue_debt_with_interest, join_debt_set}
use konomi_node.Lending.Info.{get_user_info}
use konomi_node.Lending.Calls.{borrow, move_asset, accrued_pool}
use konomi_node.Lending.Untouched.{
  Untouched, accrue_debt-Untouched, update_debt-Untouched, join_debt-Untouched,
}
use konomi_node.Lending.Cash.{
  Accrued, Settled, accrued_pool-Accrued, move_asset-out, Untouched-trans, update_pool_debt-add,
}
use konomi_node.Lending.Settlement.{within_liquidity, unchanged}

module _ {E Store : Type 0} (t : Config E Store) (balance : ℕ → ℕ → Store → ℕ)
    (contract : IsMultiAsset t.multi_asset balance) (checked : t.checks ≡ true) (origin : Origin)
    (id amount : ℕ) (s : State Store)
    (apart : (who : ℕ) → origin.signed_by ≡ some who → who ≢ t.account_id)
    (fits : (who : ℕ)
      → origin.signed_by ≡ some who
      → balance id who s.ledger + balance id t.account_id s.ledger < u128_size) where
  -- The last steps of a borrowing.
  lent_out :
      (account : ℕ) (pool : Pool)
      → Accrued t balance s id pool
      → origin.signed_by ≡ some account
      → (v : State Store) → Untouched s v
      → pool.debt + amount ≤ pool.supply
      → Post
          (λ _ u. (settled : Settled t balance s u id) × (settled.left.debt ≤ settled.left.supply))
          (Untouched s)
          ((do
            move_asset t t.account_id id account amount
            update_user_debt t pool id account amount true
            pool' ← or_panic (update_pool_debt t.checks pool amount true)
            deposit_event (borrowed id account amount)
            join_debt_set t id account
            put_pool id pool')
            v)
  lent_out account pool acc e v same enough =
      Post->>= (move_asset t t.account_id id account amount) _ v
        (move_asset-out t balance contract account id amount (apart account e) (fits account e)
          same)
        λ _ w (cash, p).
          Post->>= (update_user_debt t pool id account amount true) _ w
            (update_debt-Untouched t pool id account w amount true)
            λ _ x b. Post-or_panic (update_pool_debt t.checks pool amount true) _ x λ pool' g.
              Post->>= (join_debt_set t id account) _ _ (join_debt-Untouched t pool id account _)
                λ _ y c.
                  let (more, kept) = update_pool_debt-add checked pool amount g in
                  succeeds (
                    record {
                      accrued = pool;
                      left = pool';
                      has_accrued = acc;
                      pools = rw (c.pools, b.pools, p) refl;
                      cash = rw (c.ledger, b.ledger) (omega (arith, cash, more, kept));
                    },
                    omega (arith, enough, more, kept),
                  )

  -- With overflow checks, over assets that meet the contract, for a caller other than the
  -- pallet's account, whose balance and the pallet's together fit a u128: a borrowing that succeeds
  -- writes the asset's pool only, and moves the pallet's balance exactly as far as it moves the
  -- pool's supply less its debt from where interest took them,
  -- and leaves the pool no more debt than supply; one that is refused has
  -- changed no pool and no balance.
  pub borrow-Settled :
      Post
        (λ _ u. (settled : Settled t balance s u id) × (settled.left.debt ≤ settled.left.supply))
        (Untouched s)
        (borrow t origin id amount s)
  unfolding borrow
  borrow-Settled = Post-ok_or origin.signed_by bad_origin _ s (unchanged s) λ account e.
      Post->>= (accrued_pool t id) _ s (accrued_pool-Accrued t balance id s) λ pool u (acc, a).
        Post-or_panic (sub_word u128_size t.checks pool.supply pool.debt) _ u λ cash c.
          Post-ensure (not (ltb cash amount)) not_enough_liquidity _ u a λ d.
            Post->>= (accrue_debt_with_interest t pool id account) _ u
              (accrue_debt-Untouched t pool id account u)
              λ _ v b.
                let same = Untouched-trans a b in
                Post-or_panic (get_user_info t account v) _ v λ totals _.
                  Post-or_panic
                    (add_word u128_size t.checks totals.2
                      (t.fixed.saturating_mul_int (t.oracle.get_rate id v.ledger) amount))
                    _ v
                    λ converted _.
                      Post-ensure
                        (leb (t.fixed.saturating_mul_int v.liquidation_threshold converted)
                          totals.1)
                        below_liquidation_threshold _ v same
                        λ _.
                          lent_out account pool acc e v same
                            (within_liquidity checked pool.supply pool.debt amount c d)
