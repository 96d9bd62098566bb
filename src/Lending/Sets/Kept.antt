-- ===== src/Lending/Sets/Kept.antt =====
-- pallets/lending/src/lib.rs: every dispatchable call keeps the users' sets of assets in
-- agreement with their entries.
use konomi_node.Base.{
  ℕ, ◌≡◌, ◌≢◌, Bool, true, false, not, some, refl, Origin, Post, succeeds, Post-ok_or,
  Post-or_panic, Post-ensure, Post->>=, ltb, leb, sub_word, add_word, u128_size, if◌then◌else◌, ok,
}
use konomi_node.Lending.State.{
  State, Config, bad_origin, user_no_supply, user_no_debt, below_liquidation_threshold,
  not_enough_liquidity,
}
use konomi_node.Lending.Interest.{update_pool_supply, update_pool_debt}
use konomi_node.Lending.Accounts.{
  update_user_supply, update_user_debt, accrue_supply_with_interest, accrue_debt_with_interest,
  join_supply_set, join_debt_set,
}
use konomi_node.Lending.Info.{get_user_info}
use konomi_node.Lending.Calls.{supply, withdraw, borrow, repay, init_pool, move_asset, accrued_pool}
use konomi_node.Lending.Sets.{SetsAgree}
use konomi_node.Lending.Sets.Supplies
use konomi_node.Lending.Sets.Debts
use konomi_node.Lending.Sets.Moves.{elsewhere-SetsAgree, accrued_pool-Post, move_asset-Post}

module _ {E Store : Type 0} (t : Config E Store)
    (positive : (from id to amount : ℕ) (s s' : Store)
      → t.multi_asset.transfer from id to amount s ≡ ok tt s'
      → amount ≢ 0) where
  -- Where additions are checked.
  pub supply-SetsAgree :
      t.checks ≡ true
      → (origin : Origin) (id amount : ℕ) (s : State Store) → SetsAgree s
      → Post (λ _ u. SetsAgree u) SetsAgree (supply t origin id amount s)
  unfolding supply
  supply-SetsAgree checked origin id amount s a =
      Post-ok_or origin.signed_by bad_origin _ s a λ account _.
        Post->>= (accrued_pool t id) _ s (accrued_pool-Post t SetsAgree id s a) λ pool u b.
          Post->>= (move_asset t account id t.account_id amount) _ u
            (move_asset-Post t positive SetsAgree SetsAgree account id t.account_id amount u
              (λ l. elsewhere-SetsAgree refl refl refl refl b)
              (λ l. elsewhere-SetsAgree refl refl refl refl b))
            λ _ v c.
              Post->>= (update_user_supply t pool id account amount true) _ v
                (Supplies.raise-AgreesBut t pool id account v checked amount c.0 c.1)
                λ _ w d. Post-or_panic (update_pool_supply t.checks pool amount true) _ w λ pool' _.
                  Post->>= (join_supply_set t id account) _ _
                    (Supplies.join-SetsAgree t pool id account _ (Supplies.unlogged d))
                    λ _ x e. succeeds (elsewhere-SetsAgree refl refl refl refl e)

  pub withdraw-SetsAgree :
      (origin : Origin) (id requested : ℕ) (s : State Store)
      → SetsAgree s
      → Post (λ _ u. SetsAgree u) SetsAgree (withdraw t origin id requested s)
  unfolding withdraw
  withdraw-SetsAgree origin id requested s a =
      Post-ok_or origin.signed_by bad_origin _ s a λ account _.
        Post->>= (accrued_pool t id) _ s (accrued_pool-Post t SetsAgree id s a) λ pool u b.
          Post->>= (accrue_supply_with_interest t pool id account) _ u
            (Supplies.accrue-SetsAgree t pool id account u b)
            λ _ v c. Post-ok_or (v.user_supplies id account) user_no_supply _ v c λ entry e.
              Post-or_panic (get_user_info t account v) _ v λ totals _.
                Post-or_panic (t.fixed.mul (t.oracle.get_rate id v.ledger) pool.safe_factor) _ v
                  λ price _.
                    let amount = if ltb entry.amount requested then entry.amount else requested in
                    Post-or_panic
                      (sub_word u128_size t.checks totals.1
                        (t.fixed.saturating_mul_int price amount))
                      _ v
                      λ converted _.
                        Post-ensure
                          (leb (t.fixed.saturating_mul_int v.liquidation_threshold totals.2)
                            converted)
                          below_liquidation_threshold _ v c
                          λ _.
                            Post-or_panic (sub_word u128_size t.checks pool.supply pool.debt) _ v
                              λ cash _.
                                Post-ensure (not (ltb cash amount)) not_enough_liquidity _ v c λ _.
                                  Post->>= (move_asset t t.account_id id account amount) _ v
                                    (move_asset-Post t positive
                                      (λ x. SetsAgree x × (x.user_supplies id account ≡ some entry))
                                      SetsAgree t.account_id id account amount v
                                      (λ l. (elsewhere-SetsAgree refl refl refl refl c, e))
                                      (λ l. elsewhere-SetsAgree refl refl refl refl c))
                                    λ _ w d.
                                      Post->>= (update_user_supply t pool id account amount false) _
                                        w
                                        (Supplies.lower-SetsAgree t pool id account w amount d.0.0
                                          (rw d.0.1))
                                        λ _ x f.
                                          Post-or_panic
                                            (update_pool_supply t.checks pool amount false) _ x
                                            λ pool' _.
                                              succeeds (elsewhere-SetsAgree refl refl refl refl f.0)

  -- Where additions are checked.
  pub borrow-SetsAgree :
      t.checks ≡ true
      → (origin : Origin) (id amount : ℕ) (s : State Store) → SetsAgree s
      → Post (λ _ u. SetsAgree u) SetsAgree (borrow t origin id amount s)
  unfolding borrow
  borrow-SetsAgree checked origin id amount s a =
      Post-ok_or origin.signed_by bad_origin _ s a λ account _.
        Post->>= (accrued_pool t id) _ s (accrued_pool-Post t SetsAgree id s a) λ pool u b.
          Post-or_panic (sub_word u128_size t.checks pool.supply pool.debt) _ u λ cash _.
            Post-ensure (not (ltb cash amount)) not_enough_liquidity _ u b λ _.
              Post->>= (accrue_debt_with_interest t pool id account) _ u
                (Debts.accrue-SetsAgree t pool id account u b)
                λ _ v c. Post-or_panic (get_user_info t account v) _ v λ totals _.
                  Post-or_panic
                    (add_word u128_size t.checks totals.2
                      (t.fixed.saturating_mul_int (t.oracle.get_rate id v.ledger) amount))
                    _ v
                    λ converted _.
                      Post-ensure
                        (leb (t.fixed.saturating_mul_int v.liquidation_threshold converted)
                          totals.1)
                        below_liquidation_threshold _ v c
                        λ _.
                          Post->>= (move_asset t t.account_id id account amount) _ v
                            (move_asset-Post t positive SetsAgree SetsAgree t.account_id id account
                              amount v (λ l. elsewhere-SetsAgree refl refl refl refl c)
                              (λ l. elsewhere-SetsAgree refl refl refl refl c))
                            λ _ w d.
                              Post->>= (update_user_debt t pool id account amount true) _ w
                                (Debts.raise-AgreesBut t pool id account w checked amount d.0 d.1)
                                λ _ x f.
                                  Post-or_panic (update_pool_debt t.checks pool amount true) _ x
                                    λ pool' _.
                                      Post->>= (join_debt_set t id account) _ _
                                        (Debts.join-SetsAgree t pool id account _
                                          (Debts.unlogged f))
                                        λ _ y g.
                                          succeeds (elsewhere-SetsAgree refl refl refl refl g)

  pub repay-SetsAgree :
      (origin : Origin) (id requested : ℕ) (s : State Store)
      → SetsAgree s
      → Post (λ _ u. SetsAgree u) SetsAgree (repay t origin id requested s)
  unfolding repay
  repay-SetsAgree origin id requested s a =
      Post-ok_or origin.signed_by bad_origin _ s a λ account _.
        Post->>= (accrued_pool t id) _ s (accrued_pool-Post t SetsAgree id s a) λ pool u b.
          Post->>= (accrue_debt_with_interest t pool id account) _ u
            (Debts.accrue-SetsAgree t pool id account u b)
            λ _ v c. Post-ok_or (v.user_debts id account) user_no_debt _ v c λ entry e.
              let amount = if ltb entry.amount requested then entry.amount else requested in
              Post->>= (move_asset t account id t.account_id amount) _ v
                (move_asset-Post t positive
                  (λ x. SetsAgree x × (x.user_debts id account ≡ some entry)) SetsAgree account id
                  t.account_id amount v (λ l. (elsewhere-SetsAgree refl refl refl refl c, e))
                  (λ l. elsewhere-SetsAgree refl refl refl refl c))
                λ _ w d.
                  Post->>= (update_user_debt t pool id account amount false) _ w
                    (Debts.lower-SetsAgree t pool id account w amount d.0.0 (rw d.0.1))
                    λ _ x f.
                      Post-or_panic (update_pool_debt t.checks pool amount false) _ x
                        λ pool' _. succeeds (elsewhere-SetsAgree refl refl refl refl f.0)

  pub init_pool-SetsAgree :
      (origin : Origin) (id : ℕ) (can_be_collateral : Bool) (s : State Store)
      → SetsAgree s
      → Post (λ _ u. SetsAgree u) SetsAgree (init_pool t origin id can_be_collateral s)
  unfolding init_pool
  init_pool-SetsAgree origin id can_be_collateral s a =
      Post-or_panic (t.fixed.saturating_from_rational 7 10) _ s λ _ _.
        Post-or_panic (t.fixed.saturating_from_rational 95 100) _ s λ _ _.
          Post-or_panic (t.fixed.saturating_from_rational 385 10_000_000_000) _ s λ _ _.
            Post-or_panic (t.fixed.saturating_from_rational 385 100_000_000_000) _ s
              λ _ _. succeeds (elsewhere-SetsAgree refl refl refl refl a)
