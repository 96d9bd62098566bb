-- ===== src/Lending/Liquidation.antt =====
-- pallets/lending/src/lib.rs: what `liquidate` writes into the two pools.
use konomi_node.Base.{
  ℕ, ◌≡◌, refl, ◌∙◌, false, some, ok, err, panic, Outcome, Origin, Post, succeeds, refuses, panics,
  Post-ok_or, Post-or_panic, Post-ensure, Post->>=, Post-map, ltb, if◌then◌else◌, update, ◌>>◌,
}
use konomi_node.Lending.State.{
  State, Config, Pool, Error, put_pool, transfer_failed, bad_origin, pool_not_exist, user_no_supply,
  asset_not_collateral, above_liquidation_threshold,
}
use konomi_node.Lending.Interest.{accrue_interest}
use konomi_node.Lending.Accounts.{
  update_user_supply, update_user_debt, accrue_supply_with_interest, accrue_debt_with_interest,
}
use konomi_node.Lending.Info.{get_user_info}
use konomi_node.Lending.Calls.{move_asset}
use konomi_node.Lending.Seizure.{pay_limit, get_amount}
use konomi_node.Lending.Liquidate.{liquidate, settle}
use konomi_node.Lending.Untouched.{
  accrue_supply-Untouched, update_supply-Untouched, accrue_debt-Untouched, update_debt-Untouched,
}

-- No pool was written.
abbrev pub SamePools : {Store : Type 0} → State Store → State Store → Type 0
SamePools s u = u.pools ≡ s.pools

module _ {E Store : Type 0} (t : Config E Store) where
  -- What is stored of the two pools is what they held at first with its interest, the pool of
  -- the paid asset last.
  pub record OnlyInterest (s u : State Store) (pay_id get_id : ℕ) : Type 0 where
    pub pay_stored : Pool
    pub get_stored : Pool
    pub pay_pool : Pool
    pub get_pool : Pool
    pub pay_found : s.pools pay_id ≡ some pay_stored
    pub get_found : s.pools get_id ≡ some get_stored
    pub pay_grown : accrue_interest t.fixed t.checks s.block_number pay_stored ≡ some pay_pool
    pub get_grown : accrue_interest t.fixed t.checks s.block_number get_stored ≡ some get_pool
    pub pools : u.pools ≡ update (update s.pools get_id (some get_pool)) pay_id (some pay_pool)

  moved-SamePools :
      (v : State Store) (o : Outcome E Store (Unit {0}))
      → Post
          (λ (_ : Unit {0}) w. SamePools v w)
          (SamePools v)
          (elim o as (λ _. Outcome Error (State Store) (Unit {0})) [
            | ok _ ledger ↦ ok tt (record v { ledger = ledger })
            | err _ ledger ↦ err transfer_failed (record v { ledger = ledger })
            | panic ↦ panic
          ])
  moved-SamePools v (ok _ l) = succeeds refl
  moved-SamePools v (err _ l) = refuses refl
  moved-SamePools v panic = panics

  move_asset-SamePools :
      (from id to amount : ℕ) (v : State Store)
      → Post (λ _ w. SamePools v w) (SamePools v) (move_asset t from id to amount v)
  unfolding move_asset
  move_asset-SamePools from id to amount v =
      moved-SamePools v (t.multi_asset.transfer from id to amount v.ledger)

  -- The last steps of a liquidation, from a state `v` with the pools of `s`.
  seized :
      (s v : State Store) (account target pay_id get_id paid got : ℕ) (pay_pool get_pool : Pool)
      → SamePools s v
      → Post
          (λ _ u. u.pools ≡ update (update s.pools get_id (some get_pool)) pay_id (some pay_pool))
          (SamePools s)
          ((do
            move_asset t account pay_id t.account_id paid
            move_asset t t.account_id get_id account got
            update_user_supply t get_pool get_id target got false
            update_user_debt t pay_pool pay_id target paid false
            put_pool get_id get_pool
            put_pool pay_id pay_pool)
            v)
  seized s v account target pay_id get_id paid got pay_pool get_pool a =
      Post->>= (move_asset t account pay_id t.account_id paid) _ v
        (Post-map (λ _ _ b. b ∙ a) (λ _ b. b ∙ a)
          (move_asset-SamePools account pay_id t.account_id paid v))
        λ _ w b.
          Post->>= (move_asset t t.account_id get_id account got) _ w
            (Post-map (λ _ _ c. c ∙ b) (λ _ c. c ∙ b)
              (move_asset-SamePools t.account_id get_id account got w))
            λ _ x c.
              Post->>= (update_user_supply t get_pool get_id target got false) _ x
                (update_supply-Untouched t get_pool get_id target x got false)
                λ _ y d.
                  Post->>= (update_user_debt t pay_pool pay_id target paid false) _ y
                    (update_debt-Untouched t pay_pool pay_id target y paid false)
                    λ _ z e. succeeds (rw (e.pools, d.pools, c) refl)

  settle-pools :
      (account target pay_id get_id requested : ℕ) (s v : State Store) (pay_pool get_pool : Pool)
      → SamePools s v
      → Post
          (λ _ u. u.pools ≡ update (update s.pools get_id (some get_pool)) pay_id (some pay_pool))
          (SamePools s)
          (settle t account target pay_id get_id requested pay_pool get_pool v)
  unfolding settle
  settle-pools account target pay_id get_id requested s v pay_pool get_pool same =
      Post-or_panic (get_user_info t target v) _ v λ totals _.
        Post-ensure (ltb totals.1 (t.fixed.saturating_mul_int v.liquidation_threshold totals.2))
          above_liquidation_threshold _ v same
          λ _. Post-ok_or (v.user_supplies get_id target) user_no_supply _ v same λ supply _.
            Post-or_panic
              (pay_limit t.fixed get_pool (t.oracle.get_rate get_id v.ledger)
                (t.oracle.get_rate pay_id v.ledger) supply.amount)
              _ v
              λ limit _. Post-ok_or (v.user_debts pay_id target) user_no_supply _ v same λ debt _.
                let limited = if ltb limit requested then limit else requested in
                let paid = if ltb debt.amount limited then debt.amount else limited in
                Post-or_panic
                  (get_amount t.fixed get_pool (t.oracle.get_rate get_id v.ledger)
                    (t.oracle.get_rate pay_id v.ledger) paid)
                  _ v
                  λ got _. seized s v account target pay_id get_id paid got pay_pool get_pool same

  -- A liquidation that succeeds stores, of the two pools, only the interest since their last
  -- update: the pool of the seized asset keeps in its supply what was paid out to the
  -- arbitrager, and the pool of the paid asset keeps in its debt what was repaid. One that is
  -- refused has changed no pool.
  pub liquidate-OnlyInterest :
      (origin : Origin) (target pay_id get_id requested : ℕ) (s : State Store)
      → Post
          (λ _ u. OnlyInterest s u pay_id get_id)
          (SamePools s)
          (liquidate t origin target pay_id get_id requested s)
  unfolding liquidate
  liquidate-OnlyInterest origin target pay_id get_id requested s =
      Post-ok_or origin.signed_by bad_origin _ s refl λ account _.
        Post-ok_or (s.pools get_id) pool_not_exist _ s refl λ get_stored get_found.
          Post-ensure get_stored.can_be_collateral asset_not_collateral _ s refl λ _.
            Post-ok_or (s.pools pay_id) pool_not_exist _ s refl λ pay_stored pay_found.
              Post-or_panic (accrue_interest t.fixed t.checks s.block_number pay_stored) _ s
                λ pay_pool pay_grown.
                  Post-or_panic (accrue_interest t.fixed t.checks s.block_number get_stored) _ s
                    λ get_pool get_grown.
                      Post->>= (accrue_supply_with_interest t get_pool get_id target) _ s
                        (accrue_supply-Untouched t get_pool get_id target s)
                        λ _ u b.
                          Post->>= (accrue_debt_with_interest t pay_pool pay_id target) _ u
                            (accrue_debt-Untouched t pay_pool pay_id target u)
                            λ _ v c.
                              Post-map
                                (λ _ w pools. record {
                                  pay_stored = pay_stored;
                                  get_stored = get_stored;
                                  pay_pool = pay_pool;
                                  get_pool = get_pool;
                                  pay_found = pay_found;
                                  get_found = get_found;
                                  pay_grown = pay_grown;
                                  get_grown = get_grown;
                                  pools = pools;
                                })
                                (λ _ same. same)
                                (settle-pools account target pay_id get_id requested s v pay_pool
                                  get_pool (c.pools ∙ b.pools))
