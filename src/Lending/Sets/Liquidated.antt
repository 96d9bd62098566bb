-- ===== src/Lending/Sets/Liquidated.antt =====
-- pallets/lending/src/lib.rs: a liquidation keeps the users' sets of assets in agreement with
-- their entries.
use konomi_node.Base.{
  ℕ, ◌≡◌, ◌≢◌, false, some, refl, Origin, Post, succeeds, Post-ok_or, Post-or_panic, Post-ensure,
  Post->>=, ltb, if◌then◌else◌, ok,
}
use konomi_node.Lending.State.{
  State, Config, Pool, bad_origin, pool_not_exist, user_no_supply, asset_not_collateral,
  above_liquidation_threshold,
}
use konomi_node.Lending.Interest.{accrue_interest}
use konomi_node.Lending.Accounts.{
  update_user_supply, update_user_debt, accrue_supply_with_interest, accrue_debt_with_interest,
}
use konomi_node.Lending.Info.{get_user_info}
use konomi_node.Lending.Calls.{move_asset}
use konomi_node.Lending.Seizure.{pay_limit, get_amount}
use konomi_node.Lending.Liquidate.{liquidate, settle}
use konomi_node.Lending.Sets.{SetsAgree}
use konomi_node.Lending.Sets.Supplies
use konomi_node.Lending.Sets.Debts
use konomi_node.Lending.Sets.Moves.{elsewhere-SetsAgree, move_asset-Post}
use konomi_node.Lending.Sets.Supplies
use konomi_node.Lending.Sets.Debts

module _ {E Store : Type 0} (t : Config E Store)
    (positive : (from id to amount : ℕ) (s s' : Store)
      → t.multi_asset.transfer from id to amount s ≡ ok tt s'
      → amount ≢ 0) where
  settle-SetsAgree :
      (account target pay_id get_id requested : ℕ) (pay_pool get_pool : Pool) (v : State Store)
      → SetsAgree v
      → Post
          (λ _ u. SetsAgree u)
          SetsAgree
          (settle t account target pay_id get_id requested pay_pool get_pool v)
  unfolding settle
  settle-SetsAgree account target pay_id get_id requested pay_pool get_pool v c =
      Post-or_panic (get_user_info t target v) _ v λ totals _.
        Post-ensure (ltb totals.1 (t.fixed.saturating_mul_int v.liquidation_threshold totals.2))
          above_liquidation_threshold _ v c
          λ _.
            Post-ok_or (v.user_supplies get_id target) user_no_supply _ v c
              λ supplied supplied_here.
                let get_price = t.oracle.get_rate get_id v.ledger in
                let pay_price = t.oracle.get_rate pay_id v.ledger in
                Post-or_panic (pay_limit t.fixed get_pool get_price pay_price supplied.amount) _ v
                  λ limit _.
                    Post-ok_or (v.user_debts pay_id target) user_no_supply _ v c λ owed owed_here.
                      let limited = if ltb limit requested then limit else requested in
                      let paid = if ltb owed.amount limited then owed.amount else limited in
                      Post-or_panic (get_amount t.fixed get_pool get_price pay_price paid) _ v
                        λ got _.
                          let Q : State Store → Type 0 = λ x.
                            SetsAgree x
                            × (x.user_supplies get_id target ≡ some supplied)
                            × (x.user_debts pay_id target ≡ some owed) in
                          Post->>= (move_asset t account pay_id t.account_id paid) _ v
                            (move_asset-Post t positive Q SetsAgree account pay_id t.account_id paid
                              v
                              (λ l. (
                                elsewhere-SetsAgree refl refl refl refl c,
                                supplied_here,
                                owed_here,
                              ))
                              (λ l. elsewhere-SetsAgree refl refl refl refl c))
                            λ _ w d.
                              Post->>= (move_asset t t.account_id get_id account got) _ w
                                (move_asset-Post t positive Q SetsAgree t.account_id get_id account
                                  got w
                                  (λ l.
                                    (elsewhere-SetsAgree refl refl refl refl d.0.0, d.0.1, d.0.2))
                                  (λ l. elsewhere-SetsAgree refl refl refl refl d.0.0))
                                λ _ x e.
                                  Post->>= (update_user_supply t get_pool get_id target got false) _
                                    x
                                    (Supplies.lower-SetsAgree t get_pool get_id target x got e.0.0
                                      (rw e.0.1))
                                    λ _ y f.
                                      Post->>=
                                        (update_user_debt t pay_pool pay_id target paid false) _ y
                                        (Debts.lower-SetsAgree t pay_pool pay_id target y paid f.0
                                          (rw (f.1, e.0.2)))
                                        λ _ z g.
                                          succeeds (elsewhere-SetsAgree refl refl refl refl g.0)

  pub liquidate-SetsAgree :
      (origin : Origin) (target_user pay_asset_id get_asset_id requested : ℕ) (s : State Store)
      → SetsAgree s
      → Post
          (λ _ u. SetsAgree u)
          SetsAgree
          (liquidate t origin target_user pay_asset_id get_asset_id requested s)
  unfolding liquidate
  liquidate-SetsAgree origin target pay_id get_id requested s a =
      Post-ok_or origin.signed_by bad_origin _ s a λ account _.
        Post-ok_or (s.pools get_id) pool_not_exist _ s a λ get_stored _.
          Post-ensure get_stored.can_be_collateral asset_not_collateral _ s a λ _.
            Post-ok_or (s.pools pay_id) pool_not_exist _ s a λ pay_stored _.
              Post-or_panic (accrue_interest t.fixed t.checks s.block_number pay_stored) _ s
                λ pay_pool _.
                  Post-or_panic (accrue_interest t.fixed t.checks s.block_number get_stored) _ s
                    λ get_pool _.
                      Post->>= (accrue_supply_with_interest t get_pool get_id target) _ s
                        (Supplies.accrue-SetsAgree t get_pool get_id target s a)
                        λ _ u b.
                          Post->>= (accrue_debt_with_interest t pay_pool pay_id target) _ u
                            (Debts.accrue-SetsAgree t pay_pool pay_id target u b)
                            λ _ v c.
                              settle-SetsAgree account target pay_id get_id requested pay_pool
                                get_pool v c
