-- ===== src/Lending/Liquidatable.antt =====
-- pallets/lending/src/lib.rs: whom `liquidate` can be used against.
use konomi_node.Base.{
  Post-map, ℕ, ◌<◌, ◌≡◌, Origin, Post, Post-ok_or, Post-or_panic, Post-ensure, Post->>=, ltb,
  ltb→lt, ok,
}
use konomi_node.Lending.State.{
  State, Config, Pool, bad_origin, pool_not_exist, asset_not_collateral,
  above_liquidation_threshold,
}
use konomi_node.Lending.Accounts.{accrue_supply_with_interest, accrue_debt_with_interest}
use konomi_node.Lending.Interest.{accrue_interest}
use konomi_node.Lending.Info.{get_user_info}
use konomi_node.Lending.Liquidate.{liquidate, settle}
use konomi_node.Lending.Effects.{Anything}
use konomi_node.Lending.Health.{Post-Anything, ends_as, Valued, required, value, IsCurrent}

module _ {E Store : Type 0} (t : Config E Store) where
  settle-Unhealthy :
      (account target pay_id get_id requested : ℕ) (pay_pool get_pool : Pool) (v : State Store)
      → Post
          (λ _ _. (has : Valued t v target) × (has.converted < required t v has.borrowed))
          Anything
          (settle t account target pay_id get_id requested pay_pool get_pool v)
  unfolding settle
  settle-Unhealthy account target pay_id get_id requested pay_pool get_pool v =
      Post-or_panic (get_user_info t target v) _ v λ totals info.
        Post-ensure (ltb totals.1 (required t v totals.2)) above_liquidation_threshold _ v tt
          λ below. Post-Anything _ (value t v target totals info, ltb→lt _ _ below)

  -- A liquidation that succeeds met, right after the interest on the target's supply of the one
  -- asset and debt of the other was accrued, a target whose supplies, reduced by their safe
  -- factors, were worth less than the threshold's multiple of all its debts.
  pub liquidate-Unhealthy :
      (origin : Origin) (target pay_id get_id requested : ℕ) (s : State Store)
      → Post
          (λ _ _.
            (pay_pool : Pool) × (get_pool : Pool) × (u : State Store) × (v : State Store)
            × (has : Valued t v target) × IsCurrent t s pay_id pay_pool
            × IsCurrent t s get_id get_pool
            × (accrue_supply_with_interest t get_pool get_id target s ≡ ok tt u)
            × (accrue_debt_with_interest t pay_pool pay_id target u ≡ ok tt v)
            × (has.converted < required t v has.borrowed))
          Anything
          (liquidate t origin target pay_id get_id requested s)
  unfolding liquidate
  liquidate-Unhealthy origin target pay_id get_id requested s =
      Post-ok_or origin.signed_by bad_origin _ s tt λ account _.
        Post-ok_or (s.pools get_id) pool_not_exist _ s tt λ get_stored get_found.
          Post-ensure get_stored.can_be_collateral asset_not_collateral _ s tt λ _.
            Post-ok_or (s.pools pay_id) pool_not_exist _ s tt λ pay_stored pay_found.
              Post-or_panic (accrue_interest t.fixed t.checks s.block_number pay_stored) _ s
                λ pay_pool pay_grown.
                  Post-or_panic (accrue_interest t.fixed t.checks s.block_number get_stored) _ s
                    λ get_pool get_grown.
                      Post->>= (accrue_supply_with_interest t get_pool get_id target) _ s
                        (ends_as _)
                        λ _ u e.
                          Post->>= (accrue_debt_with_interest t pay_pool pay_id target) _ u
                            (ends_as _)
                            λ _ v f.
                              Post-map
                                (λ _ _ (has, below). (
                                  pay_pool,
                                  get_pool,
                                  u,
                                  v,
                                  has,
                                  record {
                                    stored = pay_stored;
                                    found = pay_found;
                                    grown = pay_grown;
                                  },
                                  record {
                                    stored = get_stored;
                                    found = get_found;
                                    grown = get_grown;
                                  },
                                  e,
                                  f,
                                  below,
                                ))
                                (λ _ same. same)
                                (settle-Unhealthy account target pay_id get_id requested pay_pool
                                  get_pool v)
