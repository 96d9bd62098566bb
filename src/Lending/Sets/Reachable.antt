-- ===== src/Lending/Sets/Reachable.antt =====
-- pallets/lending/src/lib.rs: the users' sets of assets in every state that the chain can reach.
use konomi_node.Base.{ℕ, ◌≡◌, ◌≢◌, true, ok, Post-after, after}
use konomi_node.Lending.State.{State, Config}
use konomi_node.Lending.Dispatch.{
  Request, supplies, withdraws, borrows, repays, liquidates, inits_pool, dispatch, Step, calls,
  blocks_pass, ledger_changes, Reach, here, next,
}
use konomi_node.Lending.Sets.{SetsAgree}
use konomi_node.Lending.Sets.Kept.{
  supply-SetsAgree, withdraw-SetsAgree, borrow-SetsAgree, repay-SetsAgree, init_pool-SetsAgree,
}
use konomi_node.Lending.Sets.Liquidated.{liquidate-SetsAgree}

module _ {E Store : Type 0} (t : Config E Store)
    (positive : (from id to amount : ℕ) (s s' : Store)
      → t.multi_asset.transfer from id to amount s ≡ ok tt s'
      → amount ≢ 0)
    (checked : t.checks ≡ true) where
  pub dispatch-SetsAgree :
      (r : Request) (s : State Store) → SetsAgree s → SetsAgree (after s (dispatch t r s))
  unfolding dispatch
  dispatch-SetsAgree (supplies o id n) s a =
      Post-after s a (supply-SetsAgree t positive checked o id n s a)
  dispatch-SetsAgree (withdraws o id n) s a =
      Post-after s a (withdraw-SetsAgree t positive o id n s a)
  dispatch-SetsAgree (borrows o id n) s a =
      Post-after s a (borrow-SetsAgree t positive checked o id n s a)
  dispatch-SetsAgree (repays o id n) s a = Post-after s a (repay-SetsAgree t positive o id n s a)
  dispatch-SetsAgree (liquidates o target pay_id get_id n) s a =
      Post-after s a (liquidate-SetsAgree t positive o target pay_id get_id n s a)
  dispatch-SetsAgree (inits_pool o id c) s a =
      Post-after s a (init_pool-SetsAgree t positive o id c s a)

  Step-SetsAgree : {s u : State Store} → Step t s u → SetsAgree s → SetsAgree u
  Step-SetsAgree (calls r) a = dispatch-SetsAgree r _ a
  Step-SetsAgree (blocks_pass n) a = record {
    supplies = a.supplies;
    debts = a.debts;
    supply_distinct = a.supply_distinct;
    debt_distinct = a.debt_distinct;
  }
  Step-SetsAgree (ledger_changes l) a = record {
    supplies = a.supplies;
    debts = a.debts;
    supply_distinct = a.supply_distinct;
    debt_distinct = a.debt_distinct;
  }

  -- Where the build has overflow checks and a transfer that succeeds moves a positive amount:
  -- over any sequence of calls, whether they succeed, fail half-way or panic, of later blocks and
  -- of changes of the balances and prices, each user's two sets list, once each, exactly the
  -- assets for which the user has an entry, if they did so at the start.
  pub Reach-SetsAgree : {s u : State Store} → Reach t s u → SetsAgree s → SetsAgree u
  Reach-SetsAgree here a = a
  Reach-SetsAgree (next r st) a = Step-SetsAgree st (Reach-SetsAgree r a)
