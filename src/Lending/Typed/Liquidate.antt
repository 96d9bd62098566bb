-- ===== src/Lending/Typed/Liquidate.antt =====
-- pallets/lending/src/lib.rs: `liquidate` stores numbers of their types.
use konomi_node.Base.{
  ℕ, ◌<◌, ◌≡◌, some, arith, u128_size, Origin, or_panic, ◌>>=◌, ◌>>◌, false, gets,
}
use konomi_node.Base.Keeps.{
  Keeps, value_rules, Keeps-then, Keeps-ensure, Keeps-bind-unwrap, Keeps-bind-gets, Keeps-bind-some,
}
use konomi_node.FixedPoint.{IsTypedFixed}
use konomi_node.Lending.State.{Config, Pool, put_pool}
use konomi_node.Lending.Interest.{accrue_interest}
use konomi_node.Lending.Accounts.{
  update_user_supply, update_user_debt, accrue_supply_with_interest, accrue_debt_with_interest,
}
use konomi_node.Lending.Calls.{move_asset}
use konomi_node.Lending.Seizure.{get_amount}
use konomi_node.Lending.Liquidate.{liquidate, settle}
use konomi_node.Lending.Words.{PoolInRange, InRange, put_pool-InRange, limited}
use konomi_node.Lending.Typed.Entries.{
  move-InRange, update_supply-InRange, update_debt-InRange, accrue_supply-InRange,
  accrue_debt-InRange,
}
use konomi_node.Lending.Typed.Calls.{read_pool-InRange, accrued_at-InRange}

module _ {E Store : Type 0} (t : Config E Store) (typed : IsTypedFixed t.fixed) (now : ℕ) where
  get_amount-lt :
      (p : Pool) (a b n : ℕ) {m : ℕ} → get_amount t.fixed p a b n ≡ some m → m < u128_size
  unfolding get_amount
  get_amount-lt p a b n h = grind (arith, typed.mul_int_small)

  module _ (account target pay_id get_id n : ℕ) (p g : Pool) (pr : PoolInRange now p)
      (gr : PoolInRange now g) where
    pub paid-InRange :
        (got : ℕ)
        → got < u128_size
        → (paid : ℕ) → paid < u128_size
        → Keeps (InRange Store now) (do
          move_asset t account pay_id t.account_id paid
          move_asset t t.account_id get_id account got
          update_user_supply t g get_id target got false
          update_user_debt t p pay_id target paid false
          put_pool get_id g
          put_pool pay_id p)
    paid-InRange got a paid b =
        Keeps-then _ _ (move-InRange t typed now account pay_id t.account_id paid) (
          Keeps-then _ _ (move-InRange t typed now t.account_id get_id account got) (
            Keeps-then _ _ (update_supply-InRange t typed now g gr get_id target got false a) (
              Keeps-then _ _ (update_debt-InRange t typed now p pr pay_id target paid false b) (
                Keeps-then _ _ (put_pool-InRange now get_id g gr)
                  (put_pool-InRange now pay_id p pr)))))

    pub settle-InRange :
        n < u128_size → Keeps (InRange Store now) (settle t account target pay_id get_id n p g)
    unfolding settle
    settle-InRange small =
        search (value_rules, paid-InRange, get_amount-lt, limited t.fixed typed t.checks now, small)
          depth 60 fits 9000

    pub seized-InRange :
        n < u128_size
        → Keeps (InRange Store now) (do
          accrue_supply_with_interest t g get_id target
          accrue_debt_with_interest t p pay_id target
          settle t account target pay_id get_id n p g)
    seized-InRange small =
        Keeps-then _ _ (accrue_supply-InRange t typed now g gr get_id target) (
          Keeps-then _ _ (accrue_debt-InRange t typed now p pr pay_id target)
            (settle-InRange small))

  -- `liquidate` from where both pools are read.
  pub accruing-InRange :
      (account target pay_id get_id n : ℕ) (a b : Pool)
      → PoolInRange now a
      → PoolInRange now b
      → n < u128_size
      → Keeps (InRange Store now) (do
        time ← gets (λ s. s.block_number)
        p ← or_panic (accrue_interest t.fixed t.checks time a)
        g ← or_panic (accrue_interest t.fixed t.checks time b)
        accrue_supply_with_interest t g get_id target
        accrue_debt_with_interest t p pay_id target
        settle t account target pay_id get_id n p g)
  accruing-InRange account target pay_id get_id n a b ar br small =
      Keeps-bind-gets (λ time. time ≡ now) _ _ (λ s h. h.clock)
        λ time same. Keeps-bind-unwrap _ _ λ p e. Keeps-bind-unwrap _ _ λ g f.
          seized-InRange account target pay_id get_id n p g
            (accrued_at-InRange t typed now time same a p e ar)
            (accrued_at-InRange t typed now time same b g f br) small

  pub liquidate-InRange :
      (o : Origin) (target pay_id get_id n : ℕ)
      → n < u128_size
      → Keeps (InRange Store now) (liquidate t o target pay_id get_id n)
  unfolding liquidate
  liquidate-InRange o target pay_id get_id n small =
      search
        (
          Keeps-bind-some,
          Keeps-then,
          Keeps-ensure,
          read_pool-InRange t typed now,
          accruing-InRange,
          small,
        )
        depth 60 fits 9000
