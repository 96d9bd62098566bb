-- ===== src/Lending/Typed.antt =====
-- pallets/lending/src/lib.rs: each call stores numbers of their types.
use konomi_node.Base.{
  ℕ, ◌≡◌, ◌<◌, ◌≤◌, Bool, true, arith, u64_size, u128_size, ◌>>=◌, Origin, some, List, [], ◌∷◌,
  pure, gets,
}
use konomi_node.Base.Keeps.{Keeps, Keeps-pure, Keeps-then, Keeps-bind-gets, Keeps-bind-unwrap}
use konomi_node.FixedPoint.{FixedPoint, IsTypedFixed}
use konomi_node.Lending.State.{State, Config, Call}
use konomi_node.Lending.Calls.{init_pool_at, init_pool, genesis}
use konomi_node.Lending.Dispatch.{
  Request, supplies, withdraws, borrows, repays, liquidates, inits_pool, dispatch, HasAmount,
}
use konomi_node.Lending.Words.{PoolInRange, InRange, put_pool-InRange}
use konomi_node.Lending.Typed.Calls.{
  supply-InRange, withdraw-InRange, borrow-InRange, repay-InRange,
}
use konomi_node.Lending.Typed.Liquidate.{liquidate-InRange}
mod Entries
mod Calls
mod Liquidate

-- Identifiers are u64.
abbrev pub AreIds : List ℕ → Type 0
AreIds [] = Unit {0}
AreIds (id ∷ ids) = (id < u64_size) × AreIds ids

module _ {E Store : Type 0} (t : Config E Store) (typed : IsTypedFixed t.fixed) (now : ℕ) where
  read_clock-InRange :
      {A : Type 0} (f : ℕ → Call Store A)
      → ((time : ℕ) → time ≡ now → Keeps (InRange Store now) (f time))
      → Keeps (InRange Store now) (gets (λ s. s.block_number) >>= f)
  read_clock-InRange f = Keeps-bind-gets (λ time. time ≡ now) _ f (λ s h. h.clock)

  fresh_pool-InRange :
      (id safe discount utilization initial time : ℕ) (b : Bool)
      → id < u64_size
      → time ≡ now
      → t.fixed.saturating_from_rational 7 10 ≡ some safe
      → t.fixed.saturating_from_rational 95 100 ≡ some discount
      → t.fixed.saturating_from_rational 385 10_000_000_000 ≡ some utilization
      → t.fixed.saturating_from_rational 385 100_000_000_000 ≡ some initial
      → PoolInRange now (record {
        enabled = true;
        can_be_collateral = b;
        asset = id;
        supply = 0;
        debt = 0;
        safe_factor = safe;
        close_factor = t.fixed.one_value;
        discount_factor = discount;
        total_supply_index = t.fixed.one_value;
        total_debt_index = t.fixed.one_value;
        last_updated = time;
        utilization_factor = utilization;
        initial_interest_rate = initial;
      })
  fresh_pool-InRange id safe discount utilization initial time b small same c d e f = record {
    asset = small;
    supply = omega arith;
    debt = omega arith;
    safe_factor = typed.rational_small 7 10 c;
    close_factor = typed.one_small;
    discount_factor = typed.rational_small 95 100 d;
    total_supply_index = typed.one_small;
    total_debt_index = typed.one_small;
    utilization_factor = typed.rational_small 385 10_000_000_000 e;
    initial_interest_rate = typed.rational_small 385 100_000_000_000 f;
    last_updated = omega (arith, same);
  }

  init_pool_at-InRange :
      (id : ℕ) (b : Bool) → id < u64_size → Keeps (InRange Store now) (init_pool_at t id b)
  unfolding init_pool_at
  init_pool_at-InRange id b small =
      search (Keeps-bind-unwrap, read_clock-InRange, put_pool-InRange, fresh_pool-InRange, small)
        depth 30

  pub genesis-InRange : (ids : List ℕ) → AreIds ids → Keeps (InRange Store now) (genesis t ids)
  unfolding genesis
  genesis-InRange [] h = Keeps-pure tt
  genesis-InRange (id ∷ ids) (small, h) =
      Keeps-then _ _ (init_pool_at-InRange id true small) (genesis-InRange ids h)

  -- A call with a u128 as its amount, or a u64 as its new pool, keeps the numbers of the storage in their types, whatever
  -- comes of it.
  pub dispatch-InRange : (r : Request) → HasAmount r → Keeps (InRange Store now) (dispatch t r)
  unfolding dispatch init_pool
  dispatch-InRange (supplies o id n) h = supply-InRange t typed now o id n h
  dispatch-InRange (withdraws o id n) h = withdraw-InRange t typed now o id n h
  dispatch-InRange (borrows o id n) h = borrow-InRange t typed now o id n h
  dispatch-InRange (repays o id n) h = repay-InRange t typed now o id n h
  dispatch-InRange (liquidates o target pay_id get_id n) h =
      liquidate-InRange t typed now o target pay_id get_id n h
  dispatch-InRange (inits_pool o id b) h = init_pool_at-InRange id b h
