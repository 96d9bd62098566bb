-- ===== src/Lending/Typed/Calls.antt =====
-- pallets/lending/src/lib.rs: `supply`, `withdraw`, `borrow` and `repay` store numbers of their
-- types.
use konomi_node.Base.{
  ℕ, ◌<◌, ◌≡◌, Option, some, u128_size, Origin, Option-cases, inl, inr, or_panic, ◌>>=◌, ◌>>◌,
  false, gets,
}
use konomi_node.Base.Keeps.{
  Keeps, Ends, value_rules, Keeps-then, Keeps-bind-unwrap, Keeps-bind-gets,
}
use konomi_node.FixedPoint.{IsTypedFixed}
use konomi_node.Lending.State.{Config, Call, Pool, put_pool, deposit_event, withdrawn}
use konomi_node.Lending.Interest.{accrue_interest, update_pool_supply}
use konomi_node.Lending.Accounts.{update_user_supply}
use konomi_node.Lending.Calls.{supply, withdraw, borrow, repay, move_asset, accrued_pool}
use konomi_node.Lending.Words.{
  PoolInRange, InRange, put_pool-InRange, event-InRange, accrue_interest-InRange,
  update_pool_supply-InRange, update_pool_debt-InRange, limited,
}
use konomi_node.Lending.Typed.Entries.{
  join_supply-InRange, join_debt-InRange, move-InRange, update_supply-InRange, update_debt-InRange,
  accrue_supply-InRange, accrue_debt-InRange,
}

module _ {E Store : Type 0} (t : Config E Store) (typed : IsTypedFixed t.fixed) (now : ℕ) where
  -- What is read of the storage is in range.
  pub read_pool-InRange :
      {A : Type 0} (id : ℕ) (f : Option Pool → Call Store A)
      → ((found : Option Pool)
          → ((p : Pool) → found ≡ some p → PoolInRange now p)
          → Keeps (InRange Store now) (f found))
      → Keeps (InRange Store now) (gets (λ s. s.pools id) >>= f)
  read_pool-InRange id f k =
      Keeps-bind-gets (λ found. (p : Pool) → found ≡ some p → PoolInRange now p) _ f
        (λ s h. h.pools id) k

  pub accrued_at-InRange :
      (time : ℕ)
      → time ≡ now
      → (p q : Pool) → accrue_interest t.fixed t.checks time p ≡ some q
      → PoolInRange now p
      → PoolInRange now q
  accrued_at-InRange time same p q h =
      accrue_interest-InRange t.fixed typed t.checks now p q (rw (← same) h)

  pub accrued-InRange :
      {A : Type 0} (id : ℕ) (f : Pool → Call Store A)
      → ((p : Pool) → PoolInRange now p → Keeps (InRange Store now) (f p))
      → Keeps (InRange Store now) (accrued_pool t id >>= f)
  unfolding accrued_pool
  accrued-InRange id f k = record {
    at = λ s h. elim (Option-cases (s.pools id)) [
      | inl e ↦ rw (e, Ends) h
      | inr (stored, e) ↦
          elim (Option-cases (accrue_interest t.fixed t.checks s.block_number stored)) [
            | inl g ↦ rw (e, g, Ends) tt
            | inr (q, g) ↦
                rw (e, g, Ends)
                  ((k q (
                      accrue_interest-InRange t.fixed typed t.checks now stored q (rw (← h.clock) g)
                        (h.pools id stored e))).at
                    s h)
          ]
    ];
  }

  pub supply-InRange :
      (o : Origin) (id n : ℕ) → n < u128_size → Keeps (InRange Store now) (supply t o id n)
  unfolding supply
  supply-InRange o id n small =
      search
        (
          accrued-InRange,
          value_rules,
          move-InRange t typed now,
          update_supply-InRange t typed now,
          join_supply-InRange t typed now,
          event-InRange,
          put_pool-InRange,
          update_pool_supply-InRange t.fixed typed t.checks now,
          small,
        )
        depth 40 fits 5000

  -- The end of `withdraw`.
  pub withdrawn-InRange :
      (p : Pool)
      → PoolInRange now p
      → (id account n : ℕ) → n < u128_size
      → Keeps (InRange Store now) (do
        move_asset t t.account_id id account n
        update_user_supply t p id account n false
        q ← or_panic (update_pool_supply t.checks p n false)
        deposit_event (withdrawn id account n)
        put_pool id q)
  withdrawn-InRange p r id account n small =
      Keeps-then _ _ (move-InRange t typed now t.account_id id account n) (
        Keeps-then _ _ (update_supply-InRange t typed now p r id account n false small) (
          Keeps-bind-unwrap _ _ λ q e. Keeps-then _ _ (event-InRange now (withdrawn id account n)) (
            put_pool-InRange now id q
              (update_pool_supply-InRange t.fixed typed t.checks now p q n false e r))))

  pub withdraw-InRange :
      (o : Origin) (id n : ℕ) → n < u128_size → Keeps (InRange Store now) (withdraw t o id n)
  unfolding withdraw
  withdraw-InRange o id n small =
      search
        (
          accrued-InRange,
          value_rules,
          accrue_supply-InRange t typed now,
          withdrawn-InRange,
          limited t.fixed typed t.checks now,
          small,
        )
        depth 60 fits 9000

  pub borrow-InRange :
      (o : Origin) (id n : ℕ) → n < u128_size → Keeps (InRange Store now) (borrow t o id n)
  unfolding borrow
  borrow-InRange o id n small =
      search
        (
          accrued-InRange,
          value_rules,
          move-InRange t typed now,
          update_debt-InRange t typed now,
          accrue_debt-InRange t typed now,
          join_debt-InRange t typed now,
          event-InRange,
          put_pool-InRange,
          update_pool_debt-InRange t.fixed typed t.checks now,
          small,
        )
        depth 60 fits 9000

  pub repay-InRange :
      (o : Origin) (id n : ℕ) → n < u128_size → Keeps (InRange Store now) (repay t o id n)
  unfolding repay
  repay-InRange o id n small =
      search
        (
          accrued-InRange,
          value_rules,
          move-InRange t typed now,
          update_debt-InRange t typed now,
          accrue_debt-InRange t typed now,
          event-InRange,
          put_pool-InRange,
          update_pool_debt-InRange t.fixed typed t.checks now,
          limited,
          small,
        )
        depth 60 fits 9000
