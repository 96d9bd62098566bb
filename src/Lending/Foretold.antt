-- ===== src/Lending/Foretold.antt =====
-- pallets/lending/src/lib.rs: the runtime API foretells what the accrual of a user's interest
-- will store.
use konomi_node.Base.{
  ℕ, ◌<◌, ◌≡◌, inl, inr, Option-cases, Bool-cases, Bool, some, none, arith, u128_size, u32_size,
  ◌==◌, Option, ok, panic, Outcome, sub_word, update₂, ==_iff,
}
use konomi_node.FixedPoint.{FixedPoint, IsFixedPoint}
use konomi_node.Lending.State.{Pool, UserSupply, UserDebt, State, Config, Error}
use konomi_node.Lending.Interest.{
  accrue_interest, supply_multiplier, debt_multiplier, multiplier, supply_rate_internal,
  debt_rate_internal,
}
use konomi_node.Lending.Accounts.{accrue_supply_with_interest, accrue_debt_with_interest}
use konomi_node.Lending.Info.{get_user_supply_with_interest, get_user_debt_with_interest}

module _ (f : FixedPoint) (laws : IsFixedPoint f) (checks : Bool) (now : ℕ) where
  -- Over no blocks the factor is one.
  multiplier_now : (rate : ℕ) → multiplier f rate 0 ≡ some f.one_value
  unfolding multiplier
  multiplier_now rate =
      rw (laws.from_integer-zero)
        (rw (laws.mul-zero rate) (laws.add-zero f.one_value laws.one_value-lt))

  no_time : (p : Pool) → p.last_updated ≡ now → sub_word u32_size checks now p.last_updated ≡ some 0
  unfolding sub_word
  no_time p e = ground arith

  supply_multiplier_now :
      (p : Pool) {rate : ℕ}
      → p.last_updated ≡ now
      → supply_rate_internal f p ≡ some rate
      → supply_multiplier f checks now p ≡ some f.one_value
  unfolding supply_multiplier
  supply_multiplier_now p {rate} e r = rw (no_time p e) (rw r (multiplier_now rate))

  -- The index that the accrual gives the pool is the one that the runtime API works out.
  supply_index_foretold :
      (pool p : Pool) {rate : ℕ}
      → pool.total_supply_index < u128_size
      → supply_rate_internal f pool ≡ some rate
      → accrue_interest f checks now pool ≡ some p
      → (m : ℕ) × (supply_multiplier f checks now pool ≡ some m)
        × (f.mul pool.total_supply_index m ≡ some p.total_supply_index)
  unfolding accrue_interest
  supply_index_foretold pool p small r h = elim (Bool-cases (pool.last_updated == now)) [
    | inl e ↦ (
      f.one_value,
      supply_multiplier_now pool ((==_iff _ _).0 e) r,
      ground (arith, laws.mul-one pool.total_supply_index small),
    )
    | inr e ↦ elim (Option-cases (supply_multiplier f checks now pool)) [
      | inl none_given ↦ absurd (ground arith)
      | inr (m, given) ↦ (m, given, ground arith)
    ]
  ]

  debt_multiplier_now :
      (p : Pool) {rate : ℕ}
      → p.last_updated ≡ now
      → debt_rate_internal f p ≡ some rate
      → debt_multiplier f checks now p ≡ some f.one_value
  unfolding debt_multiplier
  debt_multiplier_now p {rate} e r = rw (no_time p e) (rw r (multiplier_now rate))

  -- The index that the accrual gives the pool is the one that the runtime API works out.
  debt_index_foretold :
      (pool p : Pool) {rate : ℕ}
      → pool.total_debt_index < u128_size
      → debt_rate_internal f pool ≡ some rate
      → accrue_interest f checks now pool ≡ some p
      → (m : ℕ) × (debt_multiplier f checks now pool ≡ some m)
        × (f.mul pool.total_debt_index m ≡ some p.total_debt_index)
  unfolding accrue_interest
  debt_index_foretold pool p small r h = elim (Bool-cases (pool.last_updated == now)) [
    | inl e ↦ (
      f.one_value,
      debt_multiplier_now pool ((==_iff _ _).0 e) r,
      ground (arith, laws.mul-one pool.total_debt_index small),
    )
    | inr e ↦ elim (Option-cases (debt_multiplier f checks now pool)) [
      | inl none_given ↦ absurd (ground arith)
      | inr (m, given) ↦ (m, given, ground arith)
    ]
  ]

module _ {E Store : Type 0} (t : Config E Store) (laws : IsFixedPoint t.fixed) where
  -- The outcome of storing the answer of the runtime API as the user's entry.
  abbrev pub stores_supply :
      ℕ → ℕ → ℕ → State Store → Option ℕ → Outcome Error (State Store) (Unit {0})
  stores_supply id user index s none = panic
  stores_supply id user index s (some amount) = ok tt (record s {
    user_supplies =
        update₂ s.user_supplies id user (some (record { amount = amount; index = index }));
  })

  -- For a user with an entry, and a pool whose rate can be computed: the accrual of the user's
  -- supply, with the pool that `accrue_interest` gave, stores what the runtime API answers in the
  -- state before, with the pool's new index, and panics where that panics.
  pub accrue_supply-foretold :
      (id user : ℕ) (pool p : Pool) (entry : UserSupply) (rate : ℕ) (s : State Store)
      → s.pools id ≡ some pool
      → s.user_supplies id user ≡ some entry
      → pool.total_supply_index < u128_size
      → supply_rate_internal t.fixed pool ≡ some rate
      → accrue_interest t.fixed t.checks s.block_number pool ≡ some p
      → accrue_supply_with_interest t p id user s
        ≡ stores_supply id user p.total_supply_index s (get_user_supply_with_interest t id user s)
  unfolding accrue_supply_with_interest get_user_supply_with_interest
  accrue_supply-foretold id user pool p entry rate s found has small rated accrued =
      let (m, given, index) =
        supply_index_foretold t.fixed laws t.checks s.block_number pool p small rated accrued in
      ground arith

  -- The outcome of storing the answer of the runtime API as the user's entry.
  abbrev pub stores_debt :
      ℕ → ℕ → ℕ → State Store → Option ℕ → Outcome Error (State Store) (Unit {0})
  stores_debt id user index s none = panic
  stores_debt id user index s (some amount) = ok tt (record s {
    user_debts = update₂ s.user_debts id user (some (record { amount = amount; index = index }));
  })

  -- For a user with an entry, and a pool whose rate can be computed: the accrual of the user's
  -- debt, with the pool that `accrue_interest` gave, stores what the runtime API answers in the
  -- state before, with the pool's new index, and panics where that panics.
  pub accrue_debt-foretold :
      (id user : ℕ) (pool p : Pool) (entry : UserDebt) (rate : ℕ) (s : State Store)
      → s.pools id ≡ some pool
      → s.user_debts id user ≡ some entry
      → pool.total_debt_index < u128_size
      → debt_rate_internal t.fixed pool ≡ some rate
      → accrue_interest t.fixed t.checks s.block_number pool ≡ some p
      → accrue_debt_with_interest t p id user s
        ≡ stores_debt id user p.total_debt_index s (get_user_debt_with_interest t id user s)
  unfolding accrue_debt_with_interest get_user_debt_with_interest
  accrue_debt-foretold id user pool p entry rate s found has small rated accrued =
      let (m, given, index) =
        debt_index_foretold t.fixed laws t.checks s.block_number pool p small rated accrued in
      ground arith
