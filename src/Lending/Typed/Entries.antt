-- ===== src/Lending/Typed/Entries.antt =====
-- pallets/lending/src/lib.rs: the users' entries and sets, and the transfers, as writes that keep
-- the numbers in their types.
use konomi_node.Base.{
  ℕ, ◌<◌, ◌≡◌, refl, Bool, Option, none, some, arith, u128_size, if◌then◌else◌, Bool-cases, inl,
  inr, contains, Outcome, ok, err, panic, add_word, sub_word,
}
use konomi_node.Base.Keeps.{Keeps, Ends, value_rules, Keeps-bind-unwrap}
use konomi_node.FixedPoint.{IsTypedFixed}
use konomi_node.Lending.State.{State, Config, Error, Pool, transfer_failed, UserSupply, UserDebt}
use konomi_node.Lending.Accounts.{
  with_interest, update_user_supply, update_user_debt, update_found_supply, update_found_debt,
  store_supply, store_debt, accrue_found_supply, accrue_found_debt, accrue_supply_with_interest,
  accrue_debt_with_interest, join_supply_set, join_debt_set, leave_supply_set, leave_debt_set,
}
use konomi_node.Lending.Calls.{move_asset}
use konomi_node.Lending.Words.{
  PoolInRange, InRange, elsewhere, put_supply-InRange, remove_supply-InRange, put_debt-InRange,
  remove_debt-InRange,
}

module _ {E Store : Type 0} (t : Config E Store) (typed : IsTypedFixed t.fixed) (now : ℕ) where
  pub leave_supply-InRange : (id who : ℕ) → Keeps (InRange Store now) (leave_supply_set t id who)
  unfolding leave_supply_set
  leave_supply-InRange id who = record { at = λ s h. elsewhere now s _ refl refl refl refl refl h }

  pub leave_debt-InRange : (id who : ℕ) → Keeps (InRange Store now) (leave_debt_set t id who)
  unfolding leave_debt_set
  leave_debt-InRange id who = record { at = λ s h. elsewhere now s _ refl refl refl refl refl h }

  pub join_supply-InRange : (id who : ℕ) → Keeps (InRange Store now) (join_supply_set t id who)
  unfolding join_supply_set
  join_supply-InRange id who = record {
    at = λ s h. elim (Bool-cases (contains id (s.user_supply_set who))) [
      | inl e ↦ rw e h
      | inr e ↦ rw e (elsewhere now s _ refl refl refl refl refl h)
    ];
  }

  pub join_debt-InRange : (id who : ℕ) → Keeps (InRange Store now) (join_debt_set t id who)
  unfolding join_debt_set
  join_debt-InRange id who = record {
    at = λ s h. elim (Bool-cases (contains id (s.user_debt_set who))) [
      | inl e ↦ rw e h
      | inr e ↦ rw e (elsewhere now s _ refl refl refl refl refl h)
    ];
  }

  pub moved-InRange :
      (s : State Store) (o : Outcome E Store (Unit {0}))
      → InRange Store now s
      → Ends (InRange Store now) (elim o as (λ _. Outcome Error (State Store) (Unit {0})) [
        | ok _ ledger ↦ ok tt (record s { ledger = ledger })
        | err _ ledger ↦ err transfer_failed (record s { ledger = ledger })
        | panic ↦ panic
      ])
  moved-InRange s (ok _ l) h = elsewhere now s (record s { ledger = l }) refl refl refl refl refl h
  moved-InRange s (err _ l) h = elsewhere now s (record s { ledger = l }) refl refl refl refl refl h
  moved-InRange s panic h = tt

  pub move-InRange : (from id to n : ℕ) → Keeps (InRange Store now) (move_asset t from id to n)
  unfolding move_asset
  move-InRange from id to n = record {
    at = λ s h. moved-InRange s (t.multi_asset.transfer from id to n s.ledger) h;
  }

  with_interest-lt : (i j n : ℕ) {m : ℕ} → with_interest t i j n ≡ some m → m < u128_size
  unfolding with_interest
  with_interest-lt i j n h = grind (arith, typed.mul_int_small)

  module _ (p : Pool) (r : PoolInRange now p) where
    pub store_supply-InRange :
        (id who n : ℕ) → n < u128_size → Keeps (InRange Store now) (store_supply t p id who n)
    unfolding store_supply
    store_supply-InRange id who n small = search (
      value_rules,
      remove_supply-InRange now,
      leave_supply-InRange,
      put_supply-InRange now id who n p.total_supply_index small r.total_supply_index,
    )

    pub store_debt-InRange :
        (id who n : ℕ) → n < u128_size → Keeps (InRange Store now) (store_debt t p id who n)
    unfolding store_debt
    store_debt-InRange id who n small = search (
      value_rules,
      remove_debt-InRange now,
      leave_debt-InRange,
      put_debt-InRange now id who n p.total_debt_index small r.total_debt_index,
    )

    total-lt :
        (positive : Bool) (a n : ℕ) {c : ℕ}
        → a < u128_size
        → (if positive then add_word u128_size t.checks a n else sub_word u128_size t.checks a n)
          ≡ some c
        → c < u128_size
    unfolding add_word sub_word
    total-lt positive a n small h = ground arith

    pub update_found_supply-InRange :
        (id who n : ℕ) (positive : Bool) (e : Option UserSupply)
        → n < u128_size
        → Keeps (InRange Store now) (update_found_supply t p id who n positive e)
    unfolding update_found_supply
    update_found_supply-InRange id who n positive none small = search (
      value_rules,
      put_supply-InRange now id who n p.total_supply_index small r.total_supply_index,
    )
    update_found_supply-InRange id who n positive (some e) small =
        Keeps-bind-unwrap _ _ λ accrued first. Keeps-bind-unwrap _ _ λ total second.
          store_supply-InRange id who total
            (total-lt positive accrued n (with_interest-lt _ _ _ first) second)

    pub update_found_debt-InRange :
        (id who n : ℕ) (positive : Bool) (e : Option UserDebt)
        → n < u128_size
        → Keeps (InRange Store now) (update_found_debt t p id who n positive e)
    unfolding update_found_debt
    update_found_debt-InRange id who n positive none small =
        search
          (value_rules, put_debt-InRange now id who n p.total_debt_index small r.total_debt_index)
    update_found_debt-InRange id who n positive (some e) small =
        Keeps-bind-unwrap _ _ λ accrued first. Keeps-bind-unwrap _ _ λ total second.
          store_debt-InRange id who total
            (total-lt positive accrued n (with_interest-lt _ _ _ first) second)

    pub update_supply-InRange :
        (id who n : ℕ) (positive : Bool)
        → n < u128_size
        → Keeps (InRange Store now) (update_user_supply t p id who n positive)
    unfolding update_user_supply
    update_supply-InRange id who n positive small =
        search (value_rules, update_found_supply-InRange, small)

    pub update_debt-InRange :
        (id who n : ℕ) (positive : Bool)
        → n < u128_size
        → Keeps (InRange Store now) (update_user_debt t p id who n positive)
    unfolding update_user_debt
    update_debt-InRange id who n positive small =
        search (value_rules, update_found_debt-InRange, small)

    pub accrue_found_supply-InRange :
        (id who : ℕ) (e : Option UserSupply)
        → Keeps (InRange Store now) (accrue_found_supply t p id who e)
    unfolding accrue_found_supply
    accrue_found_supply-InRange id who none = search value_rules
    accrue_found_supply-InRange id who (some e) = Keeps-bind-unwrap _ _ λ accrued first.
        put_supply-InRange now id who accrued p.total_supply_index (with_interest-lt _ _ _ first)
          r.total_supply_index

    pub accrue_found_debt-InRange :
        (id who : ℕ) (e : Option UserDebt)
        → Keeps (InRange Store now) (accrue_found_debt t p id who e)
    unfolding accrue_found_debt
    accrue_found_debt-InRange id who none = search value_rules
    accrue_found_debt-InRange id who (some e) = Keeps-bind-unwrap _ _ λ accrued first.
        put_debt-InRange now id who accrued p.total_debt_index (with_interest-lt _ _ _ first)
          r.total_debt_index

    pub accrue_supply-InRange :
        (id who : ℕ) → Keeps (InRange Store now) (accrue_supply_with_interest t p id who)
    unfolding accrue_supply_with_interest
    accrue_supply-InRange id who = search (value_rules, accrue_found_supply-InRange)

    pub accrue_debt-InRange :
        (id who : ℕ) → Keeps (InRange Store now) (accrue_debt_with_interest t p id who)
    unfolding accrue_debt_with_interest
    accrue_debt-InRange id who = search (value_rules, accrue_found_debt-InRange)
