-- ===== src/Lending/Untouched.antt =====
-- pallets/lending/src/lib.rs: what the functions on users' entries leave alone.
use konomi_node.Base.{
  ℕ, ◌≡◌, refl, inl, inr, Bool, Option-cases, Bool-cases, Post, succeeds, Post-or_panic, add_word,
  sub_word, u128_size, if◌then◌else◌, ◌==◌, contains,
}
use konomi_node.Lending.State.{State, Config, Pool}
use konomi_node.Lending.Accounts.{
  update_user_supply, update_user_debt, update_found_supply, update_found_debt, store_supply,
  store_debt, accrue_found_supply, accrue_found_debt, with_interest, accrue_supply_with_interest,
  accrue_debt_with_interest, join_supply_set, join_debt_set,
}

-- The ledger, the pools, the prices' threshold and the clock stay as they were.
pub record Untouched {Store : Type 0} (s u : State Store) : Type 0 where
  pub ledger : u.ledger ≡ s.ledger
  pub pools : u.pools ≡ s.pools
  pub threshold : u.liquidation_threshold ≡ s.liquidation_threshold
  pub clock : u.block_number ≡ s.block_number

module _ {E Store : Type 0} (t : Config E Store) (pool : Pool) (id user : ℕ) (s : State Store) where
  untouched : Untouched s s
  untouched = record { ledger = refl; pools = refl; threshold = refl; clock = refl }

  pub accrue_supply-Untouched :
      {I : State Store → Type 0}
      → Post (λ _ u. Untouched s u) I (accrue_supply_with_interest t pool id user s)
  unfolding accrue_supply_with_interest
  accrue_supply-Untouched = elim (Option-cases (s.user_supplies id user)) [
    | inl e ↦ rw (e, accrue_found_supply) (succeeds untouched)
    | inr (entry, e) ↦
        rw (e, accrue_found_supply)
          (Post-or_panic (with_interest t pool.total_supply_index entry.index entry.amount) _ s
            λ _ _.
              succeeds (record { ledger = refl; pools = refl; threshold = refl; clock = refl }))
  ]

  store_supply-Untouched :
      {I : State Store → Type 0} (total : ℕ)
      → Post (λ _ u. Untouched s u) I (store_supply t pool id user total s)
  unfolding store_supply
  store_supply-Untouched total = elim (Bool-cases (total == 0)) [
    | inl e ↦
        rw (e, store_supply)
          (succeeds (record { ledger = refl; pools = refl; threshold = refl; clock = refl }))
    | inr e ↦
        rw (e, store_supply)
          (succeeds (record { ledger = refl; pools = refl; threshold = refl; clock = refl }))
  ]

  pub update_supply-Untouched :
      {I : State Store → Type 0} (amount : ℕ) (positive : Bool)
      → Post (λ _ u. Untouched s u) I (update_user_supply t pool id user amount positive s)
  unfolding update_user_supply
  update_supply-Untouched amount positive = elim (Option-cases (s.user_supplies id user)) [
    | inl e ↦ elim (Bool-cases (amount == 0)) [
      | inl z ↦ rw (e, update_found_supply) (rw z (succeeds untouched))
      | inr z ↦
          rw (e, update_found_supply)
            (rw z
              (succeeds (record { ledger = refl; pools = refl; threshold = refl; clock = refl })))
    ]
    | inr (entry, e) ↦
        rw (e, update_found_supply)
          (Post-or_panic (with_interest t pool.total_supply_index entry.index entry.amount) _ s
            λ accrued _.
              Post-or_panic
                (if positive
                  then add_word u128_size t.checks accrued amount
                  else sub_word u128_size t.checks accrued amount)
                _ s λ total _. store_supply-Untouched total)
  ]

  pub join_supply-Untouched :
      {I : State Store → Type 0} → Post (λ _ u. Untouched s u) I (join_supply_set t id user s)
  unfolding join_supply_set
  join_supply-Untouched = elim (Bool-cases (contains id (s.user_supply_set user))) [
    | inl e ↦ rw e (succeeds untouched)
    | inr e ↦
        rw e (succeeds (record { ledger = refl; pools = refl; threshold = refl; clock = refl }))
  ]

  pub accrue_debt-Untouched :
      {I : State Store → Type 0}
      → Post (λ _ u. Untouched s u) I (accrue_debt_with_interest t pool id user s)
  unfolding accrue_debt_with_interest
  accrue_debt-Untouched = elim (Option-cases (s.user_debts id user)) [
    | inl e ↦ rw (e, accrue_found_debt) (succeeds untouched)
    | inr (entry, e) ↦
        rw (e, accrue_found_debt)
          (Post-or_panic (with_interest t pool.total_debt_index entry.index entry.amount) _ s λ _ _.
            succeeds (record { ledger = refl; pools = refl; threshold = refl; clock = refl }))
  ]

  store_debt-Untouched :
      {I : State Store → Type 0} (total : ℕ)
      → Post (λ _ u. Untouched s u) I (store_debt t pool id user total s)
  unfolding store_debt
  store_debt-Untouched total = elim (Bool-cases (total == 0)) [
    | inl e ↦
        rw (e, store_debt)
          (succeeds (record { ledger = refl; pools = refl; threshold = refl; clock = refl }))
    | inr e ↦
        rw (e, store_debt)
          (succeeds (record { ledger = refl; pools = refl; threshold = refl; clock = refl }))
  ]

  pub update_debt-Untouched :
      {I : State Store → Type 0} (amount : ℕ) (positive : Bool)
      → Post (λ _ u. Untouched s u) I (update_user_debt t pool id user amount positive s)
  unfolding update_user_debt
  update_debt-Untouched amount positive = elim (Option-cases (s.user_debts id user)) [
    | inl e ↦ elim (Bool-cases (amount == 0)) [
      | inl z ↦ rw (e, update_found_debt) (rw z (succeeds untouched))
      | inr z ↦
          rw (e, update_found_debt)
            (rw z
              (succeeds (record { ledger = refl; pools = refl; threshold = refl; clock = refl })))
    ]
    | inr (entry, e) ↦
        rw (e, update_found_debt)
          (Post-or_panic (with_interest t pool.total_debt_index entry.index entry.amount) _ s
            λ accrued _.
              Post-or_panic
                (if positive
                  then add_word u128_size t.checks accrued amount
                  else sub_word u128_size t.checks accrued amount)
                _ s λ total _. store_debt-Untouched total)
  ]

  pub join_debt-Untouched :
      {I : State Store → Type 0} → Post (λ _ u. Untouched s u) I (join_debt_set t id user s)
  unfolding join_debt_set
  join_debt-Untouched = elim (Bool-cases (contains id (s.user_debt_set user))) [
    | inl e ↦ rw e (succeeds untouched)
    | inr e ↦
        rw e (succeeds (record { ledger = refl; pools = refl; threshold = refl; clock = refl }))
  ]
