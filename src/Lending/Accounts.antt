-- ===== src/Lending/Accounts.antt =====
-- pallets/lending/src/lib.rs: the entries of the users' supplies and debts, and the sets of
-- assets that go with them.
use konomi_node.Base.{
  ℕ, Bool, Option, none, some, ◌++◌, ◌∷◌, [], ◌>>=◌, ◌>>◌, pure, gets, modify, or_panic, ◌==◌,
  if◌then◌else◌, add_word, sub_word, u128_size, contains, retain_ne, update,
}
use konomi_node.Lending.State.{Pool, UserSupply, UserDebt, Config, Call, put_supply, put_debt}

module _ {E Store : Type 0} (t : Config E Store) where
  open t use {fixed, checks}

  -- `(index / entry.index).saturating_mul_int(entry.amount)`
  unfoldable pub with_interest : ℕ → ℕ → ℕ → Option ℕ
  with_interest total_index index amount = elim (fixed.div total_index index) [
    | none ↦ none
    | some ratio ↦ some (fixed.saturating_mul_int ratio amount)
  ]

  unfoldable pub leave_supply_set : ℕ → ℕ → Call Store (Unit {0})
  leave_supply_set asset_id account = modify λ s. record s {
    user_supply_set =
        update s.user_supply_set account (retain_ne asset_id (s.user_supply_set account));
  }

  unfoldable pub leave_debt_set : ℕ → ℕ → Call Store (Unit {0})
  leave_debt_set asset_id account = modify λ s. record s {
    user_debt_set = update s.user_debt_set account (retain_ne asset_id (s.user_debt_set account));
  }

  -- An entry that fell to zero is removed, from the set of assets too.
  unfoldable pub store_supply : Pool → ℕ → ℕ → ℕ → Call Store (Unit {0})
  unfolding leave_supply_set
  store_supply pool asset_id account amount =
      if amount == 0
      then (do put_supply asset_id account none; leave_supply_set asset_id account)
      else put_supply asset_id account
          (some (record { amount = amount; index = pool.total_supply_index }))

  unfoldable pub store_debt : Pool → ℕ → ℕ → ℕ → Call Store (Unit {0})
  unfolding leave_debt_set
  store_debt pool asset_id account amount =
      if amount == 0
      then (do put_debt asset_id account none; leave_debt_set asset_id account)
      else put_debt asset_id account
          (some (record { amount = amount; index = pool.total_debt_index }))

  unfoldable pub update_found_supply :
      Pool → ℕ → ℕ → ℕ → Bool → Option UserSupply → Call Store (Unit {0})
  unfolding store_supply with_interest
  update_found_supply pool asset_id account amount positive (some entry) = do
    accrued ← or_panic (with_interest pool.total_supply_index entry.index entry.amount)
    total ← or_panic (
        if positive
        then add_word u128_size checks accrued amount
        else sub_word u128_size checks accrued amount)
    store_supply pool asset_id account total
  update_found_supply pool asset_id account amount positive none =
      if amount == 0
      then pure tt
      else put_supply asset_id account
          (some (record { amount = amount; index = pool.total_supply_index }))

  unfoldable pub update_user_supply : Pool → ℕ → ℕ → ℕ → Bool → Call Store (Unit {0})
  unfolding update_found_supply
  update_user_supply pool asset_id account amount positive = do
    found ← gets (λ s. s.user_supplies asset_id account)
    update_found_supply pool asset_id account amount positive found

  unfoldable pub update_found_debt :
      Pool → ℕ → ℕ → ℕ → Bool → Option UserDebt → Call Store (Unit {0})
  unfolding store_debt with_interest
  update_found_debt pool asset_id account amount positive (some entry) = do
    accrued ← or_panic (with_interest pool.total_debt_index entry.index entry.amount)
    total ← or_panic (
        if positive
        then add_word u128_size checks accrued amount
        else sub_word u128_size checks accrued amount)
    store_debt pool asset_id account total
  update_found_debt pool asset_id account amount positive none =
      if amount == 0
      then pure tt
      else put_debt asset_id account
          (some (record { amount = amount; index = pool.total_debt_index }))

  unfoldable pub update_user_debt : Pool → ℕ → ℕ → ℕ → Bool → Call Store (Unit {0})
  unfolding update_found_debt
  update_user_debt pool asset_id account amount positive = do
    found ← gets (λ s. s.user_debts asset_id account)
    update_found_debt pool asset_id account amount positive found

  unfoldable pub accrue_found_supply : Pool → ℕ → ℕ → Option UserSupply → Call Store (Unit {0})
  unfolding with_interest
  accrue_found_supply pool asset_id user (some entry) = do
    accrued ← or_panic (with_interest pool.total_supply_index entry.index entry.amount)
    put_supply asset_id user (some (record { amount = accrued; index = pool.total_supply_index }))
  accrue_found_supply pool asset_id user none = pure tt

  unfoldable pub accrue_supply_with_interest : Pool → ℕ → ℕ → Call Store (Unit {0})
  unfolding accrue_found_supply
  accrue_supply_with_interest pool asset_id user = do
    found ← gets (λ s. s.user_supplies asset_id user)
    accrue_found_supply pool asset_id user found

  unfoldable pub accrue_found_debt : Pool → ℕ → ℕ → Option UserDebt → Call Store (Unit {0})
  unfolding with_interest
  accrue_found_debt pool asset_id user (some entry) = do
    accrued ← or_panic (with_interest pool.total_debt_index entry.index entry.amount)
    put_debt asset_id user (some (record { amount = accrued; index = pool.total_debt_index }))
  accrue_found_debt pool asset_id user none = pure tt

  unfoldable pub accrue_debt_with_interest : Pool → ℕ → ℕ → Call Store (Unit {0})
  unfolding accrue_found_debt
  accrue_debt_with_interest pool asset_id user = do
    found ← gets (λ s. s.user_debts asset_id user)
    accrue_found_debt pool asset_id user found

  -- The step of `supply` and of `borrow` that adds the asset to the user's set, unless it is in.
  unfoldable pub join_supply_set : ℕ → ℕ → Call Store (Unit {0})
  join_supply_set asset_id account = modify λ s.
      let assets = s.user_supply_set account in
      if contains asset_id assets
      then s
      else record s { user_supply_set = update s.user_supply_set account (assets ++ asset_id ∷ []) }

  unfoldable pub join_debt_set : ℕ → ℕ → Call Store (Unit {0})
  join_debt_set asset_id account = modify λ s.
      let assets = s.user_debt_set account in
      if contains asset_id assets
      then s
      else record s { user_debt_set = update s.user_debt_set account (assets ++ asset_id ∷ []) }
