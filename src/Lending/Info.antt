-- ===== src/Lending/Info.antt =====
-- pallets/lending/src/lib.rs: the functions that the runtime API exposes. They read the storage
-- only; `none` is a panic.
use konomi_node.Base.{ℕ, Option, none, some, List, [], ◌∷◌, add_word, u128_size}
use konomi_node.Base.Panic.{◌>>=◌}
use konomi_node.Lending.State.{Pool, UserSupply, UserDebt, State, Config}
use konomi_node.Lending.Interest.{
  supply_rate_internal, debt_rate_internal, supply_multiplier, debt_multiplier,
}
use konomi_node.Lending.Accounts.{with_interest}

module _ {E Store : Type 0} (t : Config E Store) where
  open t use {fixed, checks, oracle}

  unfoldable pub supply_rate : ℕ → State Store → Option ℕ
  supply_rate id s = elim (s.pools id) [
    | none ↦ some fixed.zero_value
    | some pool ↦ supply_rate_internal fixed pool
  ]

  unfoldable pub debt_rate : ℕ → State Store → Option ℕ
  debt_rate id s = elim (s.pools id) [
    | none ↦ some fixed.zero_value
    | some pool ↦ debt_rate_internal fixed pool
  ]

  supply_at : ℕ → Option UserSupply → Option ℕ
  supply_at index none = some 0
  supply_at index (some entry) = with_interest t index entry.index entry.amount

  unfoldable pub get_user_supply_with_interest : ℕ → ℕ → State Store → Option ℕ
  unfolding supply_at
  get_user_supply_with_interest asset_id user s = elim (s.pools asset_id) [
    | none ↦ some 0
    | some pool ↦ (do
      factor ← supply_multiplier fixed checks s.block_number pool
      total_supply_index ← fixed.mul pool.total_supply_index factor
      supply_at total_supply_index (s.user_supplies asset_id user))
  ]

  debt_at : ℕ → Option UserDebt → Option ℕ
  debt_at index none = some 0
  debt_at index (some entry) = with_interest t index entry.index entry.amount

  unfoldable pub get_user_debt_with_interest : ℕ → ℕ → State Store → Option ℕ
  unfolding debt_at
  get_user_debt_with_interest asset_id user s = elim (s.pools asset_id) [
    | none ↦ some 0
    | some pool ↦ (do
      factor ← debt_multiplier fixed checks s.block_number pool
      total_debt_index ← fixed.mul pool.total_debt_index factor
      debt_at total_debt_index (s.user_debts asset_id user))
  ]

  -- `Self::pool(asset).unwrap().safe_factor`
  safe_factor_of : Option Pool → Option ℕ
  safe_factor_of none = none
  safe_factor_of (some pool) = some pool.safe_factor

  -- The loop over the user's supplied assets, with the two sums so far.
  unfoldable pub supply_totals : ℕ → State Store → List ℕ → ℕ → ℕ → Option (ℕ × ℕ)
  unfolding safe_factor_of
  supply_totals user s [] balance converted = some (balance, converted)
  supply_totals user s (asset ∷ assets) balance converted = do
    amount ← get_user_supply_with_interest asset user s
    let price = oracle.get_rate asset s.ledger
    balance' ← add_word u128_size checks balance (fixed.saturating_mul_int price amount)
    safe_factor ← safe_factor_of (s.pools asset)
    safe_price ← fixed.mul price safe_factor
    converted' ← add_word u128_size checks converted (fixed.saturating_mul_int safe_price amount)
    supply_totals user s assets balance' converted'

  -- The loop over the user's borrowed assets.
  unfoldable pub debt_total : ℕ → State Store → List ℕ → ℕ → Option ℕ
  debt_total user s [] balance = some balance
  debt_total user s (asset ∷ assets) balance = do
    amount ← get_user_debt_with_interest asset user s
    let price = oracle.get_rate asset s.ledger
    balance' ← add_word u128_size checks balance (fixed.saturating_mul_int price amount)
    debt_total user s assets balance'

  -- The value supplied, the same reduced by the safe factors, and the value borrowed.
  unfoldable pub get_user_info : ℕ → State Store → Option (ℕ × ℕ × ℕ)
  get_user_info user s = do
    supplies ← supply_totals user s (s.user_supply_set user) 0 0
    debt ← debt_total user s (s.user_debt_set user) 0
    some (supplies.0, supplies.1, debt)
