-- ===== src/Swap/Liquidity.antt =====
-- pallets/swap/src/lib.rs: the liquidity of the pools, and of the accounts in them.
use konomi_node.Base.{
  ℕ, Bool, ◌>>=◌, ◌>>◌, gets, modify, or_panic, ◌==◌, if◌then◌else◌, add_word, sub_word, mul_word,
  div_word, u128_size, update, update₂,
}
use konomi_node.Swap.State.{Config, Call, inherent_asset_id, balance, transfer}
use konomi_node.Swap.Exchange.{report_reserves}

abbrev pub set_liquidity : ℕ → ℕ → ℕ → Call (Unit {0})
set_liquidity asset_id account liquidity =
    modify λ s. record s {
      account_liquidities = update₂ s.account_liquidities asset_id account liquidity;
    }

abbrev pub get_liquidity : ℕ → ℕ → Call ℕ
get_liquidity asset_id account = gets (λ s. s.account_liquidities asset_id account)

abbrev pub get_total_liquidity : ℕ → Call ℕ
get_total_liquidity asset_id = gets (λ s. s.total_liquidities asset_id)

abbrev pub put_total_liquidity : ℕ → ℕ → Call (Unit {0})
put_total_liquidity asset_id liquidity =
    modify λ s. record s { total_liquidities = update s.total_liquidities asset_id liquidity }

unfoldable pub increase_total_liquidity : Bool → ℕ → ℕ → Call (Unit {0})
increase_total_liquidity checks asset_id liquidity = do
  total ← get_total_liquidity asset_id
  total' ← or_panic (add_word u128_size checks total liquidity)
  put_total_liquidity asset_id total'

unfoldable pub decrease_total_liquidity : Bool → ℕ → ℕ → Call (Unit {0})
decrease_total_liquidity checks asset_id liquidity = do
  total ← get_total_liquidity asset_id
  total' ← or_panic (sub_word u128_size checks total liquidity)
  put_total_liquidity asset_id total'

module _ (t : Config) where
  open t use {checks, make_exchange_address}

  -- The first injection: the liquidity is the amount of the inherent asset.
  unfoldable pub first_liquidity : ℕ → ℕ → ℕ → ℕ → ℕ → ℕ → Call (Unit {0})
  unfolding increase_total_liquidity
  first_liquidity account asset_id inherent address inherent_amount asset_amount = do
    transfer checks account inherent address inherent_amount
    transfer checks account asset_id address asset_amount
    set_liquidity asset_id account inherent_amount
    increase_total_liquidity checks asset_id inherent_amount

  -- A later one: in proportion to what the pool held of the inherent asset.
  unfoldable pub more_liquidity : ℕ → ℕ → ℕ → ℕ → ℕ → ℕ → ℕ → Call (Unit {0})
  unfolding increase_total_liquidity
  more_liquidity account asset_id inherent address total inherent_amount asset_amount = do
    inherent_in_pool ← balance inherent address
    transfer checks account inherent address inherent_amount
    transfer checks account asset_id address asset_amount
    product ← or_panic (mul_word u128_size checks total inherent_amount)
    minted ← or_panic (div_word product inherent_in_pool)
    pool_liquidity ← get_liquidity asset_id account
    sum ← or_panic (add_word u128_size checks pool_liquidity minted)
    set_liquidity asset_id account sum
    increase_total_liquidity checks asset_id minted

  -- `fn _add_liquidity`; the code does not look at `min_liquidity`.
  unfoldable pub inject_liquidity : ℕ → ℕ → ℕ → ℕ → ℕ → Call (Unit {0})
  unfolding first_liquidity more_liquidity report_reserves
  inject_liquidity account asset_id inherent_amount asset_amount min_liquidity = do
    inherent ← inherent_asset_id
    let address = make_exchange_address inherent asset_id
    total ← get_total_liquidity asset_id
    if total == 0
        then first_liquidity account asset_id inherent address inherent_amount asset_amount
        else more_liquidity account asset_id inherent address total inherent_amount asset_amount
    modify (λ s. record s { exchange_accounts = update s.exchange_accounts asset_id address })
    report_reserves address asset_id inherent

  -- `fn _remove_liquidity`; the code does not look at the two minima.
  unfoldable pub take_liquidity : ℕ → ℕ → ℕ → ℕ → ℕ → Call (Unit {0})
  unfolding decrease_total_liquidity report_reserves
  take_liquidity account asset_id liquidity min_inherent_amount min_asset_amount = do
    inherent ← inherent_asset_id
    let address = make_exchange_address inherent asset_id
    account_liquidity ← get_liquidity asset_id account
    total ← get_total_liquidity asset_id
    inherent_in_pool ← balance inherent address
    asset_in_pool ← balance asset_id address
    inherent_product ← or_panic (mul_word u128_size checks inherent_in_pool liquidity)
    inherent_amount ← or_panic (div_word inherent_product total)
    asset_product ← or_panic (mul_word u128_size checks asset_in_pool liquidity)
    asset_amount ← or_panic (div_word asset_product total)
    transfer checks address inherent account inherent_amount
    transfer checks address asset_id account asset_amount
    rest ← or_panic (sub_word u128_size checks account_liquidity liquidity)
    set_liquidity asset_id account rest
    decrease_total_liquidity checks asset_id liquidity
    report_reserves address asset_id inherent
