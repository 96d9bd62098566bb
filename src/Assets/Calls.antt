-- ===== src/Assets/Calls.antt =====
-- pallets/assets/src/lib.rs: the dispatchable calls and the functions that other pallets use.
-- `checks` says whether the build has overflow checks. The debug prints are left out.
use konomi_node.Base.{
  ℕ, Bool, not, List, [], ◌∷◌, Origin, ignore_result, ◌>>=◌, ◌>>◌, pure, gets, or_panic, ok_or,
  modify, ensure, add_word, sub_word, u64_size, u128_size, ◌==◌, leb, update,
}
use konomi_node.FixedPoint.{FixedPoint}
use konomi_node.Assets.State.{
  State, Call, issued, transferred, destroyed, bad_origin, zero_balance, zero_amount, low_balance,
  put_balance, put_supply, deposit_event,
}

module _ (checks : Bool) where
  -- `fn _issue`; the dispatchable `issue` does the same for its signer.
  unfoldable pub issue_to : ℕ → ℕ → Call (Unit {0})
  issue_to account total = do
    id ← gets (λ s. s.next_asset_id)
    next ← or_panic (add_word u64_size checks id 1)
    modify (λ s. record s { next_asset_id = next })
    modify (put_balance id account total)
    modify (put_supply id total)
    deposit_event (issued id account total)

  unfoldable pub issue : Origin → ℕ → Call (Unit {0})
  unfolding issue_to
  issue origin total = do account ← ok_or origin.signed_by bad_origin; issue_to account total

  -- `take` reads the balance and removes the entry, before it is tested.
  unfoldable pub destroy : Origin → ℕ → Call (Unit {0})
  destroy origin id = do
    account ← ok_or origin.signed_by bad_origin
    balance ← gets (λ s. s.balances id account)
    modify (put_balance id account 0)
    ensure (not (balance == 0)) zero_balance
    supply ← gets (λ s. s.total_supply id)
    rest ← or_panic (sub_word u128_size checks supply balance)
    modify (put_supply id rest)
    deposit_event (destroyed id account balance)

  unfoldable pub transfer : ℕ → ℕ → ℕ → ℕ → Call (Unit {0})
  transfer from_account id to_account amount = do
    origin_balance ← gets (λ s. s.balances id from_account)
    ensure (not (amount == 0)) zero_amount
    ensure (leb amount origin_balance) low_balance
    deposit_event (transferred id from_account to_account amount)
    rest ← or_panic (sub_word u128_size checks origin_balance amount)
    modify (put_balance id from_account rest)
    target_balance ← gets (λ s. s.balances id to_account)
    sum ← or_panic (add_word u128_size checks target_balance amount)
    modify (put_balance id to_account sum)

  unfoldable pub transfer_asset : Origin → ℕ → ℕ → ℕ → Call (Unit {0})
  transfer_asset origin id to_account amount = do
    from_account ← ok_or origin.signed_by bad_origin
    ignore_result (transfer from_account id to_account amount)

unfoldable pub set_inherent_asset : Origin → ℕ → Call (Unit {0})
set_inherent_asset origin asset = modify (λ s. record s { inherent_asset = asset })

-- `fn _set_price`
unfoldable pub put_price : ℕ → ℕ → Call (Unit {0})
put_price id price = modify (λ s. record s { price = update s.price id price })

unfoldable pub set_price : Origin → ℕ → ℕ → Call (Unit {0})
unfolding put_price
set_price origin id price = do ensure origin.is_root bad_origin; put_price id price

-- The pallet's `enum Call`.
pub data Request : Type 0 where
  issues : Origin → ℕ → Request
  destroys : Origin → ℕ → Request
  sets_inherent : Origin → ℕ → Request
  transfers : Origin → ℕ → ℕ → ℕ → Request
  sets_price : Origin → ℕ → ℕ → Request

unfoldable pub dispatch : Bool → Request → Call (Unit {0})
dispatch checks (issues origin total) = issue checks origin total
dispatch checks (destroys origin id) = destroy checks origin id
dispatch checks (sets_inherent origin asset) = set_inherent_asset origin asset
dispatch checks (transfers origin id to amount) = transfer_asset checks origin id to amount
dispatch checks (sets_price origin id price) = set_price origin id price

-- `fn balance`
abbrev pub balance : ℕ → ℕ → State → ℕ
balance id who s = s.balances id who

-- `Oracle::get_rate`
abbrev pub get_rate : ℕ → State → ℕ
get_rate id s = s.price id

-- One entry of the genesis configuration: an asset for the account, of which 500000 units go to
-- the owner, and its price. The results of `_issue` and `transfer` are dropped.
unfoldable pub genesis_asset : Bool → FixedPoint → ℕ × ℕ × ℕ → Call (Unit {0})
genesis_asset checks fixed (account, amount, price) = do
  issue_to checks account amount
  to_account ← gets (λ s. s.owner)
  next ← gets (λ s. s.next_asset_id)
  asset_id ← or_panic (sub_word u64_size checks next 1)
  ignore_result (transfer checks account asset_id to_account 500000)
  put_price asset_id (fixed.saturating_from_integer price)

-- The loop of `build` in `add_extra_genesis`.
unfoldable pub genesis : Bool → FixedPoint → List (ℕ × ℕ × ℕ) → Call (Unit {0})
genesis checks fixed [] = pure tt
genesis checks fixed (asset ∷ assets) = do
  genesis_asset checks fixed asset
  genesis checks fixed assets
