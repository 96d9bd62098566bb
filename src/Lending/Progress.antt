-- ===== src/Lending/Progress.antt =====
-- pallets/lending/src/lib.rs: when a call succeeds.
use konomi_node.Base.{
  ℕ, ◌+◌, ◌≤◌, ◌<◌, ◌≡◌, ◌≢◌, refl, true, arith, some, none, ok, err, panic, Outcome, Origin,
  u128_size, contains, contains-push, after, add_word,
}
use konomi_node.Traits.{IsMultiAsset, Transfers}
use konomi_node.Lending.State.{State, Config, Pool}
use konomi_node.Lending.Interest.{accrue_interest, update_pool_supply}
use konomi_node.Lending.Accounts.{update_user_supply, update_found_supply, join_supply_set}
use konomi_node.Lending.Calls.{supply, accrued_pool, move_asset}

module _ {E Store : Type 0} (balance : ℕ → ℕ → Store → ℕ) (from id to amount : ℕ) (s : Store) where
  -- A transfer that can be paid succeeds.
  pub transfer_paid :
      (o : Outcome E Store (Unit {0}))
      → Transfers balance from id to amount s o
      → amount ≢ 0
      → amount ≤ balance id from s
      → (l : Store) × (o ≡ ok tt l)
  transfer_paid (ok _ l) h pos enough = (l, refl)
  transfer_paid (err _ l) h pos enough = absurd (ground arith)
  transfer_paid panic h pos enough = absurd h

module _ {E Store : Type 0} (t : Config E Store) (balance : ℕ → ℕ → Store → ℕ)
    (contract : IsMultiAsset t.multi_asset balance) where
  -- Over assets that meet the contract: where an account other than the pallet's, without a supply
  -- in an asset's pool, calls `supply` with a positive amount that it has, interest accrues, and
  -- no sum overflows, the call succeeds; the account's entry is the amount at the pool's new
  -- index, the asset is in its set, and the pool's supply has grown by the amount.
  pub supply_first :
      (origin : Origin) (account id amount : ℕ) (s : State Store) (stored pool : Pool)
      → origin.signed_by ≡ some account
      → s.pools id ≡ some stored
      → accrue_interest t.fixed t.checks s.block_number stored ≡ some pool
      → s.user_supplies id account ≡ none
      → account ≢ t.account_id
      → amount ≢ 0
      → amount ≤ balance id account s.ledger
      → balance id account s.ledger + balance id t.account_id s.ledger < u128_size
      → pool.supply + amount < u128_size
      → let u = after s (supply t origin id amount s) in
        (supply t origin id amount s ≡ ok tt u)
        × (u.user_supplies id account
            ≡ some (record { amount = amount; index = pool.total_supply_index }))
        × (contains id (u.user_supply_set account) ≡ true)
        × (u.pools id ≡ some (record pool { supply = pool.supply + amount }))
  unfolding supply accrued_pool move_asset update_user_supply update_found_supply update_pool_supply
      join_supply_set add_word
  supply_first origin account id amount s stored pool signed found grown fresh apart pos enough fits
        room =
      let (l, moved) =
        transfer_paid balance account id t.account_id amount s.ledger _
          (contract.transfers account id t.account_id amount s.ledger apart fits) pos enough in
      let joined = contains-push id id (s.user_supply_set account) in ground arith
