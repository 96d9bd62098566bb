-- ===== src/Lending/Booking.antt =====
-- pallets/lending/src/lib.rs: what the calls at a pool have in common in how they book.
use konomi_node.Base.{
  ℕ, ◌⊎◌, inl, inr, refl, ◌+◌, ◌≤◌, ◌<◌, ◌≡◌, ◌≢◌, Bool, true, false, Option, none, some, Post,
  Post-map, u128_size,
}
use konomi_node.Traits.{IsMultiAsset}
use konomi_node.Lending.State.{State, Config}
use konomi_node.Lending.Dispatch.{
  Request, supplies, withdraws, borrows, repays, liquidates, inits_pool, dispatch,
}
use konomi_node.Lending.Writes.{changes}
use konomi_node.Lending.Cash.{Settled}
use konomi_node.Lending.Untouched.{Untouched}
use konomi_node.Lending.Settlement.{supply-Settled, repay-Settled}
use konomi_node.Lending.Settlement.Withdrawal.{withdraw-Settled}
use konomi_node.Lending.Settlement.Borrowing.{borrow-Settled}

-- The asset whose pool a call books in, where it is one of the four.
abbrev pub books_in : Request → Option ℕ
books_in (supplies o id n) = some id
books_in (withdraws o id n) = some id
books_in (borrows o id n) = some id
books_in (repays o id n) = some id
books_in (liquidates o target pay_id get_id n) = none
books_in (inits_pool o id c) = none

-- The calls that pay out of the pool.
abbrev pub pays_out : Request → Bool
pays_out (withdraws o id n) = true
pays_out (borrows o id n) = true
pays_out _ = false

module _ {E Store : Type 0} (t : Config E Store) (balance : ℕ → ℕ → Store → ℕ)
    (contract : IsMultiAsset t.multi_asset balance) (checked : t.checks ≡ true) where
  -- With overflow checks, over assets that meet the contract, for a signer other than the pallet's
  -- account, whose balance and the pallet's together fit a u128: a call of `supply`, `withdraw`,
  -- `borrow` or `repay` that succeeds writes the asset's pool only, and moves the pallet's balance
  -- exactly as far as it moves the pool's supply less its debt from where interest took them; a
  -- withdrawal and a borrowing leave the pool no more debt than supply; a call that is refused has
  -- changed no pool and no balance.
  pub dispatch-Settled :
      (r : Request) (id : ℕ) (s : State Store)
      → books_in r ≡ some id
      → ((who : ℕ) → changes r ≡ some who → who ≢ t.account_id)
      → ((who : ℕ)
          → changes r ≡ some who
          → balance id who s.ledger + balance id t.account_id s.ledger < u128_size)
      → Post
          (λ _ u.
            (settled : Settled t balance s u id) × ((pays_out r ≡ false)
              ⊎ (settled.left.debt ≤ settled.left.supply)))
          (Untouched s)
          (dispatch t r s)
  unfolding dispatch
  dispatch-Settled (supplies o i n) id s at apart fits =
      let same : i ≡ id = cc in
      rw same (
        Post-map (λ _ _ h. (h, inl refl)) (λ _ h. h)
          (supply-Settled t balance contract checked o id n s apart fits))
  dispatch-Settled (withdraws o i n) id s at apart fits =
      let same : i ≡ id = cc in
      rw same (
        Post-map (λ _ _ h. (h.0, inr h.1)) (λ _ h. h)
          (withdraw-Settled t balance contract checked o id n s apart fits))
  dispatch-Settled (borrows o i n) id s at apart fits =
      let same : i ≡ id = cc in
      rw same (
        Post-map (λ _ _ h. (h.0, inr h.1)) (λ _ h. h)
          (borrow-Settled t balance contract checked o id n s apart fits))
  dispatch-Settled (repays o i n) id s at apart fits =
      let same : i ≡ id = cc in
      rw same (
        Post-map (λ _ _ h. (h, inl refl)) (λ _ h. h)
          (repay-Settled t balance contract checked o id n s apart fits))
  dispatch-Settled (liquidates o target pay_id get_id n) id s at apart fits = absurd cc
  dispatch-Settled (inits_pool o i c) id s at apart fits = absurd cc
