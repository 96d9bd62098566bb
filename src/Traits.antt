-- ===== src/Traits.antt =====
-- pallets/traits/src/lib.rs: the interfaces between the lending pallet and the assets that it
-- moves and prices, with the behaviour that its proofs rely on.
use konomi_node.Base.{
  ℕ, ◌+◌, ◌-◌, ◌≤◌, ◌<◌, ◌≡◌, ◌≢◌, ◌⊎◌, Action, Outcome, ok, err, panic, u128_size,
}

-- `trait Oracle`: a rate is the inner value of a `FixedU128`.
pub record Oracle (Store : Type 0) : Type 0 where
  pub get_rate : ℕ → Store → ℕ

-- `trait MultiAsset`: from, asset, to, amount.
pub record MultiAsset (E Store : Type 0) : Type 0 where
  pub transfer : ℕ → ℕ → ℕ → ℕ → Action E Store (Unit {0})

-- What a transfer did, by how it ended. `balance` reads the balance of an asset and an account.
abbrev pub Transfers :
    {E Store : Type 0} (balance : ℕ → ℕ → Store → ℕ) (from id to amount : ℕ) (s : Store)
    → Outcome E Store (Unit {0})
    → Type 0
Transfers balance from id to amount s (ok _ s') =
    (amount ≢ 0)
    × (amount ≤ balance id from s)
    × (balance id from s' ≡ balance id from s - amount)
    × (balance id to s' ≡ balance id to s + amount)
    × ((j k : ℕ) → (j ≢ id) ⊎ ((k ≢ from) × (k ≢ to)) → balance j k s' ≡ balance j k s)
Transfers balance from id to amount s (err _ s') =
    (s' ≡ s) × ((amount ≡ 0) ⊎ (balance id from s < amount))
Transfers balance from id to amount s panic = ⊥

-- The contract: between two accounts whose balances together fit the word, a transfer moves the
-- amount and touches no other balance, or is refused and changes nothing; it never panics.
-- A transfer that succeeds moves a positive amount.
pub record IsMultiAsset {E Store : Type 0} (m : MultiAsset E Store) (balance : ℕ → ℕ → Store → ℕ)
    : Type 0 where
  pub transfers :
      (from id to amount : ℕ) (s : Store)
      → from ≢ to
      → balance id from s + balance id to s < u128_size
      → Transfers balance from id to amount s (m.transfer from id to amount s)
  pub transfers_positive :
      (from id to amount : ℕ) (s s' : Store)
      → m.transfer from id to amount s ≡ ok tt s'
      → amount ≢ 0
