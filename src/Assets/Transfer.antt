-- ===== src/Assets/Transfer.antt =====
-- pallets/assets/src/lib.rs: what `transfer` does, and that the pallet meets the interface
-- through which the lending pallet uses it.
use konomi_node.Base.{
  ℕ, ◌+◌, ◌-◌, ◌≤◌, ◌<◌, ◌≡◌, ◌≢◌, inl, inr, refl, Bool, ◌∷◌, arith, ok, err, u128_size, add_word,
  sub_word, update₂, Outcome, ℕ_discrete, dec_lt,
}
use konomi_node.Traits.{MultiAsset, Oracle, Transfers, IsMultiAsset}
use konomi_node.Assets.State.{State, Error, transferred, zero_amount, low_balance}
use konomi_node.Assets.Calls.{transfer, balance, get_rate}

-- The state after the amount has moved, also from an account to itself.
abbrev pub moved : ℕ → ℕ → ℕ → ℕ → State → State
moved from id to amount s =
    let b = update₂ s.balances id from (s.balances id from - amount) in
    record s {
      balances = update₂ b id to (b id to + amount);
      events = transferred id from to amount ∷ s.events;
    }

module _ (checks : Bool) (from id to amount : ℕ) (s : State) where
  pub transfer_zero : amount ≡ 0 → transfer checks from id to amount s ≡ err zero_amount s
  unfolding transfer
  transfer_zero h = ground arith

  pub transfer_low :
      amount ≢ 0
      → s.balances id from < amount
      → transfer checks from id to amount s ≡ err low_balance s
  unfolding transfer
  transfer_low h k = ground arith

  pub transfer_moves :
      amount ≢ 0
      → amount ≤ s.balances id from
      → s.balances id from < u128_size
      → (from ≢ to → s.balances id from + s.balances id to < u128_size)
      → transfer checks from id to amount s ≡ ok tt (moved from id to amount s)
  unfolding transfer add_word sub_word
  transfer_moves h k one two = ground arith

  -- The three ways in which a transfer ends, as a rule for predicates on its outcome.
  pub transfer_cases :
      (P : Outcome Error State (Unit {0}) → Type 0)
      → s.balances id from < u128_size
      → (from ≢ to → s.balances id from + s.balances id to < u128_size)
      → (amount ≡ 0 → P (err zero_amount s))
      → (s.balances id from < amount → P (err low_balance s))
      → (amount ≢ 0 → amount ≤ s.balances id from → P (ok tt (moved from id to amount s)))
      → P (transfer checks from id to amount s)
  transfer_cases P one two pz pl pm = elim (ℕ_discrete amount 0) [
    | yes z ↦ rw (transfer_zero z) (pz z)
    | no nz ↦ elim (dec_lt (s.balances id from) amount) [
      | yes low ↦ rw (transfer_low nz low) (pl low)
      | no high ↦
          let enough : amount ≤ s.balances id from = omega arith in
          rw (transfer_moves nz enough one two) (pm nz enough)
    ]
  ]

abbrev pub oracle : Oracle State
oracle = record { get_rate = get_rate }

module _ (checks : Bool) where
  abbrev pub multi_asset : MultiAsset Error State
  multi_asset = record { transfer = transfer checks }

  transfer_positive :
      (from id to amount : ℕ) (s s' : State)
      → transfer checks from id to amount s ≡ ok tt s'
      → amount ≢ 0
  unfolding transfer
  transfer_positive from id to amount s s' h = ground arith

  -- The assets pallet meets the interface through which the lending pallet uses it: between two
  -- accounts whose balances of the asset together fit the word, a transfer moves a positive amount
  -- that the sender has and touches no other balance, or is refused for want of either and changes
  -- nothing; it never panics. That a success moves a positive amount holds without the bound.
  pub multi_asset-IsMultiAsset : IsMultiAsset multi_asset balance
  multi_asset-IsMultiAsset = record {
    transfers = λ from id to amount s ne fits.
        transfer_cases checks from id to amount s (Transfers balance from id to amount s)
          (omega arith) (λ _. fits) (λ z. (refl, inl z)) (λ low. (refl, inr low))
          (λ nz enough. (nz, enough, ground arith, ground arith, λ j k h. ground arith));
    transfers_positive = transfer_positive;
  }
