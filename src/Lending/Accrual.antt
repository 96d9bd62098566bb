-- ===== src/Lending/Accrual.antt =====
-- pallets/lending/src/lib.rs: what `accrue_interest` does to a pool, and that the runtime API
-- foretells what it brings a user.
use konomi_node.Base.{ℕ, ◌≤◌, ◌<◌, ◌≡◌, inl, inr, Option-cases, Bool, some, arith, u128_size}
use konomi_node.FixedPoint.{FixedPoint, IsFixedPoint}
use konomi_node.Lending.State.{Pool}
use konomi_node.Lending.Interest.{accrue_interest, supply_multiplier, debt_multiplier, multiplier}

-- Nothing that the pool holds or owes, and no index, has fallen.
pub record Grows (p q : Pool) : Type 0 where
  pub supply : p.supply ≤ q.supply
  pub debt : p.debt ≤ q.debt
  pub supply_index : p.total_supply_index ≤ q.total_supply_index
  pub debt_index : p.total_debt_index ≤ q.total_debt_index

module _ (f : FixedPoint) (checks : Bool) (now : ℕ) where
  -- A pool whose interest was accrued in a block stays as it is when interest is accrued again in
  -- that block.
  pub accrue_interest_again :
      (p : Pool) {q : Pool}
      → accrue_interest f checks now p ≡ some q
      → accrue_interest f checks now q ≡ some q
  unfolding accrue_interest
  accrue_interest_again p h = ground arith

  multiplier-add :
      (rate elapsed : ℕ) {m : ℕ}
      → multiplier f rate elapsed ≡ some m
      → (x : ℕ) × (f.add f.one_value x ≡ some m)
  unfolding multiplier
  multiplier-add rate elapsed h =
      elim (Option-cases (f.mul rate (f.saturating_from_integer elapsed))) [
        | inl e ↦ absurd (ground arith)
        | inr (x, e) ↦ (x, ground arith)
      ]

  -- Additions of `FixedU128` that do not wrap make a factor of one at least.
  module _ (laws : IsFixedPoint f) (no_wrap : (x y z : ℕ) → f.add x y ≡ some z → x ≤ z) where
    multiplier-ge_one :
        (rate elapsed : ℕ) {m : ℕ} → multiplier f rate elapsed ≡ some m → f.one_value ≤ m
    multiplier-ge_one rate elapsed {m} h =
        let (x, e) = multiplier-add rate elapsed h in no_wrap f.one_value x m e

    supply_multiplier-ge_one :
        (p : Pool) {m : ℕ} → supply_multiplier f checks now p ≡ some m → f.one_value ≤ m
    unfolding supply_multiplier multiplier
    supply_multiplier-ge_one p {m} h = grind (arith, multiplier-ge_one)

    debt_multiplier-ge_one :
        (p : Pool) {m : ℕ} → debt_multiplier f checks now p ≡ some m → f.one_value ≤ m
    unfolding debt_multiplier multiplier
    debt_multiplier-ge_one p {m} h = grind (arith, multiplier-ge_one)

    -- Where `FixedU128` meets its laws, its additions do not wrap, and the pool's amounts fit a
    -- u128: the accrual of interest, at any later block, lowers neither what a pool holds nor what
    -- it is owed, nor any of its two indices.
    pub accrue_interest-Grows :
        (p : Pool) {q : Pool}
        → p.supply < u128_size
        → p.debt < u128_size
        → accrue_interest f checks now p ≡ some q
        → Grows p q
    unfolding accrue_interest
    accrue_interest-Grows p hs hd h = grind (
      arith,
      supply_multiplier-ge_one p,
      debt_multiplier-ge_one p,
      laws.mul-grows,
      laws.mul_int-grows,
    )
