-- ===== src/Lending/Sets.antt =====
-- pallets/lending/src/lib.rs: what the sets of assets of a user are to be.
mod Supplies
mod Debts
pub mod Moves
pub mod Kept
pub mod Liquidated
pub mod Reachable
use konomi_node.Base.{ℕ, ◌≡◌, Distinct, contains, is_some}
use konomi_node.Lending.State.{State}

-- A user's two sets list, once each, the assets for which the user has an entry.
pub record SetsAgree {Store : Type 0} (s : State Store) : Type 0 where
  pub supplies :
      (asset user : ℕ)
      → contains asset (s.user_supply_set user) ≡ is_some (s.user_supplies asset user)
  pub debts :
      (asset user : ℕ) → contains asset (s.user_debt_set user) ≡ is_some (s.user_debts asset user)
  pub supply_distinct : (user : ℕ) → Distinct (s.user_supply_set user)
  pub debt_distinct : (user : ℕ) → Distinct (s.user_debt_set user)
