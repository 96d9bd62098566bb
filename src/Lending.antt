-- ===== src/Lending.antt =====
-- pallets/lending/src/lib.rs: pools of assets that users supply to and borrow from.
pub mod State
pub mod Interest
pub mod Accounts
pub mod Info
pub mod Calls
pub mod Seizure
pub mod Liquidate
pub mod Dispatch
pub mod Accrual
pub mod Foretold
pub mod Effects
pub mod Untouched
pub mod Cash
pub mod Settlement
pub mod Booking
pub mod Progress
pub mod Repayment
pub mod Liquidation
pub mod Writes
pub mod Ledger
pub mod Others
pub mod Words
pub mod Typed
pub mod Health
pub mod Liquidatable
pub mod Sets
pub mod Opening
