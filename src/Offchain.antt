-- ===== src/Offchain.antt =====
-- pallets/offchain-worker/src/lib.rs: a price that is fetched off the chain and submitted by an
-- unsigned transaction.
pub mod State
pub mod Parse
pub mod Cents
pub mod Calls
pub mod Window
pub mod Typed
