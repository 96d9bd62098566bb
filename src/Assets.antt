-- ===== src/Assets.antt =====
-- pallets/assets/src/lib.rs: a pallet of many assets, with a price for each.
pub mod State
pub mod Calls
pub mod Transfer
pub mod Lifecycle
pub mod Supply
pub mod Holders
pub mod Genesis
pub mod Typed
