-- ===== src/Runtime.antt =====
-- runtime/src/lib.rs: the runtime, which puts the pallets together.
pub mod Constants
pub mod State
pub mod Calls
pub mod Held
pub mod Parts
pub mod Sound
pub mod Genesis
pub mod Birth
pub mod Api
pub mod Launch
pub mod Typed
pub mod Signing
