-- ===== src/Swap.antt =====
-- pallets/swap/src/lib.rs: an exchange of assets over pools that pair an asset with the
-- inherent asset.
pub mod State
pub mod Address
pub mod Encoding
pub mod Pricing
pub mod Product
pub mod Unpaid
pub mod Paid
pub mod Provided
pub mod Returned
pub mod Typed
pub mod Exchange
pub mod Liquidity
pub mod Shares
pub mod SharesKept
pub mod Calls
pub mod Dispatch
pub mod Trades
pub mod Deposits
pub mod Assets
pub mod Holders
pub mod Foretold
