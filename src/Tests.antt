-- ===== src/Tests.antt =====
-- Instances and runs of the pallets at concrete states.
mod Fixed
mod AssetsRuns
mod SwapRuns
mod LendingRuns
mod SettlementRuns
mod OffchainRuns
mod RuntimeRuns
mod LaunchRuns
mod HealthRuns
