-- ===== src/TipJar.antt =====
-- The tip jar contract, contracts/tipjar/src/lib.rs.
pub mod Types
pub mod State
pub mod Internal
pub mod Tips
pub mod Withdrawals
pub mod Tokens
pub mod Payouts
pub mod Admin
pub mod Upgrade
pub mod Breaker
pub mod Fees
pub mod Legacy
pub mod Calls
pub mod Guards
pub mod Settings
pub mod Access
pub mod FeeRate
pub mod View
pub mod Books
pub mod Solvency
pub mod Handover
pub mod PayoutDelay
mod Tests
pub mod Allowance
pub mod Pauses
