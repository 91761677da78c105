-- ===== src/TipJar/Solvency.antt =====
-- What the tip jar owes against what it holds: by operation, and over runs.
pub mod Settings
pub mod Migration
pub mod Credits
pub mod Tips
pub mod Debits
pub mod Withdrawals
pub mod Runs
