-- ===== src/Soroban.antt =====
-- The host that a contract runs on: what an invocation is given, and the monad of its calls.
-- An invocation that fails is rolled back by the host, so an error carries no state.
mod Monad
mod Host
mod Rules
mod Runs
pub use Host.*
unfoldable pub use Monad.*
pub use Rules.*
unfoldable pub use Runs.*
