-- ===== src/Risk.antt =====
-- crates/risk: the limits, the account state that they are checked against, and the pre-trade check.
mod Limits
mod Account
mod Engine
mod Snapshots
pub mod Windows
pub mod Invariant
pub mod Exposure
pub mod Decisions
pub mod Restore
pub mod Tests
unfoldable pub use Limits.*
unfoldable pub use Account.*
unfoldable pub use Engine.*
unfoldable pub use Snapshots.*
use predigy.Prelude.{◌*◌}
