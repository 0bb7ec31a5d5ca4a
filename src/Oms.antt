-- ===== src/Oms.antt =====
-- crates/oms: the order manager. Its parts are the fill arithmetic, the order records, the client
-- ids, the venue's interface, the snapshots and the task that owns them all.
mod Fills
mod Records
mod Digits
mod Cids
mod Venue
mod Events
mod Manager
mod Handlers
mod Reports
mod Reconcile
mod Persist
mod Runtime
mod Spawn
pub mod Totals
pub mod Ledger
pub mod SubmitLaws
pub mod KillLaws
pub mod Kept
pub mod ReconcileLaws
pub mod RestartLaws
pub mod SavedRuns
pub mod FillLaws
pub mod RecordLaws
pub mod DigitLaws
pub mod CidLaws
pub mod Tests
unfoldable pub use Fills.*
unfoldable pub use Records.*
unfoldable pub use Digits.*
unfoldable pub use Cids.*
unfoldable pub use Venue.*
unfoldable pub use Events.*
unfoldable pub use Manager.*
unfoldable pub use Handlers.*
unfoldable pub use Reports.*
unfoldable pub use Reconcile.*
unfoldable pub use Persist.*
unfoldable pub use Runtime.*
unfoldable pub use Spawn.*
use predigy.Prelude.{◌*◌}
use predigy.Core.{position_key}
use predigy.Prelude.Map.{text_key}
