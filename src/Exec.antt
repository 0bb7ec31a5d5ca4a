-- ===== src/Exec.antt =====
-- crates/kalshi-exec: the REST executor, with its two sources of fills.
mod Mapping
mod Tracking
mod Polling
pub mod FillRaces
mod CountLaws
pub mod WireLaws
mod Tests
unfoldable pub use Mapping.*
unfoldable pub use Tracking.*
unfoldable pub use Polling.*
