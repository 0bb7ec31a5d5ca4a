-- ===== src/Fix.antt =====
-- crates/kalshi-fix: the FIX 4.4 executor, from bytes to order reports.
mod Strings
mod Tags
mod Frames
mod Floats
mod Sessions
mod Messages
mod Tasks
mod Runs
pub mod Utf8Laws
pub mod SliceLaws
pub mod FieldLaws
pub mod FrameLaws
pub mod RoundTrip
pub mod Damage
pub mod Total
pub mod Partial
pub mod Streams
pub mod SequenceLaws
pub mod WriteLaws
pub mod RunLaws
pub mod Refusals
pub mod Consumed
pub mod LoopLaws
pub mod StepLaws
mod Examples
mod Tests
unfoldable pub use Strings.*
unfoldable pub use Tags.*
unfoldable pub use Frames.*
unfoldable pub use Floats.*
unfoldable pub use Sessions.*
unfoldable pub use Messages.*
unfoldable pub use Tasks.*
unfoldable pub use Runs.*
