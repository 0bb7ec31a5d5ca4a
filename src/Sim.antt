-- ===== src/Sim.antt =====
-- crates/sim: the simulator. Its parts are the queue model of resting orders, the matching of
-- immediate ones, the executor that takes a venue's place, and the books with the replay of recorded
-- events.
mod Queue
mod Matching
mod Books
mod Venue
pub mod QueueLaws
pub mod MatchLaws
pub mod FillLevels
pub mod Gaps
pub mod VenueLaws
pub mod ReplayLaws
pub mod Tests
unfoldable pub use Queue.*
unfoldable pub use Matching.*
unfoldable pub use Books.*
unfoldable pub use Venue.*
