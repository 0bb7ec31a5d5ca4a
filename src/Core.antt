-- ===== src/Core.antt =====
-- crates/core: the domain types that every other part depends on, its names passed on.
mod Sides
mod Prices
mod Orders
mod Positions
pub mod Fees
pub mod Tests
unfoldable pub use Sides.*
unfoldable pub use Prices.*
unfoldable pub use Orders.*
unfoldable pub use Positions.*
