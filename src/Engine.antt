-- ===== src/Engine.antt =====
-- crates/engine-core: the parts of the newer engine that are neither database nor channels.
mod KillSwitch
mod Marks
pub mod SwitchLaws
mod Tests
unfoldable pub use KillSwitch.*
unfoldable pub use Marks.*
