-- ===== src/Book/Overflow.antt =====
-- crates/book/src/lib.rs: a level whose quantity does not fit 32 bits.
use predigy.Core.{position_key}
use predigy.Prelude.Map.{text_key}
