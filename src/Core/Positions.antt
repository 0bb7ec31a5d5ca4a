-- ===== src/Core/Positions.antt =====
-- crates/core/src/position.rs: a position on one side of one market.
use predigy.Prelude.{◌==◌, if◌then◌else◌, ℕ, Bool}
use predigy.Prelude.Int.{ℤ, ◌-ℤ◌, ◌*ℤ◌, pos}
use predigy.Core.Sides.{Side, MarketTicker}
use predigy.Core.Prices.{Price}

pub record Position : Type 0 where
  pub market : MarketTicker
  pub side : Side
  pub qty : ℕ
  pub avg_entry_cents : ℕ

unfoldable pub flat : MarketTicker → Side → Position
flat market side = record { market = market; side = side; qty = 0; avg_entry_cents = 0 }

unfoldable pub is_flat : Position → Bool
is_flat p = p.qty == 0

-- The factors are a difference of a `u8` and a `u16`, and a `u32`: an `i64` holds the product.
unfoldable pub unrealized_pnl_cents : Position → Price → ℤ
unrealized_pnl_cents p mark =
    if p.qty == 0 then pos 0 else (pos mark -ℤ pos p.avg_entry_cents) *ℤ pos p.qty
