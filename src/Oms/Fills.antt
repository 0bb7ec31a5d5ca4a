-- ===== src/Oms/Fills.antt =====
-- crates/oms/src/position_math.rs: one fill applied to a position.
use predigy.Prelude.{◌==◌, if◌then◌else◌, ℕ, ◌+◌, ◌-◌, ◌*◌, ◌/◌, min}
use predigy.Core.{Action, position_key, Price}
use predigy.Prelude.Map.{text_key}
use predigy.Prelude.Word.{u16_max, saturating_add32}
use predigy.Prelude.Int.{ℤ, ◌-ℤ◌, ◌*ℤ◌, pos}

pub record PositionUpdate : Type 0 where
  pub new_qty : ℕ
  pub new_avg_entry_cents : ℕ
  pub realized_pnl_delta_cents : ℤ

unfoldable pub flat_update : PositionUpdate
flat_update = record { new_qty = 0; new_avg_entry_cents = 0; realized_pnl_delta_cents = pos 0 }

-- The products are of a `u32` with a `u16` or a `u8`, so their sum fits a `u64`. The last `min` is
-- `u16::try_from(new_avg).unwrap_or(u16::MAX)`.
unfoldable pub apply_buy : ℕ → ℕ → ℕ → Price → PositionUpdate
unfolding flat_update
apply_buy current_qty current_avg fill_qty fill_price =
    let new_qty = saturating_add32 current_qty fill_qty in
    let prev_total_cents = current_qty * current_avg in
    let added_cents = fill_qty * fill_price in
    let new_avg = (prev_total_cents + added_cents + new_qty / 2) / new_qty in
    if new_qty == 0 then flat_update else record {
      new_qty = new_qty;
      new_avg_entry_cents = min new_avg u16_max;
      realized_pnl_delta_cents = pos 0;
    }

unfoldable pub apply_sell : ℕ → ℕ → ℕ → Price → PositionUpdate
unfolding flat_update
apply_sell current_qty current_avg fill_qty fill_price =
    let closing = min fill_qty current_qty in
    let new_qty = current_qty - closing in
    let pnl_per = pos fill_price -ℤ pos current_avg in
    if current_qty == 0 then flat_update else record {
      new_qty = new_qty;
      new_avg_entry_cents = if new_qty == 0 then 0 else current_avg;
      realized_pnl_delta_cents = pnl_per *ℤ pos closing;
    }

-- The match on the action.
unfoldable pub apply_action : Action → ℕ → ℕ → ℕ → Price → PositionUpdate
unfolding apply_buy apply_sell
apply_action Action.buy = apply_buy
apply_action Action.sell = apply_sell

unfoldable pub apply_fill : Action → ℕ → ℕ → ℕ → Price → PositionUpdate
unfolding apply_action
apply_fill action current_qty current_avg fill_qty fill_price =
    if fill_qty == 0
    then record {
      new_qty = current_qty;
      new_avg_entry_cents = current_avg;
      realized_pnl_delta_cents = pos 0;
    }
    else apply_action action current_qty current_avg fill_qty fill_price
