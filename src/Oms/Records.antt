-- ===== src/Oms/Records.antt =====
-- crates/oms/src/record.rs: the record of one tracked order.
use predigy.Prelude.{
  ltb, leb, if◌then◌else◌, ℕ, ◌+◌, ◌-◌, ◌*◌, ◌/◌, min, Bool, true, false, Option, none, some,
}
use predigy.Core.{position_key, Price, OrderId, Order, OrderState}
use predigy.Prelude.Map.{text_key}
use predigy.Prelude.Word.{u16_max}
use predigy.Prelude.Text.{Text}

pub record OrderRecord : Type 0 where
  pub cid : OrderId
  pub order : Order
  pub state : OrderState
  pub cumulative_qty : ℕ
  pub avg_fill_price_cents : ℕ
  pub cancel_in_flight : Bool
  pub venue_order_id : Option Text
  pub submitted_at : ℕ
  pub last_event_at : ℕ

unfoldable pub new_record : Order → ℕ → OrderRecord
new_record order now = record {
  cid = order.client_id;
  order = order;
  state = OrderState.pending;
  cumulative_qty = 0;
  avg_fill_price_cents = 0;
  cancel_in_flight = false;
  venue_order_id = none;
  submitted_at = now;
  last_event_at = now;
}

abbrev pub is_terminal_state : OrderState → Bool
is_terminal_state OrderState.filled = true
is_terminal_state OrderState.cancelled = true
is_terminal_state OrderState.rejected = true
is_terminal_state _ = false

unfoldable pub is_terminal : OrderRecord → Bool
is_terminal r = is_terminal_state r.state

-- `u32::from(self.cumulative_qty > 0)`.
abbrev pub one_if_positive : ℕ → ℕ
one_if_positive n = if ltb 0 n then 1 else 0

-- The updated record and the newly filled quantity.
unfoldable pub apply_record_fill : OrderRecord → Price → ℕ → ℕ → Bool → OrderRecord × ℕ
apply_record_fill r fill_price new_cumulative now terminal =
    let delta = new_cumulative - r.cumulative_qty in
    let prev_qty = one_if_positive r.cumulative_qty * r.cumulative_qty in
    let prev_total_cents = prev_qty * r.avg_fill_price_cents in
    let new_total_cents = prev_total_cents + delta * fill_price in
    let new_avg = new_total_cents / new_cumulative in
    if leb new_cumulative r.cumulative_qty then (r, 0) else (
      record r {
        avg_fill_price_cents = min new_avg u16_max;
        cumulative_qty = new_cumulative;
        last_event_at = now;
        state = if terminal then OrderState.filled else OrderState.partially_filled;
      },
      delta,
    )

-- Only a pending order becomes acknowledged.
abbrev pub acked_state : OrderState → OrderState
acked_state OrderState.pending = OrderState.acked
acked_state s = s

unfoldable pub mark_acked : OrderRecord → Text → ℕ → OrderRecord
mark_acked r venue_order_id now = record r {
  venue_order_id = some venue_order_id;
  state = acked_state r.state;
  last_event_at = now;
}

unfoldable pub mark_cancelled : OrderRecord → ℕ → OrderRecord
mark_cancelled r now = record r {
  state = OrderState.cancelled;
  cancel_in_flight = false;
  last_event_at = now;
}

unfoldable pub mark_rejected : OrderRecord → ℕ → OrderRecord
mark_rejected r now = record r {
  state = OrderState.rejected;
  cancel_in_flight = false;
  last_event_at = now;
}
