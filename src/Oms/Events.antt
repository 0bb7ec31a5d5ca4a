-- ===== src/Oms/Events.antt =====
-- crates/oms/src/runtime.rs: commands, errors and events, and the bounded event channel.
use predigy.Core.{Side, MarketTicker, PositionKey, position_key, Price, OrderId, Order, Intent}
use predigy.Prelude.{◌==◌, if◌then◌else◌, ℕ, ◌-◌, Bool, true, false, List, [], ◌∷◌, ◌++◌}
use predigy.Prelude.Map.{text_key, Map}
use predigy.Prelude.Int.{ℤ}
use predigy.Prelude.Text.{Text}
use predigy.Risk.{Reason}

pub data OmsError : Type 0 where
  kill_switch : OmsError
  risk_rejected : Reason → OmsError
  executor : Text → OmsError
  unknown_order : OrderId → OmsError
  closed : OmsError

pub record PositionMismatch : Type 0 where
  pub market : MarketTicker
  pub side : Side
  pub oms_qty : ℕ
  pub venue_qty : ℕ

pub data OmsEvent : Type 0 where
  submitted : OrderId → Order → OmsEvent
  acked : OrderId → (venue_order_id : Text) → OmsEvent
  partially_filled : OrderId → (delta_qty cumulative_qty : ℕ) → (fill_price : Price) → OmsEvent
  filled : OrderId → (delta_qty cumulative_qty : ℕ) → (fill_price : Price) → OmsEvent
  cancelled : OrderId → (reason : Text) → OmsEvent
  rejected : OrderId → (reason : Text) → OmsEvent
  position_updated :
      MarketTicker → Side → (new_qty new_avg : ℕ) → (realized_pnl_delta_cents : ℤ) → OmsEvent
  reconciled : List PositionMismatch → OmsEvent
  kill_switch_armed : OmsEvent
  kill_switch_disarmed : OmsEvent

-- The reply channels are the results of `handle_command`.
pub data OmsCmd : Type 0 where
  submit : Intent → OmsCmd
  cancel : OrderId → OmsCmd
  arm_kill_switch : OmsCmd
  disarm_kill_switch : OmsCmd
  reconcile : Map PositionKey ℕ → OmsCmd
  shutdown : OmsCmd

-- The sending half: the consumer takes `accepts` more events and then drops its end. A full channel
-- makes the task wait, which changes no state.
pub record EventChannel : Type 0 where
  pub accepts : ℕ
  pub sent : List OmsEvent

-- Whether the event was taken.
unfoldable pub send : OmsEvent → EventChannel → Bool × EventChannel
send e ch =
    if ch.accepts == 0
    then (false, ch)
    else (true, record { accepts = ch.accepts - 1; sent = ch.sent ++ e ∷ [] })
