-- ===== src/Oms/Reports.antt =====
-- crates/oms/src/runtime.rs: execution reports from the venue.
use predigy.Core.{position_key, Price, OrderId, Order, OrderState, Fill}
use predigy.Oms.Fills.{PositionUpdate, apply_fill}
use predigy.Oms.Records.{OrderRecord, apply_record_fill, mark_acked, mark_cancelled, mark_rejected}
use predigy.Oms.Venue.{ExecutionReportKind, ExecutionReport}
use predigy.Oms.Events.{OmsEvent, EventChannel, send}
use predigy.Oms.Manager.{Oms}
use predigy.Prelude.{◌==◌, if◌then◌else◌, ℕ, Bool, true, false, ◌&&◌, none, some}
use predigy.Prelude.Map.{text_key, Map, lookup, insert, remove}
use predigy.Prelude.Int.{leb_ℤ, pos}
use predigy.Risk.{AccountState, position, avg_entry_cents, set_position, add_realized_pnl}

-- `update_position_and_emit`, its two sends last; a send that fails ends the task.
unfoldable pub fill_event : Bool → OrderId → (delta_qty cumulative_qty : ℕ) → Price → OmsEvent
fill_event terminal cid delta_qty cumulative_qty fill_price =
    if terminal
    then OmsEvent.filled cid delta_qty cumulative_qty fill_price
    else OmsEvent.partially_filled cid delta_qty cumulative_qty fill_price

unfoldable pub send_two : OmsEvent → OmsEvent → EventChannel → Bool × EventChannel
send_two first second ch =
    let (taken, ch') = send first ch in if taken then send second ch' else (false, ch')

abbrev pub book_update : AccountState → Order → PositionUpdate → AccountState
book_update s order update =
    let s' = set_position s order.market order.side update.new_qty update.new_avg_entry_cents in
    if leb_ℤ update.realized_pnl_delta_cents (pos 0)
      && leb_ℤ (pos 0) update.realized_pnl_delta_cents
    then s'
    else add_realized_pnl s' update.realized_pnl_delta_cents

-- An order that is rejected before its acknowledgement is forgotten.
abbrev pub drop_if_pending :
    OrderState → OrderId → Map OrderId OrderRecord → Map OrderId OrderRecord
drop_if_pending OrderState.pending cid orders = remove cid orders
drop_if_pending _ cid orders = orders

module _ {X : Type 0} where
  -- The position after a fill, as `apply_fill` computes it from the current one.
  unfoldable pub fill_update : Oms X → Order → ℕ → Price → PositionUpdate
  fill_update oms order delta_qty fill_price =
      apply_fill order.action (position oms.state order.market order.side)
        (avg_entry_cents oms.state order.market order.side) delta_qty fill_price

  unfoldable pub update_position_and_emit :
      Oms X → Order → ℕ → Price → OrderId → ℕ → Bool → EventChannel → Bool × Oms X × EventChannel
  unfolding fill_event send_two fill_update
  update_position_and_emit oms order delta_qty fill_price cid cumulative_qty terminal ch =
      let update = fill_update oms order delta_qty fill_price in
      let (taken, ch') =
        send_two (fill_event terminal cid delta_qty cumulative_qty fill_price)
          (OmsEvent.position_updated order.market order.side update.new_qty
            update.new_avg_entry_cents update.realized_pnl_delta_cents)
          ch in
      (taken, record oms { state = book_update oms.state order update }, ch')

  -- The two fill arms, which differ in `terminal`.
  unfoldable pub report_fill :
      Oms X
      → OrderId
      → OrderRecord
      → Fill
      → ℕ
      → ℕ
      → Bool
      → EventChannel
      → Bool × Oms X × EventChannel
  unfolding update_position_and_emit
  report_fill oms cid r fill cumulative_qty now terminal ch =
      let (r', delta) = apply_record_fill r fill.price cumulative_qty now terminal in
      let oms' = record oms { orders = insert cid r' oms.orders } in
      if delta == 0
      then (true, oms', ch)
      else update_position_and_emit oms' r.order delta fill.price cid cumulative_qty terminal ch

  unfoldable pub apply_report :
      Oms X
      → OrderId
      → OrderRecord
      → ExecutionReportKind
      → ℕ
      → EventChannel
      → Bool × Oms X × EventChannel
  unfolding report_fill
  apply_report oms cid r (ExecutionReportKind.acked venue_order_id) now ch =
      let (taken, ch') = send (OmsEvent.acked cid venue_order_id) ch in
      (taken, record oms { orders = insert cid (mark_acked r venue_order_id now) oms.orders }, ch')
  apply_report oms cid r (ExecutionReportKind.partially_filled fill cumulative_qty) now ch =
      report_fill oms cid r fill cumulative_qty now false ch
  apply_report oms cid r (ExecutionReportKind.filled fill cumulative_qty) now ch =
      report_fill oms cid r fill cumulative_qty now true ch
  apply_report oms cid r (ExecutionReportKind.cancelled reason) now ch =
      let (taken, ch') = send (OmsEvent.cancelled cid reason) ch in
      (taken, record oms { orders = insert cid (mark_cancelled r now) oms.orders }, ch')
  apply_report oms cid r (ExecutionReportKind.rejected reason) now ch =
      let (taken, ch') = send (OmsEvent.rejected cid reason) ch in
      (
        taken,
        record oms {
          orders = drop_if_pending r.state cid (insert cid (mark_rejected r now) oms.orders);
        },
        ch',
      )

  -- A report for an unknown id is ignored. The first part says whether the task goes on.
  unfoldable pub handle_report :
      Oms X → ExecutionReport → ℕ → EventChannel → Bool × Oms X × EventChannel
  unfolding apply_report
  handle_report oms report now ch = elim (lookup report.cid oms.orders) [
    | none ↦ (true, oms, ch)
    | some r ↦ apply_report oms report.cid r report.kind now ch
  ]
