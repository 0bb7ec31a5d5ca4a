-- ===== src/Oms/Ledger/Reports.antt =====
-- crates/oms/src/runtime.rs: the balance of positions and orders under a report.
use predigy.Prelude.{
  ◌==◌, Bool-cases, Option-cases, ℕ, ◌+◌, ◌-◌, ◌≡◌, refl, ap, subst, inl, inr, Bool, true, false,
  Option, none, some, arith,
}
use predigy.Oms.{
  PositionUpdate, OrderRecord, apply_record_fill, mark_acked, mark_cancelled, mark_rejected,
  ExecutionReportKind, ExecutionReport, EventChannel, Oms, book_update, drop_if_pending,
  fill_update, update_position_and_emit, report_fill, apply_report, handle_report,
}
use predigy.Core.{Action, PositionKey, position_key_eq, position_key, OrderId, OrderState, Fill}
use predigy.Oms.Ledger.{
  order_key, filled_for, held, IsLedger, FitsFill, apply_fill_qty, filled_for_rise, All-lookup,
  insert-unfilled, remove-unfilled, held-book_update, delta_rise,
}
use predigy.Risk.{AccountState, avg_entry_cents}
use predigy.Oms.RecordLaws.{
  is_pending, IsUnfilledPending, mark_acked-IsUnfilledPending, apply_record_fill-IsUnfilledPending,
  apply_record_fill_delta,
}
use predigy.Oms.Totals.{total_of-insert, total_of-remove}
use predigy.Prelude.Map.{
  text_key, lookup, insert, remove, lookup-insert_self, insert-IsUnique, remove-IsUnique,
}

module _ {X : Type 0} (base : PositionKey → ℕ) (oms : Oms X) (cid : OrderId) (r r' : OrderRecord)
    (found : lookup cid oms.orders ≡ some r) (v : IsLedger base oms) where
  -- A record that keeps its order and its fills is replaced.
  pub replace-IsLedger :
      r'.order ≡ r.order
      → r'.cumulative_qty ≡ r.cumulative_qty
      → IsUnfilledPending r'
      → IsLedger base (record oms { orders = insert cid r' oms.orders })
  replace-IsLedger same kept u = record {
    unique = insert-IsUnique cid r' oms.orders v.unique;
    unfilled = insert-unfilled cid r' oms.orders u v.unfilled;
    balanced = λ k.
        let kept' : r'.cumulative_qty ≡ r.cumulative_qty + 0 = omega arith in
        omega (
          arith,
          v.balanced k,
          total_of-insert (filled_for Action.buy k) cid r r' oms.orders found,
          total_of-insert (filled_for Action.sell k) cid r r' oms.orders found,
          filled_for_same Action.buy k,
          filled_for_same Action.sell k,
        );
  }
    where
      filled_for_same : (a : Action) (k : PositionKey) → filled_for a k r' ≡ filled_for a k r
      filled_for_same a k = rw (same, kept)

  -- A record that rises by a fill is replaced, and the fill is booked.
  fill-IsLedger :
      (d p : ℕ) (u : PositionUpdate)
      → r'.order ≡ r.order
      → r'.cumulative_qty ≡ r.cumulative_qty + d
      → IsUnfilledPending r'
      → FitsFill r.order.action (held oms.state (order_key r.order)) d
      → u ≡ fill_update oms r.order d p
      → IsLedger base (record oms {
        orders = insert cid r' oms.orders;
        state = book_update oms.state r.order u;
      })
  unfolding fill_update
  fill-IsLedger d p u same rise unfilled fits booked = record {
    unique = insert-IsUnique cid r' oms.orders v.unique;
    unfilled = insert-unfilled cid r' oms.orders unfilled v.unfilled;
    balanced = λ k. ground (
      arith,
      v.balanced k,
      total_of-insert (filled_for Action.buy k) cid r r' oms.orders found,
      total_of-insert (filled_for Action.sell k) cid r r' oms.orders found,
      filled_for_rise Action.buy k r r' d same rise,
      filled_for_rise Action.sell k r r' d same rise,
      held-book_update oms.state r.order u k,
      same_held k,
      apply_fill_qty r.order.action (held oms.state (order_key r.order))
          (avg_entry_cents oms.state r.order.market r.order.side) d p fits,
    );
  }
    where
      same_held :
          (k : PositionKey)
          → position_key_eq (order_key r.order) k ≡ true
          → held oms.state (order_key r.order) ≡ held oms.state k
      same_held k h = ap (held oms.state) ((position_key.beq_iff (order_key r.order) k).0 h)

-- What a report may ask of the record it is about.
abbrev pub FitsKind : AccountState → OrderRecord → ExecutionReportKind → Type 0
FitsKind s r (ExecutionReportKind.partially_filled _ c) =
    FitsFill r.order.action (held s (order_key r.order)) (c - r.cumulative_qty)
FitsKind s r (ExecutionReportKind.filled _ c) =
    FitsFill r.order.action (held s (order_key r.order)) (c - r.cumulative_qty)
FitsKind _ _ _ = Unit

module _ {X : Type 0} (base : PositionKey → ℕ) (oms : Oms X) (cid : OrderId) (r : OrderRecord)
    (found : lookup cid oms.orders ≡ some r) (v : IsLedger base oms) where
  unfilled_now : IsUnfilledPending r
  unfilled_now = All-lookup cid r oms.orders v.unfilled found

  report_fill-IsLedger :
      (f : Fill) (c now : ℕ) (terminal : Bool) (ch : EventChannel)
      → FitsFill r.order.action (held oms.state (order_key r.order)) (c - r.cumulative_qty)
      → IsLedger base (report_fill oms cid r f c now terminal ch).1
  unfolding report_fill update_position_and_emit
  report_fill-IsLedger f c now terminal ch fits =
      let (r', d) = apply_record_fill r f.price c now terminal in
      let step = apply_record_fill_delta r f.price c now terminal in
      let rise = delta_rise r f.price c now terminal in
      let unfilled = apply_record_fill-IsUnfilledPending r f.price c now terminal unfilled_now in
      elim (Bool-cases (d == 0)) [
        | inl stale ↦
            rw stale
              (replace-IsLedger base oms cid r r' found v step.2 (ground (arith, step.0)) unfilled)
        | inr fresh ↦ rw fresh (
            fill-IsLedger base oms cid r r' found v d f.price
              (fill_update (record oms { orders = insert cid r' oms.orders }) r.order d f.price)
              step.2 step.0 unfilled (rw rise fits) refl)
      ]

  -- A rejection of a pending order drops a record without fills.
  drop-IsLedger :
      (now : ℕ)
      → IsLedger base (record oms {
        orders = drop_if_pending r.state cid (insert cid (mark_rejected r now) oms.orders);
      })
  unfolding mark_rejected
  drop-IsLedger now =
      let r' = mark_rejected r now in
      let kept = replace-IsLedger base oms cid r r' found v refl refl (λ h. ground arith) in
      elim (Bool-cases (is_pending r.state)) [
        | inl pending ↦
            rw (dropped r.state pending) (remove-IsLedger r' kept (unfilled_now pending))
        | inr other ↦ rw (not_dropped r.state other) kept
      ]
    where
      dropped :
          (s : OrderState)
          → is_pending s ≡ true
          → drop_if_pending s cid (insert cid (mark_rejected r now) oms.orders)
            ≡ remove cid (insert cid (mark_rejected r now) oms.orders)
      dropped s h = ground arith

      not_dropped :
          (s : OrderState)
          → is_pending s ≡ false
          → drop_if_pending s cid (insert cid (mark_rejected r now) oms.orders)
            ≡ insert cid (mark_rejected r now) oms.orders
      not_dropped s h = ground arith

      remove-IsLedger :
          (r' : OrderRecord)
          → IsLedger base (record oms { orders = insert cid r' oms.orders })
          → r'.cumulative_qty ≡ 0
          → IsLedger base (record oms { orders = remove cid (insert cid r' oms.orders) })
      remove-IsLedger r' w none_filled =
          let m = insert cid r' oms.orders in
          let found' = lookup-insert_self cid r' oms.orders in
          record {
            unique = remove-IsUnique cid m w.unique;
            unfilled = remove-unfilled cid m w.unfilled;
            balanced = λ k. ground (
              arith,
              w.balanced k,
              total_of-remove (filled_for Action.buy k) cid r' m w.unique found',
              total_of-remove (filled_for Action.sell k) cid r' m w.unique found',
            );
          }

  apply_report-IsLedger :
      (kind : ExecutionReportKind) (now : ℕ) (ch : EventChannel)
      → FitsKind oms.state r kind
      → IsLedger base (apply_report oms cid r kind now ch).1
  unfolding apply_report mark_acked mark_cancelled
  apply_report-IsLedger (ExecutionReportKind.acked id) now ch fits =
      replace-IsLedger base oms cid r (mark_acked r id now) found v refl refl
        (mark_acked-IsUnfilledPending r id now unfilled_now)
  apply_report-IsLedger (ExecutionReportKind.partially_filled f c) now ch fits =
      report_fill-IsLedger f c now false ch fits
  apply_report-IsLedger (ExecutionReportKind.filled f c) now ch fits =
      report_fill-IsLedger f c now true ch fits
  apply_report-IsLedger (ExecutionReportKind.cancelled _) now ch fits =
      replace-IsLedger base oms cid r (mark_cancelled r now) found v refl refl (λ h. ground arith)
  apply_report-IsLedger (ExecutionReportKind.rejected _) now ch fits = drop-IsLedger now

-- The report is for an unknown id, or what it brings fits.
abbrev pub FitsFound : AccountState → Option OrderRecord → ExecutionReportKind → Type 0
FitsFound s none kind = Unit
FitsFound s (some r) kind = FitsKind s r kind

abbrev pub FitsReport : {X : Type 0} → Oms X → ExecutionReport → Type 0
FitsReport oms report = FitsFound oms.state (lookup report.cid oms.orders) report.kind

module _ {X : Type 0} (oms : Oms X) (report : ExecutionReport) (now : ℕ) (ch : EventChannel) where
  pub handle_report_unknown :
      lookup report.cid oms.orders ≡ none → handle_report oms report now ch ≡ (true, oms, ch)
  unfolding handle_report
  handle_report_unknown h = ground arith

  pub handle_report_known :
      (r : OrderRecord)
      → lookup report.cid oms.orders ≡ some r
      → handle_report oms report now ch ≡ apply_report oms report.cid r report.kind now ch
  unfolding handle_report
  handle_report_known r h = ground arith

  -- Whatever the venue reports, in whatever order, duplicated or stale: the positions stay in balance
  -- with the fills of the tracked orders, if each fill fits its position.
  pub handle_report-IsLedger :
      (base : PositionKey → ℕ)
      → IsLedger base oms
      → FitsReport oms report
      → IsLedger base (handle_report oms report now ch).1
  handle_report-IsLedger base v fits = elim (Option-cases (lookup report.cid oms.orders)) [
    | inl unknown ↦ rw (handle_report_unknown unknown) v
    | inr (r, known) ↦ rw (handle_report_known r known) (
        apply_report-IsLedger base oms report.cid r known v report.kind now ch
          (subst (λ o. FitsFound oms.state o report.kind) known fits))
  ]
