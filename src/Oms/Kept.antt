-- ===== src/Oms/Kept.antt =====
-- crates/oms/src/runtime.rs: what cancels, reports and the kill switch leave alone.
use predigy.Prelude.{
  ◌==◌, Bool-cases, Option-cases, ℕ, ◌≡◌, ap, inl, inr, Bool, true, false, none, some, List, [],
  ◌∷◌, arith,
}
use predigy.Oms.{
  PositionUpdate, OrderRecord, is_terminal, apply_record_fill, mark_acked, mark_cancelled,
  mark_rejected, CidAllocator, ExecutorError, Executor, ExecutionReportKind, ExecutionReport,
  EventChannel, Oms, live_orders, flag_cancel, cancel_result, handle_cancel, cancel_live,
  handle_arm, book_update, drop_if_pending, fill_update, update_position_and_emit, report_fill,
  apply_report, handle_report,
}
use predigy.Risk.{AccountState, arm_kill_switch}
use predigy.Oms.KillLaws.{
  handle_cancel_unknown, handle_cancel_done, handle_cancel_live, flag_cancel_unknown,
  flag_cancel_known, cancel_result_flag, cancel_live_nil, cancel_live_cons,
}
use predigy.Core.{position_key, OrderId, Order, OrderState, Fill}
use predigy.Prelude.Map.{text_key, Map, lookup, insert, lookup-insert, lookup-remove}
use predigy.Prelude.Text.{text_eq, text_eq_iff}
use predigy.Prelude.Result.{Result}
use predigy.Oms.Ledger.Reports.{handle_report_unknown, handle_report_known}

insert-absent :
    (a b : OrderId) (r r' : OrderRecord) (m : Map OrderId OrderRecord)
    → lookup b m ≡ none
    → lookup a m ≡ some r
    → lookup b (insert a r' m) ≡ none
insert-absent a b r r' m absent found = elim (Bool-cases (text_eq a b)) [
  | inl same ↦ ground (arith, ap (λ (t : OrderId). lookup t m) ((text_eq_iff a b).0 same))
  | inr other ↦ rw (lookup-insert a b r' m, other) absent
]

module _ {X : Type 0} (venue : Executor X) (P : X → Type 0)
    (keeps : (cid : OrderId) (x : X) → P x → P (venue.cancel cid x).1)
    (A : AccountState → CidAllocator → Type 0)
    (booked : (s : AccountState) (a : CidAllocator) (o : Order) (u : PositionUpdate)
      → A s a
      → A (book_update s o u) a)
    (armed : (s : AccountState) (a : CidAllocator) → A s a → A (arm_kill_switch s) a)
    (new : OrderId) where
  -- The venue's state has a property, the account and the allocator have one, and no order has the
  -- id.
  pub record IsKept (oms : Oms X) : Type 0 where
    pub account : A oms.state oms.cid_alloc
    pub calls : P oms.executor
    pub unbooked : lookup new oms.orders ≡ none

  set-IsKept :
      (oms : Oms X) (cid : OrderId) (r r' : OrderRecord)
      → lookup cid oms.orders ≡ some r
      → IsKept oms
      → IsKept (record oms { orders = insert cid r' oms.orders })
  set-IsKept oms cid r r' found v = record {
    account = v.account;
    calls = v.calls;
    unbooked = insert-absent cid new r r' oms.orders v.unbooked found;
  }

  flag_cancel-IsKept :
      (oms : Oms X) (cid : OrderId) (b : Bool)
      → IsKept oms
      → IsKept (record oms { orders = flag_cancel cid b oms.orders })
  flag_cancel-IsKept oms cid b v = elim (Option-cases (lookup cid oms.orders)) [
    | inl unknown ↦ rw (flag_cancel_unknown cid b oms.orders unknown) v
    | inr (r, known) ↦
        rw (flag_cancel_known cid b oms.orders r known)
          (set-IsKept oms cid r (record r { cancel_in_flight = b }) known v)
  ]

  call-IsKept :
      (oms : Oms X) (cid : OrderId)
      → IsKept oms
      → IsKept (record oms { executor = (venue.cancel cid oms.executor).1 })
  call-IsKept oms cid v = record {
    account = v.account;
    calls = keeps cid oms.executor v.calls;
    unbooked = v.unbooked;
  }

  cancel_result-IsKept :
      (oms : Oms X) (cid : OrderId) (r : OrderRecord) (answer : Result (Unit {0}) ExecutorError)
      → lookup cid oms.orders ≡ some r
      → IsKept oms
      → IsKept (cancel_result venue oms cid r answer).1
  cancel_result-IsKept oms cid r answer found v =
      let (b, set) = cancel_result_flag venue oms cid r answer in
      rw set (set-IsKept oms cid r (record r { cancel_in_flight = b }) found v)

  pub handle_cancel-IsKept :
      (oms : Oms X) (cid : OrderId) → IsKept oms → IsKept (handle_cancel venue oms cid).1
  handle_cancel-IsKept oms cid v = elim (Option-cases (lookup cid oms.orders)) [
    | inl unknown ↦ rw (handle_cancel_unknown venue oms cid unknown) v
    | inr (r, known) ↦ elim (Bool-cases (is_terminal r)) [
      | inl done ↦ rw (handle_cancel_done venue oms cid r known done) v
      | inr live ↦ rw (handle_cancel_live venue oms cid r known live) (
          cancel_result-IsKept (record oms { executor = (venue.cancel cid oms.executor).1 }) cid r
            (venue.cancel cid oms.executor).0 known (call-IsKept oms cid v))
    ]
  ]

  cancel_live-IsKept :
      (l : List OrderId) (oms : Oms X) → IsKept oms → IsKept (cancel_live venue l oms)
  cancel_live-IsKept [] oms v = rw (cancel_live_nil venue oms) v
  cancel_live-IsKept (cid ∷ l) oms v =
      let (m, step, flags) = cancel_live_cons venue cid l oms in
      let called = record oms { executor = (venue.cancel cid oms.executor).1 } in
      let w = flag_cancel-IsKept called cid true (call-IsKept oms cid v) in
      rw step (
        cancel_live-IsKept l (record called { orders = m })
          (elim flags [
            | inl sent ↦ rw sent w
            | inr failed ↦ rw failed (
                flag_cancel-IsKept (record called { orders = flag_cancel cid true oms.orders }) cid
                  false w)
          ]))

  pub handle_arm-IsKept :
      (oms : Oms X) (ch : EventChannel) → IsKept oms → IsKept (handle_arm venue oms ch).1
  unfolding handle_arm
  handle_arm-IsKept oms ch v =
      cancel_live-IsKept (live_orders oms.orders) (record oms { state = arm_kill_switch oms.state })
        (record {
          account = armed oms.state oms.cid_alloc v.account;
          calls = v.calls;
          unbooked = v.unbooked;
        })

  update-IsKept :
      (oms : Oms X) (o : Order) (u : PositionUpdate)
      → IsKept oms
      → IsKept (record oms { state = book_update oms.state o u })
  update-IsKept oms o u v = record {
    account = booked oms.state oms.cid_alloc o u v.account;
    calls = v.calls;
    unbooked = v.unbooked;
  }

  drop-IsKept :
      (oms : Oms X) (cid : OrderId) (s : OrderState)
      → IsKept oms
      → IsKept (record oms { orders = drop_if_pending s cid oms.orders })
  drop-IsKept oms cid s v = record {
    account = v.account;
    calls = v.calls;
    unbooked = ground (arith, v.unbooked, lookup-remove cid new oms.orders);
  }

  report_fill-IsKept :
      (oms : Oms X) (cid : OrderId) (r : OrderRecord) (f : Fill) (c now : ℕ) (terminal : Bool)
      (ch : EventChannel)
      → lookup cid oms.orders ≡ some r
      → IsKept oms
      → IsKept (report_fill oms cid r f c now terminal ch).1
  unfolding report_fill update_position_and_emit
  report_fill-IsKept oms cid r f c now terminal ch found v =
      let (r', d) = apply_record_fill r f.price c now terminal in
      let w = set-IsKept oms cid r r' found v in
      elim (Bool-cases (d == 0)) [
        | inl stale ↦ rw stale w
        | inr fresh ↦ rw fresh (
            update-IsKept (record oms { orders = insert cid r' oms.orders }) r.order
              (fill_update (record oms { orders = insert cid r' oms.orders }) r.order d f.price) w)
      ]

  apply_report-IsKept :
      (oms : Oms X) (cid : OrderId) (r : OrderRecord) (kind : ExecutionReportKind) (now : ℕ)
      (ch : EventChannel)
      → lookup cid oms.orders ≡ some r
      → IsKept oms
      → IsKept (apply_report oms cid r kind now ch).1
  unfolding apply_report
  apply_report-IsKept oms cid r (ExecutionReportKind.acked id) now ch found v =
      set-IsKept oms cid r (mark_acked r id now) found v
  apply_report-IsKept oms cid r (ExecutionReportKind.partially_filled f c) now ch found v =
      report_fill-IsKept oms cid r f c now false ch found v
  apply_report-IsKept oms cid r (ExecutionReportKind.filled f c) now ch found v =
      report_fill-IsKept oms cid r f c now true ch found v
  apply_report-IsKept oms cid r (ExecutionReportKind.cancelled _) now ch found v =
      set-IsKept oms cid r (mark_cancelled r now) found v
  apply_report-IsKept oms cid r (ExecutionReportKind.rejected _) now ch found v =
      let r' = mark_rejected r now in
      drop-IsKept (record oms { orders = insert cid r' oms.orders }) cid r.state
        (set-IsKept oms cid r r' found v)

  pub handle_report-IsKept :
      (oms : Oms X) (report : ExecutionReport) (now : ℕ) (ch : EventChannel)
      → IsKept oms
      → IsKept (handle_report oms report now ch).1
  handle_report-IsKept oms report now ch v = elim (Option-cases (lookup report.cid oms.orders)) [
    | inl unknown ↦ rw (handle_report_unknown oms report now ch unknown) v
    | inr (r, known) ↦
        rw (handle_report_known oms report now ch r known)
          (apply_report-IsKept oms report.cid r report.kind now ch known v)
  ]
