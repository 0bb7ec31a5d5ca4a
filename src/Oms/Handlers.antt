-- ===== src/Oms/Handlers.antt =====
-- crates/oms/src/runtime.rs: submitting, cancelling and the kill switch.
use predigy.Core.{position_key, OrderId, Order, Intent}
use predigy.Oms.Records.{OrderRecord, new_record, is_terminal}
use predigy.Oms.Cids.{next_cid}
use predigy.Oms.Venue.{ExecutorError, show_executor_error, Executor}
use predigy.Oms.Events.{OmsError, OmsEvent, EventChannel, send}
use predigy.Oms.Manager.{Oms, Env, order_of}
use predigy.Prelude.{if◌then◌else◌, ℕ, Bool, true, false, ◌||◌, none, some, List, [], ◌∷◌}
use predigy.Prelude.Map.{text_key, Map, lookup, insert}
use predigy.Prelude.Result.{Result, ok, err}
use predigy.Risk.{record_order_sent, arm_kill_switch, Decision, check}

-- The ids that `filter_map` collects: live orders without a cancel in flight.
unfoldable pub live_orders : Map OrderId OrderRecord → List OrderId
live_orders [] = []
live_orders (e ∷ m) =
    if is_terminal e.1 || e.1.cancel_in_flight then live_orders m else e.0 ∷ live_orders m

-- `get_mut` and the write of the flag.
unfoldable pub flag_cancel : OrderId → Bool → Map OrderId OrderRecord → Map OrderId OrderRecord
flag_cancel cid b orders = elim (lookup cid orders) [
  | none ↦ orders
  | some r ↦ insert cid (record r { cancel_in_flight = b }) orders
]

module _ {X : Type 0} (venue : Executor X) where
  -- After the executor's answer: only an accepted order is booked.
  unfoldable pub book_order :
      Oms X
      → Order
      → ℕ
      → EventChannel
      → Result (Unit {0}) ExecutorError
      → Result OrderId OmsError × Oms X × EventChannel
  book_order oms order now ch (err e) = (err (OmsError.executor (show_executor_error e)), oms, ch)
  book_order oms order now ch (ok _) = (
    ok order.client_id,
    record oms {
      state = record_order_sent oms.state now;
      orders = insert order.client_id (new_record order now) oms.orders;
    },
    (send (OmsEvent.submitted order.client_id order) ch).1,
  )

  -- After an approval: the id is allocated and the order handed to the executor.
  unfoldable pub dispatch_order :
      Oms X → Intent → Env → EventChannel → Result OrderId OmsError × Oms X × EventChannel
  unfolding book_order
  dispatch_order oms i env ch =
      let (cid, alloc, files) = next_cid oms.cid_alloc i.market oms.files env.write_ok in
      let order = order_of cid i in
      let (answer, x) = venue.submit order oms.executor in
      book_order (record oms { cid_alloc = alloc; files = files; executor = x }) order env.now ch
        answer

  -- By the decision of the risk check.
  unfoldable pub decide_submit :
      Oms X
      → Intent
      → Env
      → EventChannel
      → Decision
      → Result OrderId OmsError × Oms X × EventChannel
  unfolding dispatch_order
  decide_submit oms i env ch (Decision.reject reason) =
      (err (OmsError.risk_rejected reason), oms, ch)
  decide_submit oms i env ch Decision.approve = dispatch_order oms i env ch

  unfoldable pub handle_submit :
      Oms X → Intent → Env → EventChannel → Result OrderId OmsError × Oms X × EventChannel
  unfolding decide_submit
  handle_submit oms i env ch =
      let (decision, s) = check oms.risk i oms.state env.now in
      if oms.state.kill_switch
      then (err OmsError.kill_switch, oms, ch)
      else decide_submit (record oms { state = s }) i env ch decision

  -- The executor's answer to a cancel, and the flag of the record.
  unfoldable pub cancel_result :
      Oms X
      → OrderId
      → OrderRecord
      → Result (Unit {0}) ExecutorError
      → Result (Unit {0}) OmsError × Oms X
  cancel_result oms cid r (ok _) =
      (ok tt, record oms { orders = insert cid (record r { cancel_in_flight = true }) oms.orders })
  cancel_result oms cid r (err (ExecutorError.unknown_order _)) = (
    err (OmsError.unknown_order cid),
    record oms { orders = insert cid (record r { cancel_in_flight = false }) oms.orders },
  )
  cancel_result oms cid r (err e) = (
    err (OmsError.executor (show_executor_error e)),
    record oms { orders = insert cid (record r { cancel_in_flight = false }) oms.orders },
  )

  unfoldable pub handle_cancel : Oms X → OrderId → Result (Unit {0}) OmsError × Oms X
  unfolding cancel_result
  handle_cancel oms cid = elim (lookup cid oms.orders) [
    | none ↦ (err (OmsError.unknown_order cid), oms)
    | some r ↦
        let (answer, x) = venue.cancel cid oms.executor in
        if is_terminal r
        then (err (OmsError.unknown_order cid), oms)
        else cancel_result (record oms { executor = x }) cid r answer
  ]

  unfoldable pub cancel_live : List OrderId → Oms X → Oms X
  unfolding flag_cancel
  cancel_live [] oms = oms
  cancel_live (cid ∷ l) oms =
      let flagged = flag_cancel cid true oms.orders in
      let (answer, x) = venue.cancel cid oms.executor in
      let cancelled = elim answer as (λ _. Map OrderId OrderRecord) [
        | ok _ ↦ flagged
        | err _ ↦ flag_cancel cid false flagged
      ] in
      cancel_live l (record oms { orders = cancelled; executor = x })

  unfoldable pub handle_arm : Oms X → EventChannel → Bool × Oms X × EventChannel
  unfolding live_orders cancel_live
  handle_arm oms ch =
      let armed = record oms { state = arm_kill_switch oms.state } in
      let oms' = cancel_live (live_orders armed.orders) armed in
      let (taken, ch') = send OmsEvent.kill_switch_armed ch in (taken, oms', ch')
