-- ===== src/Exec/Polling.antt =====
-- crates/kalshi-exec/src/executor.rs: what the executor, the poller and the listener do. The answers
-- of the client and the clock are arguments. The poller shares the state with the others, so that
-- each of its turns is a step of its own.
use predigy.Prelude.{
  ltb, leb, ◌==◌, if◌then◌else◌, ℕ, ◌+◌, ◌-◌, ◌/◌, min, max, Bool, true, false, ◌||◌, not, Option,
  none, some, List, [], ◌∷◌, ◌++◌,
}
use predigy.Prelude.Text.{Text, text, text_eq}
use predigy.Prelude.Int.{ℤ, pos_part, ◌+ℤ◌, ◌-ℤ◌, leb_ℤ, ltb_ℤ, pos, negsuc}
use predigy.Prelude.Result.{Result, ok, err}
use predigy.Core.{position_key, OrderId, Order, Fill}
use predigy.Oms.{ExecutorError, ExecutionReportKind, ExecutionReport}
use predigy.Exec.Mapping.{
  MapError, CreateOrderRequest, order_to_create_request, FillRecord, event_ts, fill_to_domain,
  unsupported_order,
}
use predigy.Exec.Tracking.{
  Tracked, TrackedOrders, on_submit, venue_id_for, lookup_terms, forget_order, note_fill,
}
use predigy.Prelude.Map.{text_key}

-- `report_open` is false once the receiver of the reports is gone. The list stands for the set of
-- the fills that are seen.
pub record RestState : Type 0 where
  pub orders : TrackedOrders
  pub seen_fills : List Text
  pub sent : List ExecutionReport
  pub report_open : Bool

-- A send, and whether the receiver was there.
unfoldable pub emit_report : ExecutionReport → RestState → Bool × RestState
emit_report r s = (s.report_open, if s.report_open then record s { sent = s.sent ++ r ∷ [] } else s)

abbrev pub report : OrderId → ℤ → ExecutionReportKind → ExecutionReport
report cid now kind = record { cid = cid; ts_ms = now; kind = kind }

-- `create_order` answers with the venue's id or with the text of its error, and `show_error` prints
-- an error of the mapping.
unfoldable pub submit_rest :
    (MapError → Text)
    → (CreateOrderRequest → Result Text Text)
    → ℤ
    → Order
    → RestState
    → Result (Unit {0}) ExecutorError × RestState
submit_rest show_error create_order now order s = elim (order_to_create_request order) [
  | err (unsupported_order reason) ↦ (
    err (ExecutorError.rejected_by_venue reason),
    (emit_report
        (report order.client_id now
          (ExecutionReportKind.rejected (text "unsupported intent: " ++ reason)))
        s).1,
  )
  | err e ↦ (err (ExecutorError.transport (show_error e)), s)
  | ok req ↦ elim (create_order req) [
    | ok venue_id ↦ (
      ok tt,
      (emit_report (report order.client_id now (ExecutionReportKind.acked venue_id)) (record s {
        orders = on_submit order.client_id venue_id order.qty order.side order.action s.orders;
      })).1,
    )
    | err body ↦ (
      err (ExecutorError.rejected_by_venue body),
      (emit_report (report order.client_id now (ExecutionReportKind.rejected body)) s).1,
    )
  ]
]

pub data CancelAnswer : Type 0 where
  cancel_done : CancelAnswer
  cancel_not_found : CancelAnswer
  cancel_failed : Text → CancelAnswer

unfoldable pub cancel_rest :
    (Text → CancelAnswer) → ℤ → OrderId → RestState → Result (Unit {0}) ExecutorError × RestState
cancel_rest cancel_order now cid s = elim (venue_id_for cid s.orders) [
  | none ↦ (err (ExecutorError.unknown_order cid), s)
  | some venue_id ↦ elim (cancel_order venue_id) [
    | cancel_done ↦ (
      ok tt,
      (emit_report (report cid now (ExecutionReportKind.cancelled (text "user cancel")))
          (record s { orders = forget_order cid s.orders })).1,
    )
    | cancel_not_found ↦
        (err (ExecutorError.unknown_order cid), record s { orders = forget_order cid s.orders })
    | cancel_failed m ↦ (err (ExecutorError.transport m), s)
  ]
]

-- The report of a fill, from the entry that `note_fill` returns.
unfoldable pub fill_kind : Tracked → Fill → ExecutionReportKind
fill_kind e fill =
    if leb e.target e.cumulative
    then ExecutionReportKind.filled fill (min e.cumulative e.target)
    else ExecutionReportKind.partially_filled fill e.cumulative

-- What both sources do with a fill, and whether the task goes on.
unfoldable pub book_fill : ℤ → FillRecord → RestState → Bool × RestState
book_fill now r s = elim (lookup_terms r.order_id s.orders) [
  | none ↦ (true, s)
  | some (side, action) ↦ elim (fill_to_domain r side action) [
    | err e ↦ (true, s)
    | ok fill ↦
        let (entry, orders) = note_fill r.order_id fill.qty s.orders in
        elim entry [
          | none ↦ (true, record s { orders = orders })
          | some e ↦ emit_report (report e.cid now (fill_kind e fill)) (record s {
            orders = if leb e.target e.cumulative then forget_order e.cid orders else orders;
          })
        ]
  ]
]

unfoldable pub is_seen : Text → List Text → Bool
is_seen id [] = false
is_seen id (x ∷ l) = text_eq x id || is_seen id l

unfoldable pub mark_seen : Text → List Text → List Text
mark_seen id l = if is_seen id l then l else id ∷ l

-- A turn of the listener on a fill that `ws_fill_to_record` has repackaged.
unfoldable pub ws_fill : ℤ → FillRecord → RestState → Bool × RestState
ws_fill now r s =
    let booked = book_fill now r (record s { seen_fills = mark_seen r.fill_id s.seen_fills }) in
    if not s.report_open
    then (false, s)
    else if is_seen r.fill_id s.seen_fills
    then (true, s)
    else booked

-- `min_ts` is in seconds, and the largest time of the page, which starts from it, in milliseconds.
pub record Poller : Type 0 where
  pub min_ts : ℤ
  pub max_ts_seen : ℤ
  pub newest_fills : List FillRecord

unfoldable pub unseen : List Text → List FillRecord → List FillRecord
unseen seen [] = []
unseen seen (r ∷ l) = if is_seen r.fill_id seen then unseen seen l else r ∷ unseen seen l

-- `sort_by_key` keeps the order of equal keys.
unfoldable pub insert_fill : FillRecord → List FillRecord → List FillRecord
insert_fill r [] = r ∷ []
insert_fill r (x ∷ l) = if leb_ℤ (event_ts r) (event_ts x) then r ∷ x ∷ l else x ∷ insert_fill r l

unfoldable pub sort_fills : List FillRecord → List FillRecord
sort_fills [] = []
sort_fills (r ∷ l) = insert_fill r (sort_fills l)

-- A page with a fill at least has come: what is unseen is queued.
unfoldable pub poll_begin : List FillRecord → RestState → Poller → Poller
poll_begin page s p = record p {
  max_ts_seen = p.min_ts;
  newest_fills = sort_fills (unseen s.seen_fills page);
}

-- One fill of the queue. The answer of `insert` is not looked at.
unfoldable pub poll_fill : ℤ → FillRecord → RestState → Bool × RestState
poll_fill now r s = book_fill now r (record s { seen_fills = mark_seen r.fill_id s.seen_fills })

unfoldable pub poll_next : ℤ → RestState → Poller → Bool × RestState × Poller
poll_next now s p = elim p.newest_fills [
  | [] ↦ (true, s, p)
  | r ∷ later ↦
      let (goes_on, s') = poll_fill now r s in
      (
        goes_on,
        s',
        record p {
          max_ts_seen = if ltb_ℤ p.max_ts_seen (event_ts r) then event_ts r else p.max_ts_seen;
          newest_fills = later;
        },
      )
]

-- Division of an `i64`, which rounds towards zero.
abbrev whole_seconds : ℤ → ℤ
whole_seconds (pos n) = pos (n / 1000)
whole_seconds (negsuc n) = pos 0 -ℤ pos ((n + 1) / 1000)

-- The queue is empty: `min_ts` goes to the second before the latest fill.
unfoldable pub poll_end : Poller → Poller
poll_end p =
    let advance_secs = whole_seconds p.max_ts_seen -ℤ pos 1 in
    record p { min_ts = if ltb_ℤ p.min_ts advance_secs then advance_secs else p.min_ts }

-- The clock is none before the epoch.
unfoldable pub compute_initial_min_ts : Option ℕ → (lookback : ℕ) → ℤ
compute_initial_min_ts none lookback = pos 0
compute_initial_min_ts (some secs) lookback =
    if ltb (secs - lookback) 9223372036854775808 then pos (secs - lookback) else pos 0

-- `delta` is the random number, at most a tenth of the base either way.
unfoldable pub jittered : ℕ → (delta : ℤ) → ℕ
jittered base_ms delta = if base_ms == 0 then 0 else max (pos_part (pos base_ms +ℤ delta)) 1
