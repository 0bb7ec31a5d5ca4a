-- ===== src/Fix/Tasks.antt =====
-- crates/kalshi-fix/src/executor.rs: the executor's calls, and the task that owns the connection.
-- What the clock reads, one read after another, and what a write answers are given from outside.
use predigy.Prelude.{
  if◌then◌else◌, unwrap_or, length, ℕ, zero, suc, ◌+◌, Bool, true, false, Option, none, some, List,
  [], ◌∷◌, ◌++◌,
}
use predigy.Prelude.Text.{Text, text, text_eq}
use predigy.Prelude.Map.{text_key, Map, lookup, insert}
use predigy.Prelude.Int.{pos}
use predigy.Prelude.Result.{Result, ◌>>=◌, ok, err}
use predigy.Core.{
  Side, Action, MarketTicker, position_key, Price, from_cents, qty_new, OrderId, Order, Fill,
}
use predigy.Oms.{show_u64, ExecutorError, ExecutionReportKind, ExecutionReport}
use predigy.Fix.Strings.{Bytes, drop}
use predigy.Fix.Frames.{
  Stop, fails, FieldList, get, decode_message, missing_tag, malformed_tag, failed, panics,
  out_of_fuel,
}
use predigy.Fix.Tags.{msg_type, last_qty, last_px, msg_type_execution_report}
use predigy.Fix.Sessions.{Session, new_session, validate_inbound}
use predigy.Fix.Messages.{ExecKind, ParsedExecutionReport, parse_execution_report}

pub record FixConfig : Type 0 where
  pub config_sender : Text
  pub config_target : Text
  pub config_heartbeat : ℕ
  pub auth_tags : FieldList
  pub reset_seq_num : Bool

pub record TrackedOrder : Type 0 where
  pub cid : OrderId
  pub market : MarketTicker
  pub side : Side
  pub action : Action

-- What the task holds: its session, the shared map, what went to the report channel, the messages
-- that the writer took, the replies to the callers, and how often the clock was read.
pub record FixTask : Type 0 where
  pub session : Session
  pub tracked : Map OrderId TrackedOrder
  pub reports : List ExecutionReport
  pub written : List FieldList
  pub replies : List (Result (Unit {0}) ExecutorError)
  pub reads : ℕ

unfoldable pub new_fix_task : FixConfig → FixTask
new_fix_task config = record {
  session = new_session config.config_sender config.config_target 1 1 config.config_heartbeat;
  tracked = [];
  reports = [];
  written = [];
  replies = [];
  reads = 0;
}

-- `FixExecutor::submit` up to its send: the order is tracked before the task sees it.
unfoldable pub track_order : Order → FixTask → FixTask
track_order order task = record task {
  tracked =
      insert order.client_id
        (record {
          cid = order.client_id;
          market = order.market;
          side = order.side;
          action = order.action;
        })
        task.tracked;
}

-- `format!("{}:c", cid)`.
abbrev pub cancel_cid_of : OrderId → Text
cancel_cid_of cid = cid ++ (b':' ∷ b'c' ∷ [])

-- An order that is not tracked counts as a purchase of the yes side.
unfoldable pub tracked_terms : OrderId → Map OrderId TrackedOrder → Side × Action × MarketTicker
tracked_terms cid tracked = elim (lookup cid tracked) [
  | none ↦ (Side.yes_side, Action.buy, [])
  | some t ↦ (t.side, t.action, t.market)
]

abbrev price_in : Option ℕ → Option Price
price_in none = none
price_in (some c) = elim (from_cents c) [ ok p ↦ some p | err e ↦ none ]

module _ (clock : ℕ → ℕ) where
  -- The fill of a report, and the reads of the clock after it.
  unfoldable pub build_fill :
      OrderId → Side × Action × MarketTicker → ParsedExecutionReport → ℕ → Result (Fill × ℕ) Stop
  build_fill cid (side, action, market) parsed reads =
      let malformed = malformed_tag last_qty (show_u64 (unwrap_or parsed.last_quantity 0)) in
      elim (qty_new (unwrap_or parsed.last_quantity parsed.cumulative)) [
        | err e ↦ fails malformed
        | ok qty ↦ elim (price_in parsed.last_px_cents) [
          | none ↦ fails (missing_tag last_px (text "8"))
          | some price ↦ ok (
            record {
              order_id = cid;
              market = market;
              side = side;
              action = action;
              price = price;
              qty = qty;
              is_maker = false;
              fee_cents = 0;
              ts_ms = clock reads;
            },
            reads + 1,
          )
        ]
      ]

  unfoldable pub report_kind :
      OrderId
      → Side × Action × MarketTicker
      → ParsedExecutionReport
      → ℕ
      → Result (ExecutionReportKind × ℕ) Stop
  report_kind cid terms parsed reads = elim parsed.exec_kind [
    | ExecKind.new ↦ ok (ExecutionReportKind.acked parsed.venue_order_id, reads)
    | ExecKind.filled ↦ do
      (fill, after) ← build_fill cid terms parsed reads
      ok (ExecutionReportKind.filled fill parsed.cumulative, after)
    | ExecKind.partially_filled ↦ do
      (fill, after) ← build_fill cid terms parsed reads
      ok (ExecutionReportKind.partially_filled fill parsed.cumulative, after)
    | ExecKind.cancelled ↦
        ok (ExecutionReportKind.cancelled (unwrap_or parsed.reason (text "venue cancel")), reads)
    | ExecKind.rejected ↦
        ok (ExecutionReportKind.rejected (unwrap_or parsed.reason (text "venue reject")), reads)
    | ExecKind.other s ↦ ok (ExecutionReportKind.cancelled (text "unmapped OrdStatus=" ++ s), reads)
  ]

  unfoldable pub handle_execution_report : FieldList → FixTask → Result FixTask Stop
  handle_execution_report fields task = do
    parsed ← parse_execution_report fields
    (kind, after) ←
        report_kind parsed.order_cid (tracked_terms parsed.order_cid task.tracked) parsed task.reads
    ok (record task {
      reports =
          task.reports
          ++ record { cid = parsed.order_cid; ts_ms = pos (clock after); kind = kind } ∷ [];
      reads = after + 1;
    })

  -- One message of `dispatch_inbound`'s loop, and whether the session shuts down. A report that
  -- cannot be handled is logged and passed over.
  unfoldable pub handle_message : FieldList → FixTask → Result (Bool × FixTask) Stop
  handle_message fields task =
      let (seq, session') = validate_inbound fields task.session in
      let task' = record task { session = session' } in
      let kind = unwrap_or (get msg_type fields) (text "?") in
      elim seq [
        | err (failed e) ↦ ok (true, task')
        | err panics ↦ err panics
        | err out_of_fuel ↦ err out_of_fuel
        | ok n ↦
            if text_eq kind msg_type_execution_report
            then (elim (handle_execution_report fields task') [
              | ok reported ↦ ok (false, reported)
              | err (failed e) ↦ ok (false, task')
              | err panics ↦ err panics
              | err out_of_fuel ↦ err out_of_fuel
            ])
            else ok (false, task')
      ]

  -- Whether the session shuts down, the bytes that are left, and the task after it. Each message
  -- takes a byte at least.
  unfoldable pub dispatch_loop : ℕ → Bytes → FixTask → Result (Bool × Bytes × FixTask) Stop
  dispatch_loop zero inbound task = err out_of_fuel
  dispatch_loop (suc f) inbound task = elim (decode_message inbound) [
    | ok none ↦ ok (false, inbound, task)
    | ok (some (fields, consumed)) ↦ elim (handle_message fields task) [
      | ok (shuts_down, task') ↦ elim shuts_down [
        | true ↦ ok (true, drop consumed inbound, task')
        | false ↦ dispatch_loop f (drop consumed inbound) task'
      ]
      | err e ↦ err e
    ]
    | err (failed e) ↦ ok (true, inbound, task)
    | err panics ↦ err panics
    | err out_of_fuel ↦ err out_of_fuel
  ]

  unfoldable pub dispatch_inbound : Bytes → FixTask → Result (Bool × Bytes × FixTask) Stop
  dispatch_inbound inbound task = dispatch_loop (suc (length inbound)) inbound task

  -- The reads of the main loop alone: each is added to the bytes that are left, until the session
  -- shuts down.
  unfoldable pub receive : List Bytes → Bytes → FixTask → Result (Bool × FixTask) Stop
  receive [] inbound task = ok (false, task)
  receive (chunk ∷ chunks) inbound task = elim (dispatch_inbound (inbound ++ chunk) task) [
    | ok (shuts_down, left, task') ↦ elim shuts_down [
      | true ↦ ok (true, task')
      | false ↦ receive chunks left task'
    ]
    | err e ↦ err e
  ]
