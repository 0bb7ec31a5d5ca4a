-- ===== src/Oms/Venue.antt =====
-- crates/oms/src/executor.rs: the seam to the venue, the reports that come back, and the stub.
use predigy.Prelude.{ℕ, Bool, true, false, Option, none, some, List, [], ◌∷◌, ◌++◌}
use predigy.Core.{position_key, OrderId, Order, Fill}
use predigy.Prelude.Map.{text_key}
use predigy.Prelude.Int.{ℤ}
use predigy.Prelude.Text.{Text, text}
use predigy.Prelude.Result.{Result, ok, err}

pub data ExecutorError : Type 0 where
  session_closed : ExecutorError
  transport : Text → ExecutorError
  rejected_by_venue : Text → ExecutorError
  unknown_order : OrderId → ExecutorError

-- `to_string()`.
unfoldable pub show_executor_error : ExecutorError → Text
show_executor_error ExecutorError.session_closed = text "session closed"
show_executor_error (ExecutorError.transport m) = text "transport: " ++ m
show_executor_error (ExecutorError.rejected_by_venue m) = text "rejected by venue: " ++ m
show_executor_error (ExecutorError.unknown_order cid) = text "unknown order id: " ++ cid

-- The trait: an implementation with its own state.
pub record Executor (X : Type 0) : Type 0 where
  pub submit : Order → X → Result (Unit {0}) ExecutorError × X
  pub cancel : OrderId → X → Result (Unit {0}) ExecutorError × X

pub data ExecutionReportKind : Type 0 where
  acked : (venue_order_id : Text) → ExecutionReportKind
  partially_filled : Fill → (cumulative_qty : ℕ) → ExecutionReportKind
  filled : Fill → (cumulative_qty : ℕ) → ExecutionReportKind
  cancelled : (reason : Text) → ExecutionReportKind
  rejected : (reason : Text) → ExecutionReportKind

-- `ts_ms` is an `i64`.
pub record ExecutionReport : Type 0 where
  pub cid : OrderId
  pub ts_ms : ℤ
  pub kind : ExecutionReportKind

abbrev pub is_terminal_kind : ExecutionReportKind → Bool
is_terminal_kind (ExecutionReportKind.filled _ _) = true
is_terminal_kind (ExecutionReportKind.cancelled _) = true
is_terminal_kind (ExecutionReportKind.rejected _) = true
is_terminal_kind _ = false

-- The stub of the tests: it logs every call, and can be told to fail the next submit.
pub data StubCall : Type 0 where
  submit : Order → StubCall
  cancel : OrderId → StubCall

pub record StubExecutor : Type 0 where
  pub calls : List StubCall
  pub next_submit_error : Option ExecutorError

unfoldable pub new_stub : StubExecutor
new_stub = record { calls = []; next_submit_error = none }

unfoldable pub fail_next_submit : ExecutorError → StubExecutor → StubExecutor
fail_next_submit e s = record s { next_submit_error = some e }

unfoldable pub stub_submit : Order → StubExecutor → Result (Unit {0}) ExecutorError × StubExecutor
stub_submit order s = (
  elim s.next_submit_error [ none ↦ ok tt | some e ↦ err e ],
  record { calls = s.calls ++ StubCall.submit order ∷ []; next_submit_error = none },
)

unfoldable pub stub_cancel : OrderId → StubExecutor → Result (Unit {0}) ExecutorError × StubExecutor
stub_cancel cid s = (ok tt, record s { calls = s.calls ++ StubCall.cancel cid ∷ [] })

unfoldable pub stub_executor : Executor StubExecutor
unfolding stub_submit stub_cancel
stub_executor = record { submit = stub_submit; cancel = stub_cancel }
