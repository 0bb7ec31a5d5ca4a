-- ===== src/Oms/Tests.antt =====
-- Runs of crates/oms at fixed inputs.
pub mod Records
pub mod Stores
use predigy.Prelude.{
  if◌then◌else◌, All, All-append, ℕ, ◌≡◌, refl, true, false, none, List, [], ◌∷◌, arith,
}
use predigy.Oms.{
  OrderRecord, new_record, digits, show_u64, show_padded, format_cid, next_cid, ExecutionReportKind,
  StubCall, StubExecutor, stub_submit, stub_cancel, stub_executor, OmsCmd, EventChannel, send, Oms,
  Env, order_of, live_orders, book_order, dispatch_order, decide_submit, handle_submit, handle_arm,
  snapshot, StateFile, rehydrate, StateBacking, Input, handle_command, Task, finish_turn, turn,
  run_task, spawn_state,
}
use predigy.Core.{
  Side, Action, MarketTicker, PositionKey, position_key_eq, position_key, OrderId, OrderState,
  Intent, limit_intent, intent_notional_cents, Fill,
}
use predigy.Risk.{
  for_market, AccountState, position, avg_entry_cents, notional_cents, gross_notional_cents,
  record_order_sent, project_action, project_full_fill, RiskEngine, check_rate, check_daily_loss,
  check_projection, check,
}
use predigy.Oms.Ledger.{order_key, IsLedger}
use predigy.Prelude.Map.{text_key, lookup, insert}
use predigy.Prelude.Int.{pos}
use predigy.Prelude.Text.{text_eq}
use predigy.Prelude.Result.{ok}
use predigy.Oms.KillLaws.Stops.{IsStopped, run_task-IsStopped}
use predigy.Oms.KillLaws.Arms.{times, flagged_if, is_live, cancels, handle_arm_lem}
use predigy.Oms.SubmitLaws.{SubmitPost, handle_submit_lem}
use predigy.Core.Fees.{fee_cents}
use predigy.Oms.Ledger.Fresh.{IsIssuing}
use predigy.Oms.Ledger.FreshRuns.{FitsReports, run_task-IsLedger_issued}
use predigy.Oms.SavedRuns.{run_task_saved}

abbrev pub ticker : MarketTicker
ticker = 0x41 ∷ []

abbrev open_engine : RiskEngine
open_engine = record {
  limits = record {
    per_market = record { max_contracts_per_side = 0; max_notional_cents_per_side = 0 };
    per_market_overrides = [];
    account = record { max_gross_notional_cents = 0; max_daily_loss_cents = 0 };
    rate = record { max_orders_per_window = 0; window = 1 };
  };
}

abbrev pub flat_account : AccountState
flat_account = record {
  positions = [];
  avg_entry = [];
  daily_realized_pnl_cents = pos 0;
  recent_orders = [];
  kill_switch = false;
}

abbrev pub fresh_oms : Oms StubExecutor
fresh_oms = record {
  risk = open_engine;
  executor = record { calls = []; next_submit_error = none };
  state = flat_account;
  orders = [];
  cid_alloc = record {
    strategy_id = 0x73 ∷ [];
    next_seq = 0;
    high_water = 1000;
    chunk_size = 1000;
    store = none;
  };
  files = [];
}

abbrev buy_ten : Intent
buy_ten = limit_intent ticker Side.yes_side Action.buy 40 10

abbrev pub first_cid : OrderId
first_cid = 0x73 ∷ 0x3a ∷ 0x41 ∷ 0x3a ∷ 0x30 ∷ 0x30 ∷ 0x30 ∷ 0x30 ∷ 0x30 ∷ 0x30 ∷ 0x30 ∷ 0x30 ∷ []

abbrev env : Env
env = record { now = 5; write_ok = true }

abbrev events : EventChannel
events = record { accepts = 100; sent = [] }

abbrev first_fill : Fill
first_fill = record {
  order_id = first_cid;
  market = ticker;
  side = Side.yes_side;
  action = Action.buy;
  price = 40;
  qty = 4;
  is_maker = false;
  fee_cents = 7;
  ts_ms = 6;
}

abbrev inputs : List (Env × Input)
inputs =
    (env, Input.command (OmsCmd.submit buy_ten))
    ∷ (
      env,
      Input.report (record {
        cid = first_cid;
        ts_ms = pos 6;
        kind = ExecutionReportKind.partially_filled first_fill 4;
      }),
    )
    ∷ (env, Input.command (OmsCmd.cancel first_cid))
    ∷ []

abbrev task : Task stub_executor
task = record {
  oms = fresh_oms;
  events = events;
  replies = [];
  state_file = StateFile.missing;
  running = true;
}

abbrev nothing_before : PositionKey → ℕ
nothing_before k = 0

fresh_oms-IsLedger : IsLedger nothing_before fresh_oms
unfolding position lookup
fresh_oms-IsLedger = record { unique = tt; unfilled = tt; balanced = λ k. refl }

inputs-FitsReports : FitsReports stub_executor StateBacking.in_memory task inputs
unfolding lookup insert text_eq position_key_eq position turn finish_turn handle_command
    handle_submit check check_rate check_daily_loss check_projection decide_submit dispatch_order
    book_order next_cid format_cid show_padded show_u64 digits order_of new_record record_order_sent
    stub_executor stub_submit for_market project_full_fill project_action notional_cents
    avg_entry_cents gross_notional_cents intent_notional_cents send
inputs-FitsReports = (tt, (omega arith, (tt, tt)))

fresh_oms-IsIssuing : IsIssuing fresh_oms
unfolding lookup
fresh_oms-IsIssuing = record { untracked = λ s m i low high. refl }

run_task-IsLedger_issued_example :
    IsLedger nothing_before (run_task stub_executor StateBacking.in_memory task inputs).oms
run_task-IsLedger_issued_example =
    run_task-IsLedger_issued stub_executor nothing_before StateBacking.in_memory task inputs
      fresh_oms-IsLedger fresh_oms-IsIssuing (omega arith) inputs-FitsReports

abbrev pub second_cid : OrderId
second_cid = 0x73 ∷ 0x3a ∷ 0x42 ∷ []

abbrev pub live_record : OrderRecord
live_record = record {
  cid = second_cid;
  order = order_of second_cid buy_ten;
  state = OrderState.acked;
  cumulative_qty = 3;
  avg_fill_price_cents = 40;
  cancel_in_flight = false;
  venue_order_id = none;
  submitted_at = 1;
  last_event_at = 2;
}

-- The kill switch.
abbrev killed_task : Task stub_executor
killed_task = record task {
  oms = record fresh_oms {
    state = record flat_account { kill_switch = true };
    orders = (second_cid, live_record) ∷ [];
  };
}

abbrev IsCancel : StubCall → Type 0
IsCancel (StubCall.submit _) = ⊥
IsCancel (StubCall.cancel _) = Unit

abbrev OnlyCancels : StubExecutor → Type 0
OnlyCancels x = All IsCancel x.calls

cancel-OnlyCancels :
    (cid : OrderId) (x : StubExecutor) → OnlyCancels x → OnlyCancels (stub_executor.cancel cid x).1
unfolding stub_executor stub_cancel
cancel-OnlyCancels cid x v = All-append IsCancel x.calls (StubCall.cancel cid ∷ []) v (tt, tt)

killed_task-IsStopped :
    IsStopped stub_executor OnlyCancels cancel-OnlyCancels first_cid killed_task.oms
unfolding lookup text_eq
killed_task-IsStopped = record { account = refl; calls = tt; unbooked = refl }

run_task-IsStopped_example :
    IsStopped stub_executor OnlyCancels cancel-OnlyCancels first_cid
      (run_task stub_executor StateBacking.in_memory killed_task inputs).oms
run_task-IsStopped_example =
    run_task-IsStopped stub_executor OnlyCancels cancel-OnlyCancels first_cid StateBacking.in_memory
      killed_task inputs (tt, (tt, (tt, tt))) killed_task-IsStopped

stub_works : (cid : OrderId) (x : StubExecutor) → (stub_executor.cancel cid x).0 ≡ ok tt
unfolding stub_executor stub_cancel
stub_works cid x = refl

handle_arm_lem_example :
    let oms' = (handle_arm stub_executor killed_task.oms events).1 in
    ((a : OrderId)
      → lookup a oms'.orders
        ≡ flagged_if (is_live (lookup a killed_task.oms.orders)) (lookup a killed_task.oms.orders))
    × (oms'.executor
        ≡ cancels stub_executor (live_orders killed_task.oms.orders) killed_task.oms.executor)
    × ((a : OrderId)
        → times a (live_orders killed_task.oms.orders)
          ≡ (if is_live (lookup a killed_task.oms.orders) then 1 else 0))
    × (oms'.state ≡ record killed_task.oms.state { kill_switch = true })
unfolding lookup
handle_arm_lem_example = handle_arm_lem stub_executor stub_works killed_task.oms events (refl, tt)

handle_submit_lem_example :
    SubmitPost stub_executor fresh_oms buy_ten env events
      (handle_submit stub_executor fresh_oms buy_ten env events)
handle_submit_lem_example = handle_submit_lem stub_executor fresh_oms buy_ten env events

abbrev one_submit : Env × Input
one_submit = (env, Input.command (OmsCmd.submit buy_ten))

abbrev saved_run : Task stub_executor
saved_run = run_task stub_executor StateBacking.persistent task (one_submit ∷ [])

one_submit_runs : saved_run.running ≡ true
unfolding lookup insert text_eq position_key_eq position turn finish_turn handle_command
    handle_submit check check_rate check_daily_loss check_projection decide_submit dispatch_order
    book_order next_cid format_cid show_padded show_u64 digits order_of new_record record_order_sent
    stub_executor stub_submit for_market project_full_fill project_action notional_cents
    avg_entry_cents gross_notional_cents intent_notional_cents send run_task
one_submit_runs = refl

run_task_saved_example :
    spawn_state StateBacking.persistent saved_run.state_file 9
    ≡ ok (rehydrate (snapshot saved_run.oms.state saved_run.oms.orders) 9)
run_task_saved_example =
    run_task_saved stub_executor task one_submit [] 9 refl (refl, tt) one_submit_runs
