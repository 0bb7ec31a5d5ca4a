-- ===== src/Fix/Runs.antt =====
-- crates/kalshi-fix/src/executor.rs: `run_task` as steps, one for each arm of its `select!`. The
-- bytes that arrive, the commands, and what the writer answers come from outside.
use predigy.Prelude.{
  if◌then◌else◌, unwrap_or, length, ℕ, zero, suc, ◌+◌, Bool, true, false, not, Option, none, some,
  List, [], ◌∷◌, ◌++◌,
}
use predigy.Prelude.Text.{Text, text, text_eq}
use predigy.Prelude.Map.{text_key, lookup}
use predigy.Prelude.Result.{Result, ◌>>=◌, ok, err}
use predigy.Core.{position_key, OrderId, Order}
use predigy.Oms.{ExecutorError}
use predigy.Fix.Strings.{Bytes, drop}
use predigy.Fix.Frames.{
  Error, Stop, FieldList, get, decode_message, unsupported, failed, panics, out_of_fuel,
}
use predigy.Fix.Tags.{msg_type, msg_type_logon}
use predigy.Fix.Sessions.{Session, next_out_seq, validate_inbound}
use predigy.Fix.Messages.{
  build_logon, build_heartbeat, build_new_order_single, build_order_cancel_request,
}
use predigy.Fix.Tasks.{
  FixConfig, FixTask, new_fix_task, track_order, cancel_cid_of, dispatch_inbound,
}

-- What a write answers: nothing, or the text of its error.
abbrev pub WriteAnswer : Type 0
WriteAnswer = Option Text

abbrev pub write_result : WriteAnswer → Result (Unit {0}) ExecutorError
write_result none = ok tt
write_result (some e) = err (ExecutorError.transport e)

-- The message is handed to the writer, which takes it or not.
abbrev pub hand_over : FieldList → WriteAnswer → FixTask → FixTask
hand_over message none task = record task { written = task.written ++ message ∷ [] }
hand_over message (some e) task = task

abbrev pub reply : Result (Unit {0}) ExecutorError → FixTask → FixTask
reply answer task = record task { replies = task.replies ++ answer ∷ [] }

-- The session after a number is taken, and one more read of the clock.
abbrev pub numbered : Session → FixTask → FixTask
numbered s task = record task { session = s; reads = task.reads + 1 }

-- The text of the only error that a builder has.
unfoldable pub refusal : Error → Text
refusal (unsupported m) = text "unsupported intent: " ++ m
refusal _ = []

-- The inner loop of `await_logon_ack`: acknowledged, refused, or more bytes are needed.
pub data LogonAnswer : Type 0 where
  acked : LogonAnswer
  refused : LogonAnswer
  awaited : LogonAnswer

pub data Phase : Type 0 where
  awaiting_logon : Phase
  working : Phase
  stopped : Phase

-- What the task waits for, and the part of a call that runs beside it.
pub data FixEvent : Type 0 where
  received : Bytes → FixEvent
  peer_closed : FixEvent
  read_error : FixEvent
  commands_closed : FixEvent
  submit_called : Order → FixEvent
  submit_arrives : Order → WriteAnswer → FixEvent
  cancel_arrives : OrderId → Text → WriteAnswer → FixEvent
  heartbeat_due : WriteAnswer → FixEvent

pub record Connection : Type 0 where
  pub phase : Phase
  pub inbound : Bytes
  pub task : FixTask

abbrev pub stop_unless : Bool → Phase
stop_unless true = Phase.working
stop_unless false = Phase.stopped

module _ (clock : ℕ → ℕ) where
  unfoldable pub send_logon : FixConfig → WriteAnswer → FixTask → Result (Bool × FixTask) Stop
  send_logon config answer task = do
    (seq, s) ← next_out_seq task.session
    let body =
        build_logon s.sender_comp_id s.target_comp_id seq config.config_heartbeat
          config.reset_seq_num config.auth_tags (clock task.reads)
    ok (elim answer [ none ↦ true | some e ↦ false ], hand_over body answer (numbered s task))

  unfoldable pub submit_command : Order → WriteAnswer → FixTask → Result FixTask Stop
  submit_command order answer task = do
    (seq, s) ← next_out_seq task.session
    let task' = numbered s task
    elim (build_new_order_single s.sender_comp_id s.target_comp_id seq order (clock task.reads)) [
      | ok body ↦ ok (reply (write_result answer) (hand_over body answer task'))
      | err (failed e) ↦ ok (reply (err (ExecutorError.rejected_by_venue (refusal e))) task')
      | err panics ↦ err panics
      | err out_of_fuel ↦ err out_of_fuel
    ]

  -- `FixExecutor::cancel` up to its send: the identifier of the cancel, for an order that is
  -- tracked.
  unfoldable pub request_cancel : OrderId → FixTask → Result Text ExecutorError
  request_cancel cid task = elim (lookup cid task.tracked) [
    | none ↦ err (ExecutorError.unknown_order cid)
    | some t ↦ ok (cancel_cid_of cid)
  ]

  unfoldable pub cancel_command : OrderId → Text → WriteAnswer → FixTask → Result FixTask Stop
  cancel_command cid cancel_cid answer task = elim (lookup cid task.tracked) [
    | none ↦ ok (reply (err (ExecutorError.unknown_order cid)) task)
    | some t ↦ do
      (seq, s) ← next_out_seq task.session
      let body =
          build_order_cancel_request s.sender_comp_id s.target_comp_id seq cancel_cid t.cid t.market
            t.action (clock task.reads)
      ok (reply (write_result answer) (hand_over body answer (numbered s task)))
  ]

  unfoldable pub heartbeat_tick : WriteAnswer → FixTask → Result (Bool × FixTask) Stop
  heartbeat_tick answer task = do
    (seq, s) ← next_out_seq task.session
    let body = build_heartbeat s.sender_comp_id s.target_comp_id seq none (clock task.reads)
    ok (elim answer [ none ↦ true | some e ↦ false ], hand_over body answer (numbered s task))

  unfoldable pub logon_loop : ℕ → Bytes → FixTask → Result (LogonAnswer × Bytes × FixTask) Stop
  logon_loop zero inbound task = err out_of_fuel
  logon_loop (suc f) inbound task = elim (decode_message inbound) [
    | ok none ↦ ok (LogonAnswer.awaited, inbound, task)
    | ok (some (fields, consumed)) ↦
        let rest = logon_loop f (drop consumed inbound) task in
        let (answer, s) = validate_inbound fields task.session in
        let task' = record task { session = s } in
        if text_eq (unwrap_or (get msg_type fields) (text "?")) msg_type_logon
        then (elim answer [
          | ok seq ↦ ok (LogonAnswer.acked, drop consumed inbound, task')
          | err (failed e) ↦ ok (LogonAnswer.refused, drop consumed inbound, task')
          | err panics ↦ err panics
          | err out_of_fuel ↦ err out_of_fuel
        ])
        else rest
    | err (failed e) ↦ ok (LogonAnswer.refused, inbound, task)
    | err panics ↦ err panics
    | err out_of_fuel ↦ err out_of_fuel
  ]

  unfoldable pub receive_logon : Bytes → FixTask → Result Connection Stop
  receive_logon inbound task = do
    (answer, left, task') ← logon_loop (suc (length inbound)) inbound task
    ok (record {
      phase = elim answer [
        | LogonAnswer.acked ↦ Phase.working
        | LogonAnswer.refused ↦ Phase.stopped
        | LogonAnswer.awaited ↦ Phase.awaiting_logon
      ];
      inbound = left;
      task = task';
    })

  unfoldable pub receive_bytes : Bytes → FixTask → Result Connection Stop
  receive_bytes inbound task = do
    (shuts_down, left, task') ← dispatch_inbound clock inbound task
    ok (record { phase = stop_unless (not shuts_down); inbound = left; task = task' })

  -- The task at its start: the logon is written, or the task ends.
  unfoldable pub start_run : FixConfig → WriteAnswer → Result Connection Stop
  start_run config answer = do
    (sent, task) ← send_logon config answer (new_fix_task config)
    ok (record {
      phase = if sent then Phase.awaiting_logon else Phase.stopped;
      inbound = [];
      task = task;
    })

  -- One event. A task that stopped does nothing more, and before the logon is acknowledged it only
  -- reads.
  unfoldable pub run_step : FixEvent → Connection → Result Connection Stop
  run_step (FixEvent.submit_called order) c = ok (record c { task = track_order order c.task })
  run_step (FixEvent.received chunk) c = elim c.phase [
    | Phase.awaiting_logon ↦ receive_logon (c.inbound ++ chunk) c.task
    | Phase.working ↦ receive_bytes (c.inbound ++ chunk) c.task
    | Phase.stopped ↦ ok c
  ]
  run_step FixEvent.peer_closed c = ok (record c { phase = Phase.stopped })
  run_step FixEvent.read_error c = ok (record c { phase = Phase.stopped })
  run_step FixEvent.commands_closed c = elim c.phase [
    | Phase.working ↦ ok (record c { phase = Phase.stopped })
    | _ ↦ ok c
  ]
  run_step (FixEvent.submit_arrives order answer) c = elim c.phase [
    | Phase.working ↦ do task' ← submit_command order answer c.task; ok (record c { task = task' })
    | _ ↦ ok c
  ]
  run_step (FixEvent.cancel_arrives cid cancel_cid answer) c = elim c.phase [
    | Phase.working ↦ do
      task' ← cancel_command cid cancel_cid answer c.task
      ok (record c { task = task' })
    | _ ↦ ok c
  ]
  run_step (FixEvent.heartbeat_due answer) c = elim c.phase [
    | Phase.working ↦ do
      (goes_on, task') ← heartbeat_tick answer c.task
      ok (record c { phase = stop_unless goes_on; task = task' })
    | _ ↦ ok c
  ]

  unfoldable pub run_events : List FixEvent → Connection → Result Connection Stop
  run_events [] c = ok c
  run_events (e ∷ es) c = do c' ← run_step e c; run_events es c'
