-- ===== src/Oms/Runtime.antt =====
-- crates/oms/src/runtime.rs: commands, start and main loop of the order manager's task.
use predigy.Core.{position_key, OrderId}
use predigy.Oms.Venue.{Executor, ExecutionReport}
use predigy.Oms.Events.{OmsError, OmsEvent, OmsCmd, EventChannel, send}
use predigy.Oms.Manager.{Oms, Env}
use predigy.Oms.Handlers.{handle_submit, handle_cancel, handle_arm}
use predigy.Oms.Reconcile.{diff_positions}
use predigy.Oms.Persist.{snapshot, StateFile, save_state}
use predigy.Prelude.{if◌then◌else◌, Bool, true, false, List, [], ◌∷◌, ◌++◌}
use predigy.Prelude.Map.{text_key}
use predigy.Prelude.Result.{Result}
use predigy.Risk.{disarm_kill_switch}
use predigy.Oms.Reports.{handle_report}

-- What the reply channel of a command receives.
pub data Reply : Type 0 where
  submitted : Result OrderId OmsError → Reply
  cancelled : Result (Unit {0}) OmsError → Reply
  reconciled : Reply
  nothing : Reply

pub data StateBacking : Type 0 where
  in_memory : StateBacking
  persistent : StateBacking

-- What the task receives in one turn of its loop, in the order that `select!` takes.
pub data Input : Type 0 where
  report : ExecutionReport → Input
  command : OmsCmd → Input

module _ {X : Type 0} (venue : Executor X) where
  unfoldable pub handle_command :
      Oms X → OmsCmd → Env → EventChannel → Bool × Reply × Oms X × EventChannel
  handle_command oms (OmsCmd.submit i) env ch =
      let (result, oms', ch') = handle_submit venue oms i env ch in
      (true, Reply.submitted result, oms', ch')
  handle_command oms (OmsCmd.cancel cid) env ch =
      let (result, oms') = handle_cancel venue oms cid in (true, Reply.cancelled result, oms', ch)
  handle_command oms OmsCmd.arm_kill_switch env ch =
      let (taken, oms', ch') = handle_arm venue oms ch in (taken, Reply.nothing, oms', ch')
  handle_command oms OmsCmd.disarm_kill_switch env ch =
      let (taken, ch') = send OmsEvent.kill_switch_disarmed ch in
      (taken, Reply.nothing, record oms { state = disarm_kill_switch oms.state }, ch')
  handle_command oms (OmsCmd.reconcile venue_positions) env ch =
      let (taken, ch') = send (OmsEvent.reconciled (diff_positions oms venue_positions)) ch in
      (taken, if taken then Reply.reconciled else Reply.nothing, oms, ch')
  handle_command oms OmsCmd.shutdown env ch = (true, Reply.nothing, oms, ch)

  -- The task's own variables.
  pub record Task : Type 0 where
    pub oms : Oms X
    pub events : EventChannel
    pub replies : List Reply
    pub state_file : StateFile
    pub running : Bool

  -- `persist_state`: with a path configured, a snapshot replaces the file if the write works.
  unfoldable pub persist_state : StateBacking → Oms X → StateFile → Bool → StateFile
  persist_state StateBacking.in_memory oms file write_ok = file
  persist_state StateBacking.persistent oms file write_ok =
      save_state (snapshot oms.state oms.orders) file write_ok

  -- After a handler: a failed send ends the task before it persists.
  unfoldable pub finish_turn :
      StateBacking → Env → Task → Bool → List Reply → Oms X → EventChannel → Task
  unfolding persist_state
  finish_turn backing env t goes_on replies oms ch = record {
    oms = oms;
    events = ch;
    replies = t.replies ++ replies;
    state_file =
        if goes_on then persist_state backing oms t.state_file env.write_ok else t.state_file;
    running = goes_on;
  }

  -- One turn of the loop; a shutdown command breaks it.
  unfoldable pub turn : StateBacking → Task → Env × Input → Task
  unfolding finish_turn handle_command
  turn backing t (env, Input.report r) =
      let (goes_on, oms', ch') = handle_report t.oms r env.now t.events in
      finish_turn backing env t goes_on [] oms' ch'
  turn backing t (env, Input.command OmsCmd.shutdown) = record t { running = false }
  turn backing t (env, Input.command cmd) =
      let (goes_on, reply, oms', ch') = handle_command t.oms cmd env t.events in
      finish_turn backing env t goes_on (reply ∷ []) oms' ch'

  -- The loop over what arrives, until it breaks or a channel closes.
  unfoldable pub run_task : StateBacking → Task → List (Env × Input) → Task
  unfolding turn
  run_task backing t [] = t
  run_task backing t (i ∷ is) =
      let rest = run_task backing (turn backing t i) is in if t.running then rest else t
