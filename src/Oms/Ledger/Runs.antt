-- ===== src/Oms/Ledger/Runs.antt =====
-- crates/oms/src/runtime.rs: the balance of positions and orders over whole runs of the task.
use predigy.Prelude.{Bool-cases, ℕ, refl, inl, inr, false, List, [], ◌∷◌}
use predigy.Oms.{
  Executor, OmsCmd, EventChannel, Oms, Env, handle_submit, StateBacking, Input, handle_command,
  Task, finish_turn, turn, run_task,
}
use predigy.Risk.{disarm_kill_switch}
use predigy.Oms.Ledger.{IsLedger}
use predigy.Oms.Ledger.Reports.{FitsReport, handle_report-IsLedger}
use predigy.Oms.SubmitLaws.{handle_submit_lem}
use predigy.Oms.Ledger.Commands.{
  same-IsLedger, IsFresh, submit-IsLedger, handle_cancel-IsLedger, handle_arm-IsLedger,
}
use predigy.Core.{PositionKey, position_key}
use predigy.Prelude.Map.{text_key}

module _ {X : Type 0} (venue : Executor X) (base : PositionKey → ℕ) where
  -- What each input may bring: fills that fit, and ids that are not in use.
  abbrev pub FitsInput : Oms X → Env → Input → Type 0
  FitsInput oms env (Input.report r) = FitsReport oms r
  FitsInput oms env (Input.command (OmsCmd.submit i)) = IsFresh oms i env
  FitsInput oms env (Input.command _) = Unit

  command-IsLedger :
      (oms : Oms X) (cmd : OmsCmd) (env : Env) (ch : EventChannel)
      → IsLedger base oms
      → FitsInput oms env (Input.command cmd)
      → IsLedger base (handle_command venue oms cmd env ch).2
  unfolding handle_command disarm_kill_switch
  command-IsLedger oms (OmsCmd.submit i) env ch v fits =
      submit-IsLedger venue base oms i env ch v fits (handle_submit venue oms i env ch)
        (handle_submit_lem venue oms i env ch)
  command-IsLedger oms (OmsCmd.cancel cid) env ch v fits =
      handle_cancel-IsLedger venue base oms cid v
  command-IsLedger oms OmsCmd.arm_kill_switch env ch v fits =
      handle_arm-IsLedger venue base oms ch v
  command-IsLedger oms OmsCmd.disarm_kill_switch env ch v fits =
      same-IsLedger base oms v (record oms { state = record oms.state { kill_switch = false } })
        refl refl
  command-IsLedger oms (OmsCmd.reconcile _) env ch v fits = v
  command-IsLedger oms OmsCmd.shutdown env ch v fits = v

  turn-IsLedger :
      (backing : StateBacking) (t : Task venue) (env : Env) (i : Input)
      → IsLedger base t.oms
      → FitsInput t.oms env i
      → IsLedger base (turn venue backing t (env, i)).oms
  unfolding turn finish_turn
  turn-IsLedger backing t env (Input.report r) v fits =
      handle_report-IsLedger t.oms r env.now t.events base v fits
  turn-IsLedger backing t env (Input.command OmsCmd.shutdown) v fits = v
  turn-IsLedger backing t env (Input.command (OmsCmd.submit i)) v fits =
      command-IsLedger t.oms (OmsCmd.submit i) env t.events v fits
  turn-IsLedger backing t env (Input.command (OmsCmd.cancel cid)) v fits =
      command-IsLedger t.oms (OmsCmd.cancel cid) env t.events v fits
  turn-IsLedger backing t env (Input.command OmsCmd.arm_kill_switch) v fits =
      command-IsLedger t.oms OmsCmd.arm_kill_switch env t.events v fits
  turn-IsLedger backing t env (Input.command OmsCmd.disarm_kill_switch) v fits =
      command-IsLedger t.oms OmsCmd.disarm_kill_switch env t.events v fits
  turn-IsLedger backing t env (Input.command (OmsCmd.reconcile p)) v fits =
      command-IsLedger t.oms (OmsCmd.reconcile p) env t.events v fits

  -- Each input fits the state in which the task takes it.
  abbrev pub FitsRun : StateBacking → Task venue → List (Env × Input) → Type 0
  FitsRun backing t [] = Unit
  FitsRun backing t (i ∷ is) = FitsInput t.oms i.0 i.1 × FitsRun backing (turn venue backing t i) is

  -- Over a whole run of the task, of commands and reports in any order and with any answers of the
  -- venue and the disk: on every market and side, what is held and what the tracked orders sold is
  -- what there was at the start and what they bought, if each fill fits its position and each
  -- allocated id is new.
  pub run_task-IsLedger :
      (backing : StateBacking) (t : Task venue) (is : List (Env × Input))
      → IsLedger base t.oms
      → FitsRun backing t is
      → IsLedger base (run_task venue backing t is).oms
  unfolding run_task
  run_task-IsLedger backing t [] v fits = v
  run_task-IsLedger backing t (i ∷ is) v fits =
      let rest =
        run_task-IsLedger backing (turn venue backing t i) is
          (turn-IsLedger backing t i.0 i.1 v fits.0) fits.1 in
      elim (Bool-cases t.running) [ inl on ↦ rw on rest | inr off ↦ rw off v ]
