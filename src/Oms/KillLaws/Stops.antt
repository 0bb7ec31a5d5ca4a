-- ===== src/Oms/KillLaws/Stops.antt =====
-- crates/oms/src/runtime.rs: runs of the task under an armed kill switch.
use predigy.Prelude.{Bool-cases, All, ◌≡◌, refl, ◌∙◌, inl, inr, true, List, [], ◌∷◌, arith}
use predigy.Oms.{
  PositionUpdate, CidAllocator, Executor, OmsCmd, Oms, Env, book_update, StateBacking, Input,
  handle_command, Task, finish_turn, turn, run_task,
}
use predigy.Risk.{AccountState, set_position, add_realized_pnl, arm_kill_switch}
use predigy.Core.{position_key, OrderId, Order}
use predigy.Prelude.Map.{text_key}
use predigy.Oms.SubmitLaws.{handle_submit_on}
use predigy.Oms.Kept.{IsKept, handle_cancel-IsKept, handle_arm-IsKept, handle_report-IsKept}

book_update-kill_switch :
    (s : AccountState) (o : Order) (u : PositionUpdate)
    → (book_update s o u).kill_switch ≡ s.kill_switch
unfolding set_position add_realized_pnl
book_update-kill_switch s o u = ground arith

-- The switch is armed, whatever the allocator.
abbrev pub IsArmed : AccountState → CidAllocator → Type 0
IsArmed s a = s.kill_switch ≡ true

pub booked-IsArmed :
    (s : AccountState) (a : CidAllocator) (o : Order) (u : PositionUpdate)
    → IsArmed s a
    → IsArmed (book_update s o u) a
booked-IsArmed s a o u h = book_update-kill_switch s o u ∙ h

pub arm_kill_switch-IsArmed :
    (s : AccountState) (a : CidAllocator) → IsArmed s a → IsArmed (arm_kill_switch s) a
unfolding arm_kill_switch
arm_kill_switch-IsArmed s a h = refl

module _ {X : Type 0} (venue : Executor X) (P : X → Type 0)
    (keeps : (cid : OrderId) (x : X) → P x → P (venue.cancel cid x).1) (new : OrderId) where
  -- The switch is armed, the venue's state has the property, and no order has the id.
  abbrev pub IsStopped : Oms X → Type 0
  IsStopped = IsKept venue P keeps IsArmed booked-IsArmed arm_kill_switch-IsArmed new

  -- Everything but the command that disarms the switch.
  abbrev pub KeepsArmed : Input → Type 0
  KeepsArmed (Input.command OmsCmd.disarm_kill_switch) = ⊥
  KeepsArmed _ = Unit

  turn-IsStopped :
      (backing : StateBacking) (t : Task venue) (env : Env) (i : Input)
      → KeepsArmed i
      → IsStopped t.oms
      → IsStopped (turn venue backing t (env, i)).oms
  unfolding turn finish_turn handle_command
  turn-IsStopped backing t env (Input.report r) a v =
      handle_report-IsKept venue P keeps IsArmed booked-IsArmed arm_kill_switch-IsArmed new t.oms r
        env.now t.events v
  turn-IsStopped backing t env (Input.command OmsCmd.shutdown) a v = v
  turn-IsStopped backing t env (Input.command (OmsCmd.submit i)) a v =
      rw (handle_submit_on venue t.oms i env t.events v.account) v
  turn-IsStopped backing t env (Input.command (OmsCmd.cancel cid)) a v =
      handle_cancel-IsKept venue P keeps IsArmed booked-IsArmed arm_kill_switch-IsArmed new t.oms
        cid v
  turn-IsStopped backing t env (Input.command OmsCmd.arm_kill_switch) a v =
      handle_arm-IsKept venue P keeps IsArmed booked-IsArmed arm_kill_switch-IsArmed new t.oms
        t.events v
  turn-IsStopped backing t env (Input.command OmsCmd.disarm_kill_switch) a v = elim a [ ]
  turn-IsStopped backing t env (Input.command (OmsCmd.reconcile p)) a v = v

  -- Once the kill switch is armed, a whole run without the command that disarms it leaves it armed,
  -- books no order that was not there, and calls the venue for cancels only: what every cancel keeps
  -- of the venue's state holds at the end.
  pub run_task-IsStopped :
      (backing : StateBacking) (t : Task venue) (is : List (Env × Input))
      → All (λ i. KeepsArmed i.1) is
      → IsStopped t.oms
      → IsStopped (run_task venue backing t is).oms
  unfolding run_task
  run_task-IsStopped backing t [] a v = v
  run_task-IsStopped backing t (i ∷ is) a v =
      let rest =
        run_task-IsStopped backing (turn venue backing t i) is a.1
          (turn-IsStopped backing t i.0 i.1 a.0 v) in
      elim (Bool-cases t.running) [ inl on ↦ rw on rest | inr off ↦ rw off v ]
