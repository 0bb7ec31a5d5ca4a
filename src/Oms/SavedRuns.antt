-- ===== src/Oms/SavedRuns.antt =====
-- crates/oms/src/runtime.rs and persistence.rs: the file that a run leaves behind.
use predigy.Prelude.{
  Bool-cases, All, ℕ, ◌≡◌, refl, sym, ap, ◌∙◌, inl, inr, Bool, true, false, List, [], ◌∷◌, arith,
}
use predigy.Oms.{
  OrderRecord, Executor, ExecutionReport, OmsCmd, EventChannel, Oms, Env, handle_report, snapshot,
  StateFile, load_state, save_state, rehydrate, Reply, StateBacking, Input, handle_command, Task,
  persist_state, finish_turn, turn, run_task, spawn_state,
}
use predigy.Core.{position_key, OrderId}
use predigy.Prelude.Map.{text_key, Map}
use predigy.Risk.{AccountState}
use predigy.Prelude.Result.{ok}

module _ {X : Type 0} (venue : Executor X) where
  -- The file holds the snapshot of the current state.
  abbrev IsSaved : Task venue → Type 0
  IsSaved t = t.state_file ≡ StateFile.holds (snapshot t.oms.state t.oms.orders)

  finish_turn-IsSaved :
      (env : Env) (t : Task venue) (goes_on : Bool) (replies : List Reply) (oms : Oms X)
      (ch : EventChannel)
      → env.write_ok ≡ true
      → goes_on ≡ true
      → IsSaved (finish_turn venue StateBacking.persistent env t goes_on replies oms ch)
  unfolding finish_turn persist_state save_state
  finish_turn-IsSaved env t goes_on replies oms ch written on = ground arith

  -- The two shapes of a turn that does not stop the task.
  reported-IsSaved :
      (t : Task venue) (env : Env) (r : ExecutionReport)
      → env.write_ok ≡ true
      → (handle_report t.oms r env.now t.events).0 ≡ true
      → IsSaved (turn venue StateBacking.persistent t (env, Input.report r))
  unfolding turn
  reported-IsSaved t env r written on =
      let (goes_on, oms, ch) = handle_report t.oms r env.now t.events in
      finish_turn-IsSaved env t goes_on [] oms ch written on

  commanded-IsSaved :
      (t : Task venue) (env : Env) (cmd : OmsCmd)
      → env.write_ok ≡ true
      → (handle_command venue t.oms cmd env t.events).0 ≡ true
      → let (goes_on, reply, oms, ch) = handle_command venue t.oms cmd env t.events in
        IsSaved (finish_turn venue StateBacking.persistent env t goes_on (reply ∷ []) oms ch)
  commanded-IsSaved t env cmd written on =
      let (goes_on, reply, oms, ch) = handle_command venue t.oms cmd env t.events in
      finish_turn-IsSaved env t goes_on (reply ∷ []) oms ch written on

  turn-IsSaved :
      (t : Task venue) (env : Env) (i : Input)
      → env.write_ok ≡ true
      → (turn venue StateBacking.persistent t (env, i)).running ≡ true
      → IsSaved (turn venue StateBacking.persistent t (env, i))
  unfolding turn finish_turn
  turn-IsSaved t env (Input.report r) written on = reported-IsSaved t env r written on
  turn-IsSaved t env (Input.command OmsCmd.shutdown) written on = cc
  turn-IsSaved t env (Input.command (OmsCmd.submit i)) written on =
      commanded-IsSaved t env (OmsCmd.submit i) written on
  turn-IsSaved t env (Input.command (OmsCmd.cancel cid)) written on =
      commanded-IsSaved t env (OmsCmd.cancel cid) written on
  turn-IsSaved t env (Input.command OmsCmd.arm_kill_switch) written on =
      commanded-IsSaved t env OmsCmd.arm_kill_switch written on
  turn-IsSaved t env (Input.command OmsCmd.disarm_kill_switch) written on =
      commanded-IsSaved t env OmsCmd.disarm_kill_switch written on
  turn-IsSaved t env (Input.command (OmsCmd.reconcile p)) written on =
      commanded-IsSaved t env (OmsCmd.reconcile p) written on

  run_task_stopped :
      (t : Task venue) (is : List (Env × Input))
      → t.running ≡ false
      → run_task venue StateBacking.persistent t is ≡ t
  unfolding run_task
  run_task_stopped t [] off = refl
  run_task_stopped t (i ∷ is) off = rw off refl

  run_task_nil : (t : Task venue) → run_task venue StateBacking.persistent t [] ≡ t
  unfolding run_task
  run_task_nil t = refl

  run_task_running :
      (t : Task venue) (i : Env × Input) (is : List (Env × Input))
      → t.running ≡ true
      → run_task venue StateBacking.persistent t (i ∷ is)
        ≡ run_task venue StateBacking.persistent (turn venue StateBacking.persistent t i) is
  unfolding run_task
  run_task_running t i is on = ground arith

  -- A run of at least one turn, given the rest of it.
  stepped-IsSaved :
      (t : Task venue) (i : Env × Input) (is : List (Env × Input))
      → t.running ≡ true
      → i.0.write_ok ≡ true
      → (run_task venue StateBacking.persistent t (i ∷ is)).running ≡ true
      → let t' = turn venue StateBacking.persistent t i in
        let end = run_task venue StateBacking.persistent t' is in
        (end.running ≡ true → IsSaved t' → IsSaved end)
        → IsSaved (run_task venue StateBacking.persistent t (i ∷ is))
  stepped-IsSaved t i is here written on rest =
      let t' = turn venue StateBacking.persistent t i in
      let same = run_task_running t i is here in
      let on' : (run_task venue StateBacking.persistent t' is).running ≡ true =
        ap (λ (u : Task venue). u.running) (sym same) ∙ on in
      elim (Bool-cases t'.running) [
        | inl there ↦ rw same (rest on' (turn-IsSaved t i.0 i.1 written there))
        | inr stopped ↦
            let end = ap (λ (u : Task venue). u.running) (run_task_stopped t' is stopped) in cc
      ]

  run_task-IsSaved :
      (t : Task venue) (is : List (Env × Input))
      → All (λ i. i.0.write_ok ≡ true) is
      → (run_task venue StateBacking.persistent t is).running ≡ true
      → IsSaved t
      → IsSaved (run_task venue StateBacking.persistent t is)
  run_task-IsSaved t [] written on v = rw (run_task_nil t) v
  run_task-IsSaved t (i ∷ is) written on v = elim (Bool-cases t.running) [
    | inl here ↦
        stepped-IsSaved t i is here written.0 on
          (run_task-IsSaved (turn venue StateBacking.persistent t i) is written.1)
    | inr off ↦ rw (run_task_stopped t (i ∷ is) off) v
  ]

  spawn_state_saved :
      (file : StateFile) (s : AccountState) (orders : Map OrderId OrderRecord) (now : ℕ)
      → file ≡ StateFile.holds (snapshot s orders)
      → spawn_state StateBacking.persistent file now ≡ ok (rehydrate (snapshot s orders) now)
  unfolding spawn_state load_state snapshot
  spawn_state_saved file s orders now saved = rw saved refl

  -- A restart after a run: if the task still runs after at least one turn and every write worked,
  -- the next process starts from exactly the account and the orders that the run ended with, in
  -- their persisted form.
  pub run_task_saved :
      (t : Task venue) (i : Env × Input) (is : List (Env × Input)) (now : ℕ)
      → t.running ≡ true
      → All (λ i. i.0.write_ok ≡ true) (i ∷ is)
      → (run_task venue StateBacking.persistent t (i ∷ is)).running ≡ true
      → let t' = run_task venue StateBacking.persistent t (i ∷ is) in
        spawn_state StateBacking.persistent t'.state_file now
        ≡ ok (rehydrate (snapshot t'.oms.state t'.oms.orders) now)
  run_task_saved t i is now here written on =
      let t' = run_task venue StateBacking.persistent t (i ∷ is) in
      spawn_state_saved t'.state_file t'.oms.state t'.oms.orders now (
        stepped-IsSaved t i is here written.0 on
          (run_task-IsSaved (turn venue StateBacking.persistent t i) is written.1))
