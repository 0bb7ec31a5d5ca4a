-- ===== src/Oms/Ledger/FreshRuns.antt =====
-- crates/oms/src/runtime.rs and cid.rs: whole runs, with the ids that the allocator gives out.
use predigy.Prelude.{length, ℕ, ◌+◌, ◌≤◌, ◌≡◌, refl, subst, inl, inr, List, [], ◌∷◌, arith}
use predigy.Oms.{
  new_record, CidAllocator, format_cid, Executor, OmsError, OmsCmd, EventChannel, Oms, Env,
  order_of, handle_submit, handle_cancel, handle_arm, handle_report, StateBacking, Input,
  handle_command, Task, finish_turn, turn, run_task,
}
use predigy.Core.{MarketTicker, PositionKey, position_key, OrderId, Intent}
use predigy.Risk.{AccountState, disarm_kill_switch}
use predigy.Oms.Kept.{IsKept, handle_cancel-IsKept, handle_arm-IsKept, handle_report-IsKept}
use predigy.Oms.Ledger.Fresh.{
  IsIssuing, next_cid_parts, issuing-IsFresh, passed-IsIssuing, booked-IsIssuing, AllocPost,
  handle_submit-alloc,
}
use predigy.Prelude.Map.{text_key, insert}
use predigy.Oms.SubmitLaws.{sent_order, SubmitPost, handle_submit_lem}
use predigy.Prelude.Text.{Text}
use predigy.Prelude.Word.{u64_max}
use predigy.Prelude.Result.{Result, ok, err}
use predigy.Oms.Ledger.{IsLedger}
use predigy.Oms.Ledger.Reports.{FitsReport}
use predigy.Oms.Ledger.Runs.{FitsInput, FitsRun, run_task-IsLedger}

-- The allocator of the start, whatever the account.
abbrev HasAlloc : CidAllocator → AccountState → CidAllocator → Type 0
HasAlloc a s b = b ≡ a

module _ {X : Type 0} (venue : Executor X) where
  abbrev Carried : CidAllocator → OrderId → Oms X → Type 0
  Carried a = IsKept venue (λ _. Unit {0}) (λ cid x h. h) (HasAlloc a) (λ s b o u h. h) (λ s b h. h)

  -- The invariant, with one number given out at most.
  abbrev StepsTo : Oms X → Oms X → Type 0
  StepsTo oms oms' = IsIssuing oms' × (oms'.cid_alloc.next_seq ≤ oms.cid_alloc.next_seq + 1)

  stays : (oms : Oms X) → IsIssuing oms → StepsTo oms oms
  stays oms v = (v, omega arith)

  module _ (oms oms' : Oms X) (v : IsIssuing oms) (fits : oms.cid_alloc.next_seq + 1 ≤ u64_max)
      (step : (cid : OrderId)
        → Carried oms.cid_alloc cid oms
        → Carried oms.cid_alloc cid oms') where
    carried :
        (s : Text) (m : MarketTicker) (n : ℕ)
        → oms.cid_alloc.next_seq ≤ n
        → n ≤ u64_max
        → Carried oms.cid_alloc (format_cid s m n) oms'
    carried s m n low high =
        step (format_cid s m n)
          (record { account = refl; calls = tt; unbooked = v.untracked s m n low high })

    -- A step that books no id and keeps the allocator.
    carried-StepsTo : StepsTo oms oms'
    carried-StepsTo =
        let same = (carried [] [] oms.cid_alloc.next_seq (omega arith) (omega arith)).account in
        (
          record { untracked = λ s m n low high. (carried s m n (rw (← same) low) high).unbooked },
          rw same (omega arith),
        )

  submit-StepsTo :
      (oms : Oms X) (i : Intent) (env : Env) (ch : EventChannel)
      (res : Result OrderId OmsError × Oms X × EventChannel)
      → IsIssuing oms
      → oms.cid_alloc.next_seq + 1 ≤ u64_max
      → SubmitPost venue oms i env ch res
      → AllocPost oms i env res
      → StepsTo oms res.1
  unfolding order_of
  submit-StepsTo oms i env ch (err _, oms', ch') v fits post (inl same) =
      (passed-IsIssuing oms i env v fits oms' post.0 (rw same (omega arith)), rw same (omega arith))
  submit-StepsTo oms i env ch (err _, oms', ch') v fits post (inr next) =
      let parts = next_cid_parts oms.cid_alloc i.market oms.files env.write_ok in
      let moved : oms'.cid_alloc.next_seq ≡ oms.cid_alloc.next_seq + 1 =
        rw next (omega (arith, parts.1)) in
      (passed-IsIssuing oms i env v fits oms' post.0 (omega (arith, moved)), omega (arith, moved))
  submit-StepsTo oms i env ch (ok cid, oms', ch') v fits post next =
      let parts = next_cid_parts oms.cid_alloc i.market oms.files env.write_ok in
      let r = new_record (sent_order venue oms i env ch) env.now in
      let moved : oms'.cid_alloc.next_seq ≡ oms.cid_alloc.next_seq + 1 =
        rw next (omega (arith, parts.1)) in
      (
        booked-IsIssuing oms i env v fits oms' r
            (subst (λ c. oms'.orders ≡ insert c r oms.orders) post.0 post.1) moved,
        omega (arith, moved),
      )

  turn-StepsTo :
      (backing : StateBacking) (t : Task venue) (env : Env) (i : Input)
      → IsIssuing t.oms
      → t.oms.cid_alloc.next_seq + 1 ≤ u64_max
      → StepsTo t.oms (turn venue backing t (env, i)).oms
  unfolding turn finish_turn handle_command disarm_kill_switch
  turn-StepsTo backing t env (Input.report r) v fits =
      carried-StepsTo t.oms (handle_report t.oms r env.now t.events).1 v fits
        (λ cid w. handle_report-IsKept venue _ _ _ _ _ cid t.oms r env.now t.events w)
  turn-StepsTo backing t env (Input.command OmsCmd.shutdown) v fits = stays t.oms v
  turn-StepsTo backing t env (Input.command (OmsCmd.submit i)) v fits =
      submit-StepsTo t.oms i env t.events (handle_submit venue t.oms i env t.events) v fits
        (handle_submit_lem venue t.oms i env t.events)
        (handle_submit-alloc venue t.oms i env t.events)
  turn-StepsTo backing t env (Input.command (OmsCmd.cancel cid)) v fits =
      carried-StepsTo t.oms (handle_cancel venue t.oms cid).1 v fits
        (λ new w. handle_cancel-IsKept venue _ _ _ _ _ new t.oms cid w)
  turn-StepsTo backing t env (Input.command OmsCmd.arm_kill_switch) v fits =
      carried-StepsTo t.oms (handle_arm venue t.oms t.events).1 v fits
        (λ new w. handle_arm-IsKept venue _ _ _ _ _ new t.oms t.events w)
  turn-StepsTo backing t env (Input.command OmsCmd.disarm_kill_switch) v fits =
      (record { untracked = v.untracked }, omega arith)
  turn-StepsTo backing t env (Input.command (OmsCmd.reconcile p)) v fits = stays t.oms v

  -- What a report may bring; commands may be anything.
  abbrev pub FitsIfReport : Oms X → Input → Type 0
  FitsIfReport oms (Input.report r) = FitsReport oms r
  FitsIfReport oms (Input.command _) = Unit

  abbrev pub FitsReports : StateBacking → Task venue → List (Env × Input) → Type 0
  FitsReports backing t [] = Unit
  FitsReports backing t (i ∷ is) =
      FitsIfReport t.oms i.1 × FitsReports backing (turn venue backing t i) is

  module _ (base : PositionKey → ℕ) where
    input_fits :
        (oms : Oms X) (env : Env) (i : Input)
        → IsIssuing oms
        → oms.cid_alloc.next_seq + 1 ≤ u64_max
        → FitsIfReport oms i
        → FitsInput venue base oms env i
    input_fits oms env (Input.report r) v room fits = fits
    input_fits oms env (Input.command (OmsCmd.submit i)) v room fits =
        issuing-IsFresh oms i env v room
    input_fits oms env (Input.command (OmsCmd.cancel _)) v room fits = tt
    input_fits oms env (Input.command OmsCmd.arm_kill_switch) v room fits = tt
    input_fits oms env (Input.command OmsCmd.disarm_kill_switch) v room fits = tt
    input_fits oms env (Input.command (OmsCmd.reconcile _)) v room fits = tt
    input_fits oms env (Input.command OmsCmd.shutdown) v room fits = tt

    run_fits :
        (backing : StateBacking) (t : Task venue) (is : List (Env × Input))
        → IsIssuing t.oms
        → t.oms.cid_alloc.next_seq + length is ≤ u64_max
        → FitsReports backing t is
        → FitsRun venue base backing t is
    run_fits backing t [] v room fits = tt
    run_fits backing t (i ∷ is) v room fits =
        let (w, later) = turn-StepsTo backing t i.0 i.1 v (omega arith) in
        (
          input_fits t.oms i.0 i.1 v (omega arith) fits.0,
          run_fits backing (turn venue backing t i) is w (omega (arith, later)) fits.1,
        )

    -- Over a whole run of the task, of commands and reports in any order and with any answers of the
    -- venue and the disk: on every market and side, what is held and what the tracked orders sold is
    -- what there was at the start and what they bought. This is under the conditions that no order
    -- is tracked at first under a number that the allocator has yet to give out, that the numbers
    -- last for the run, and that each fill that is reported fits its position: a buy in 32 bits, a
    -- sale in what is held.
    pub run_task-IsLedger_issued :
        (backing : StateBacking) (t : Task venue) (is : List (Env × Input))
        → IsLedger base t.oms
        → IsIssuing t.oms
        → t.oms.cid_alloc.next_seq + length is ≤ u64_max
        → FitsReports backing t is
        → IsLedger base (run_task venue backing t is).oms
    run_task-IsLedger_issued backing t is v w room fits =
        run_task-IsLedger venue base backing t is v (run_fits backing t is w room fits)
