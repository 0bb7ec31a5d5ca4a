-- ===== src/Oms/SubmitLaws.antt =====
-- crates/oms/src/runtime.rs: what a submit books, and what a refused one leaves alone.
use predigy.Prelude.{Bool-cases, ℕ, ◌≡◌, refl, inl, inr, true, false, arith}
use predigy.Core.{position_key, OrderId, Order, Intent}
use predigy.Risk.{AccountState, record_order_sent, Decision, RiskEngine, check}
use predigy.Risk.Decisions.{check_state}
use predigy.Oms.{
  new_record, Files, CidAllocator, next_cid, ExecutorError, Executor, OmsError, EventChannel, Oms,
  Env, order_of, book_order, dispatch_order, decide_submit, handle_submit,
}
use predigy.Prelude.Map.{text_key, insert}
use predigy.Prelude.Result.{Result, ok, err}

-- The parts of the account that only fills and the kill switch change.
abbrev pub SameBooks : AccountState → AccountState → Type 0
SameBooks s s' =
    (s'.positions ≡ s.positions)
    × (s'.avg_entry ≡ s.avg_entry)
    × (s'.daily_realized_pnl_cents ≡ s.daily_realized_pnl_cents)
    × (s'.kill_switch ≡ s.kill_switch)

check-SameBooks :
    (e : RiskEngine) (i : Intent) (s : AccountState) (now : ℕ) → SameBooks s (check e i s now).1
check-SameBooks e i s now =
    let (l, same, counts) = check_state e i s now in rw same (refl, refl, refl, refl)

module _ {X : Type 0} (venue : Executor X) (oms : Oms X) (i : Intent) (env : Env)
    (ch : EventChannel) where
  pub handle_submit_on :
      oms.state.kill_switch ≡ true
      → handle_submit venue oms i env ch ≡ (err OmsError.kill_switch, oms, ch)
  unfolding handle_submit
  handle_submit_on on = ground arith

  pub handle_submit_off :
      oms.state.kill_switch ≡ false
      → handle_submit venue oms i env ch
        ≡ decide_submit venue
            (record oms { state = (check oms.risk i oms.state env.now).1 })
            i
            env
            ch
            (check oms.risk i oms.state env.now).0
  unfolding handle_submit
  handle_submit_off off = ground arith

  -- A refused submit, whatever refused it: nothing is booked, nothing is told to the subscribers,
  -- and of the account only the window of recent orders may be pruned.
  abbrev pub BooksNothing : Oms X → EventChannel → Type 0
  BooksNothing oms' ch' = (oms'.orders ≡ oms.orders) × SameBooks oms.state oms'.state × (ch' ≡ ch)

  -- The order that an approved submit sends, and the venue's answer.
  abbrev pub sent_order : Order
  sent_order = order_of (next_cid oms.cid_alloc i.market oms.files env.write_ok).0 i

  abbrev pub IsBooked : OrderId → Oms X → Type 0
  IsBooked cid oms' =
      (cid ≡ sent_order.client_id)
      × (oms'.orders ≡ insert cid (new_record sent_order env.now) oms.orders)
      × SameBooks oms.state oms'.state
      × (oms'.executor ≡ (venue.submit sent_order oms.executor).1)
      × (oms.state.kill_switch ≡ false)
      × ((check oms.risk i oms.state env.now).0 ≡ Decision.approve)

  -- By the reply.
  abbrev pub SubmitPost : Result OrderId OmsError × Oms X × EventChannel → Type 0
  SubmitPost (err _, oms', ch') = BooksNothing oms' ch'
  SubmitPost (ok cid, oms', ch') = IsBooked cid oms'

  -- After an approval, on the state that the check left.
  module _ (s : AccountState) (same : SameBooks oms.state s) (off : oms.state.kill_switch ≡ false)
      (approved : (check oms.risk i oms.state env.now).0 ≡ Decision.approve) where
    book_order_lem :
        (alloc : CidAllocator) (files : Files) (answer : Result (Unit {0}) ExecutorError)
        → SubmitPost (
            book_order venue
              (record oms {
                state = s;
                cid_alloc = alloc;
                files = files;
                executor = (venue.submit sent_order oms.executor).1;
              })
              sent_order
              env.now
              ch
              answer)
    unfolding book_order record_order_sent
    book_order_lem alloc files (err e) = (refl, same, refl)
    book_order_lem alloc files (ok _) = (refl, refl, same, refl, off, approved)

  decide_submit_lem :
      (d : Decision) (s : AccountState)
      → SameBooks oms.state s
      → oms.state.kill_switch ≡ false
      → (check oms.risk i oms.state env.now).0 ≡ d
      → SubmitPost (decide_submit venue (record oms { state = s }) i env ch d)
  unfolding decide_submit dispatch_order
  decide_submit_lem (Decision.reject _) s same off decided = (refl, same, refl)
  decide_submit_lem Decision.approve s same off decided =
      book_order_lem s same off decided _ _ (venue.submit sent_order oms.executor).0

  -- Every submit: an error books nothing and emits nothing, whether the kill switch, the risk check
  -- or the venue refused. A success means that the kill switch was off, that the risk check
  -- approved, and that the venue was sent exactly the order that is booked, pending and unfilled,
  -- under the id of the reply.
  pub handle_submit_lem : SubmitPost (handle_submit venue oms i env ch)
  handle_submit_lem = elim (Bool-cases oms.state.kill_switch) [
    | inl on ↦ rw (handle_submit_on on) (refl, (refl, refl, refl, refl), refl)
    | inr off ↦ rw (handle_submit_off off) (
        decide_submit_lem (check oms.risk i oms.state env.now).0
          (check oms.risk i oms.state env.now).1 (check-SameBooks oms.risk i oms.state env.now) off
          refl)
  ]
