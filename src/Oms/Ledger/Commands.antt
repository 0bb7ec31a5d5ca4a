-- ===== src/Oms/Ledger/Commands.antt =====
-- crates/oms/src/runtime.rs: the balance of positions and orders under each command.
use predigy.Prelude.{
  Bool-cases, Option-cases, ℕ, ◌≡◌, refl, inl, inr, Bool, true, false, none, some, List, [], ◌∷◌,
  arith,
}
use predigy.Core.{Action, PositionKey, position_key, OrderId, Order, Intent}
use predigy.Risk.{AccountState, position, arm_kill_switch}
use predigy.Oms.{
  OrderRecord, new_record, is_terminal, next_cid, ExecutorError, Executor, OmsError, EventChannel,
  Oms, Env, order_of, live_orders, flag_cancel, cancel_result, handle_cancel, cancel_live,
  handle_arm,
}
use predigy.Oms.RecordLaws.{new_record-IsUnfilledPending}
use predigy.Oms.Totals.{total_of-insert_new}
use predigy.Oms.Ledger.{filled_for, held, IsLedger, All-lookup, insert-unfilled}
use predigy.Oms.Ledger.Reports.{replace-IsLedger}
use predigy.Oms.SubmitLaws.{sent_order, SubmitPost}
use predigy.Prelude.Map.{text_key, lookup, insert, insert-IsUnique}
use predigy.Prelude.Result.{Result, ok, err}
use predigy.Oms.KillLaws.{
  handle_cancel_unknown, handle_cancel_done, handle_cancel_live, flag_cancel_unknown,
  flag_cancel_known, cancel_result_flag, cancel_live_nil, cancel_live_cons,
}

held_same :
    (s s' : AccountState) (k : PositionKey) → s'.positions ≡ s.positions → held s' k ≡ held s k
unfolding position
held_same s s' k e = rw e refl

filled_for-new_record :
    (a : Action) (k : PositionKey) (o : Order) (now : ℕ) → filled_for a k (new_record o now) ≡ 0
unfolding new_record
filled_for-new_record a k o now = ground arith

module _ {X : Type 0} (base : PositionKey → ℕ) (oms : Oms X) (v : IsLedger base oms) where
  pub same-IsLedger :
      (oms' : Oms X)
      → oms'.orders ≡ oms.orders
      → oms'.state.positions ≡ oms.state.positions
      → IsLedger base oms'
  same-IsLedger oms' same kept = record {
    unique = rw same v.unique;
    unfilled = rw same v.unfilled;
    balanced = λ k. rw (same, held_same oms.state oms'.state k kept) (v.balanced k);
  }

  book-IsLedger :
      (oms' : Oms X) (cid : OrderId) (o : Order) (now : ℕ)
      → lookup cid oms.orders ≡ none
      → oms'.orders ≡ insert cid (new_record o now) oms.orders
      → oms'.state.positions ≡ oms.state.positions
      → IsLedger base oms'
  book-IsLedger oms' cid o now fresh booked kept =
      let r = new_record o now in
      record {
        unique = rw booked (insert-IsUnique cid r oms.orders v.unique);
        unfilled =
            rw booked
              (insert-unfilled cid r oms.orders (new_record-IsUnfilledPending o now) v.unfilled);
        balanced = λ k.
            rw (booked, held_same oms.state oms'.state k kept)
              (ground (
                arith,
                v.balanced k,
                total_of-insert_new (filled_for Action.buy k) cid r oms.orders fresh,
                total_of-insert_new (filled_for Action.sell k) cid r oms.orders fresh,
                filled_for-new_record Action.buy k o now,
                filled_for-new_record Action.sell k o now,
              ));
      }

-- The id that the next submit would allocate is not in use.
abbrev pub IsFresh : {X : Type 0} → Oms X → Intent → Env → Type 0
IsFresh oms i env =
    lookup (next_cid oms.cid_alloc i.market oms.files env.write_ok).0 oms.orders ≡ none

module _ {X : Type 0} (venue : Executor X) (base : PositionKey → ℕ) where
  pub submit-IsLedger :
      (oms : Oms X) (i : Intent) (env : Env) (ch : EventChannel)
      → IsLedger base oms
      → IsFresh oms i env
      → (res : Result OrderId OmsError × Oms X × EventChannel) → SubmitPost venue oms i env ch res
      → IsLedger base res.1
  unfolding order_of
  submit-IsLedger oms i env ch v fresh (err _, oms', ch') post =
      same-IsLedger base oms v oms' post.0 post.1.0
  submit-IsLedger oms i env ch v fresh (ok cid, oms', ch') post =
      book-IsLedger base oms v oms' cid (sent_order venue oms i env ch) env.now (rw post.0 fresh)
        post.1 post.2.0

  flag-IsLedger :
      (oms : Oms X) (cid : OrderId) (r : OrderRecord) (b : Bool)
      → lookup cid oms.orders ≡ some r
      → IsLedger base oms
      → IsLedger base
          (record oms { orders = insert cid (record r { cancel_in_flight = b }) oms.orders })
  flag-IsLedger oms cid r b found v =
      replace-IsLedger base oms cid r (record r { cancel_in_flight = b }) found v refl refl
        (All-lookup cid r oms.orders v.unfilled found)

  flag_cancel-IsLedger :
      (oms : Oms X) (cid : OrderId) (b : Bool)
      → IsLedger base oms
      → IsLedger base (record oms { orders = flag_cancel cid b oms.orders })
  flag_cancel-IsLedger oms cid b v = elim (Option-cases (lookup cid oms.orders)) [
    | inl unknown ↦ rw (flag_cancel_unknown cid b oms.orders unknown) v
    | inr (r, known) ↦
        rw (flag_cancel_known cid b oms.orders r known) (flag-IsLedger oms cid r b known v)
  ]

  cancel_result-IsLedger :
      (oms : Oms X) (cid : OrderId) (r : OrderRecord) (answer : Result (Unit {0}) ExecutorError)
      → lookup cid oms.orders ≡ some r
      → IsLedger base oms
      → IsLedger base (cancel_result venue oms cid r answer).1
  cancel_result-IsLedger oms cid r answer found v =
      let (b, set) = cancel_result_flag venue oms cid r answer in
      rw set (flag-IsLedger oms cid r b found v)

  pub handle_cancel-IsLedger :
      (oms : Oms X) (cid : OrderId)
      → IsLedger base oms
      → IsLedger base (handle_cancel venue oms cid).1
  handle_cancel-IsLedger oms cid v = elim (Option-cases (lookup cid oms.orders)) [
    | inl unknown ↦ rw (handle_cancel_unknown venue oms cid unknown) v
    | inr (r, known) ↦ elim (Bool-cases (is_terminal r)) [
      | inl done ↦ rw (handle_cancel_done venue oms cid r known done) v
      | inr live ↦ rw (handle_cancel_live venue oms cid r known live) (
          cancel_result-IsLedger (record oms { executor = (venue.cancel cid oms.executor).1 }) cid r
            (venue.cancel cid oms.executor).0 known
            (same-IsLedger base oms v (record oms { executor = (venue.cancel cid oms.executor).1 })
              refl refl))
    ]
  ]

  cancel_live-IsLedger :
      (l : List OrderId) (oms : Oms X) → IsLedger base oms → IsLedger base (cancel_live venue l oms)
  cancel_live-IsLedger [] oms v = rw (cancel_live_nil venue oms) v
  cancel_live-IsLedger (cid ∷ l) oms v =
      let (m, step, flags) = cancel_live_cons venue cid l oms in
      let called = record oms { executor = (venue.cancel cid oms.executor).1 } in
      let w = same-IsLedger base oms v called refl refl in
      let w' = flag_cancel-IsLedger called cid true w in
      rw step (
        cancel_live-IsLedger l (record called { orders = m })
          (elim flags [
            | inl sent ↦ rw sent w'
            | inr failed ↦ rw failed (
                flag_cancel-IsLedger (record called { orders = flag_cancel cid true oms.orders })
                  cid false w')
          ]))

  pub handle_arm-IsLedger :
      (oms : Oms X) (ch : EventChannel)
      → IsLedger base oms
      → IsLedger base (handle_arm venue oms ch).1
  unfolding handle_arm arm_kill_switch
  handle_arm-IsLedger oms ch v =
      let armed = record oms { state = record oms.state { kill_switch = true } } in
      cancel_live-IsLedger (live_orders oms.orders) armed (same-IsLedger base oms v armed refl refl)
