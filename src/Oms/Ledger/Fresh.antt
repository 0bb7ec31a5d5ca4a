-- ===== src/Oms/Ledger/Fresh.antt =====
-- crates/oms/src/runtime.rs and cid.rs: the ids of the tracked orders over a run.
use predigy.Prelude.{Bool-cases, ℕ, ◌+◌, ◌≤◌, ◌≡◌, refl, sym, ◌∙◌, ◌⊎◌, inl, inr, Bool, none, arith}
use predigy.Oms.{
  OrderRecord, Files, CidAllocator, refill, format_cid, next_cid, ExecutorError, Executor, OmsError,
  EventChannel, Oms, Env, book_order, dispatch_order, decide_submit, handle_submit,
}
use predigy.Core.{MarketTicker, position_key, OrderId, Order, Intent}
use predigy.Prelude.Map.{text_key, lookup, insert, lookup-insert}
use predigy.Prelude.Word.{u64_max, add64}
use predigy.Prelude.Text.{Text, text_eq, text_eq_iff}
use predigy.Risk.{AccountState, Decision, check}
use predigy.Oms.SubmitLaws.{handle_submit_on, handle_submit_off}
use predigy.Oms.CidLaws.{format_cid-injective}
use predigy.Oms.Ledger.Commands.{IsFresh}
use predigy.Prelude.Result.{Result, ok, err}

-- No tracked order has an id with a sequence number that the allocator has yet to give out.
pub record IsIssuing {X : Type 0} (oms : Oms X) : Type 0 where
  pub untracked :
      (s : Text) (m : MarketTicker) (i : ℕ)
      → oms.cid_alloc.next_seq ≤ i
      → i ≤ u64_max
      → lookup (format_cid s m i) oms.orders ≡ none

pub next_cid_parts :
    (a : CidAllocator) (m : MarketTicker) (files : Files) (write_ok : Bool)
    → ((next_cid a m files write_ok).0 ≡ format_cid a.strategy_id m a.next_seq)
      × ((next_cid a m files write_ok).1.next_seq ≡ add64 a.next_seq 1)
      × ((next_cid a m files write_ok).1.strategy_id ≡ a.strategy_id)
unfolding next_cid refill
next_cid_parts a m files write_ok = ground arith

module _ {X : Type 0} (oms : Oms X) (i : Intent) (env : Env) (v : IsIssuing oms)
    (fits : oms.cid_alloc.next_seq + 1 ≤ u64_max) where
  pub issuing-IsFresh : IsFresh oms i env
  issuing-IsFresh =
      let parts = next_cid_parts oms.cid_alloc i.market oms.files env.write_ok in
      rw parts.0 (
        v.untracked oms.cid_alloc.strategy_id i.market oms.cid_alloc.next_seq (omega arith)
          (omega arith))

  -- After a refusal: the allocator may have moved on.
  pub passed-IsIssuing :
      (oms' : Oms X)
      → oms'.orders ≡ oms.orders
      → oms.cid_alloc.next_seq ≤ oms'.cid_alloc.next_seq
      → IsIssuing oms'
  passed-IsIssuing oms' same later = record {
    untracked = λ s m n low high. rw same (v.untracked s m n (omega (arith, low)) high);
  }

  -- After a success: the id is booked and its number is behind the allocator.
  pub booked-IsIssuing :
      (oms' : Oms X) (r : OrderRecord)
      → oms'.orders ≡ insert (next_cid oms.cid_alloc i.market oms.files env.write_ok).0 r oms.orders
      → oms'.cid_alloc.next_seq ≡ oms.cid_alloc.next_seq + 1
      → IsIssuing oms'
  booked-IsIssuing oms' r same later =
      let id = (next_cid oms.cid_alloc i.market oms.files env.write_ok).0 in
      let parts = next_cid_parts oms.cid_alloc i.market oms.files env.write_ok in
      record {
        untracked = λ s m n low high.
            rw (same, lookup-insert id (format_cid s m n) r oms.orders)
              (elim (Bool-cases (text_eq id (format_cid s m n))) [
                | inl clash ↦
                    let number =
                      format_cid-injective oms.cid_alloc.strategy_id s i.market m
                        oms.cid_alloc.next_seq n (omega arith) high
                        (sym parts.0 ∙ (text_eq_iff id (format_cid s m n)).0 clash) in
                    absurd (omega (arith, number, low, later))
                | inr other ↦ rw other (v.untracked s m n (omega (arith, low, later)) high)
              ]);
      }

-- The allocator after a submit, by the reply.
abbrev pub AllocPost :
    {X : Type 0} → Oms X → Intent → Env → Result OrderId OmsError × Oms X × EventChannel → Type 0
AllocPost oms i env (err _, oms', ch') =
    (oms'.cid_alloc ≡ oms.cid_alloc)
    ⊎ (oms'.cid_alloc ≡ (next_cid oms.cid_alloc i.market oms.files env.write_ok).1)
AllocPost oms i env (ok _, oms', ch') =
    oms'.cid_alloc ≡ (next_cid oms.cid_alloc i.market oms.files env.write_ok).1

module _ {X : Type 0} (venue : Executor X) (oms : Oms X) (i : Intent) (env : Env)
    (ch : EventChannel) where
  book_order-alloc :
      (oms' : Oms X) (o : Order) (answer : Result (Unit {0}) ExecutorError)
      → oms'.cid_alloc ≡ (next_cid oms.cid_alloc i.market oms.files env.write_ok).1
      → AllocPost oms i env (book_order venue oms' o env.now ch answer)
  unfolding book_order
  book_order-alloc oms' o (err e) h = inr h
  book_order-alloc oms' o (ok _) h = h

  decide_submit-alloc :
      (s : AccountState) (d : Decision)
      → AllocPost oms i env (decide_submit venue (record oms { state = s }) i env ch d)
  unfolding decide_submit dispatch_order
  decide_submit-alloc s (Decision.reject _) = inl refl
  decide_submit-alloc s Decision.approve = book_order-alloc _ _ _ refl

  pub handle_submit-alloc : AllocPost oms i env (handle_submit venue oms i env ch)
  handle_submit-alloc = elim (Bool-cases oms.state.kill_switch) [
    | inl on ↦ rw (handle_submit_on venue oms i env ch on) (inl refl)
    | inr off ↦ rw (handle_submit_off venue oms i env ch off) (
        decide_submit-alloc (check oms.risk i oms.state env.now).1
          (check oms.risk i oms.state env.now).0)
  ]
