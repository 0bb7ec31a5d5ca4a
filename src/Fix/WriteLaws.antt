-- ===== src/Fix/WriteLaws.antt =====
-- crates/kalshi-fix/src/executor.rs: the commands of the task, and the numbers that they write.
use predigy.Prelude.{
  Option-cases, ℕ, ◌+◌, ◌≡◌, refl, ap, ◌⊎◌, inl, inr, Bool, Option, none, some, arith,
}
use predigy.Prelude.Result.{Result, ok, err}
use predigy.Prelude.Text.{Text}
use predigy.Core.{Action, MarketTicker, position_key, OrderId, Order}
use predigy.Oms.{show_u64, ExecutorError}
use predigy.Fix.{
  msg_seq_num, Stop, FieldList, get, failed, panics, out_of_fuel, Session, next_out_seq,
  build_logon, build_heartbeat, tif_code, build_new_order_single, build_order_cancel_request,
  FixTask, WriteAnswer, write_result, hand_over, reply, numbered, refusal, Phase, submit_command,
  cancel_command, heartbeat_tick,
}
use predigy.Fix.SequenceLaws.{Numbered-raise, Numbered-append, IsSequenced}
use predigy.Prelude.Map.{text_key, lookup}
use predigy.Fix.Total.{>>=-eq-ok}

pub ok-injective {ℓ} : {A : Type ℓ} {a b : A} → ◌≡◌ {A = Result A Stop} (ok a) (ok b) → a ≡ b
ok-injective h = cc h

taken :
    (s : Session) (seq : ℕ) (task : FixTask)
    → next_out_seq task.session ≡ ok (seq, s)
    → (task.session.out_seq ≡ seq) × (s.out_seq ≡ task.session.out_seq + 1)
unfolding next_out_seq
taken s seq task e = ground arith

numbered-IsSequenced :
    (s : Session) (seq : ℕ) (task : FixTask)
    → next_out_seq task.session ≡ ok (seq, s)
    → IsSequenced task
    → IsSequenced (numbered s task)
numbered-IsSequenced s seq task e w =
    rw (taken s seq task e).1 (
      Numbered-raise 1 task.session.out_seq (task.session.out_seq + 1) task.written (omega arith) w)

-- A number is taken, and a message that carries it is written or not.
pub hand_over-IsSequenced :
    (s : Session) (seq : ℕ) (m : FieldList) (answer : WriteAnswer) (task : FixTask)
    → next_out_seq task.session ≡ ok (seq, s)
    → get msg_seq_num m ≡ some (show_u64 seq)
    → IsSequenced task
    → IsSequenced (hand_over m answer (numbered s task))
hand_over-IsSequenced s seq m none task e g w =
    let (same, next) = taken s seq task e in
    rw next (Numbered-append 1 task.session.out_seq task.written m w (rw same g))
hand_over-IsSequenced s seq m (some x) task e g w = numbered-IsSequenced s seq task e w

pub seq_of_logon :
    (sender target : Text) (seq secs : ℕ) (reset : Bool) (extras : FieldList) (now : ℕ)
    → get msg_seq_num (build_logon sender target seq secs reset extras now) ≡ some (show_u64 seq)
unfolding get build_logon
seq_of_logon sender target seq secs reset extras now = refl

seq_of_heartbeat :
    (sender target : Text) (seq : ℕ) (id : Option Text) (now : ℕ)
    → get msg_seq_num (build_heartbeat sender target seq id now) ≡ some (show_u64 seq)
unfolding get build_heartbeat
seq_of_heartbeat sender target seq id now = refl

seq_of_cancel :
    (sender target : Text) (seq : ℕ) (cancel_cid : Text) (cid : OrderId) (market : MarketTicker)
    (action : Action) (now : ℕ)
    → get msg_seq_num
        (build_order_cancel_request sender target seq cancel_cid cid market action now)
      ≡ some (show_u64 seq)
unfolding get build_order_cancel_request
seq_of_cancel sender target seq cancel_cid cid market action now = refl

pub seq_of_order :
    (sender target : Text) (seq : ℕ) (order : Order) (now : ℕ) (body : FieldList)
    → build_new_order_single sender target seq order now ≡ ok body
    → get msg_seq_num body ≡ some (show_u64 seq)
unfolding get build_new_order_single
seq_of_order sender target seq order now body e =
    let (tif, _, same) = >>=-eq-ok (tif_code order.tif) _ e in rw (← ok-injective same) refl

pub phases : (p : Phase) → (p ≡ Phase.awaiting_logon) ⊎ (p ≡ Phase.working) ⊎ (p ≡ Phase.stopped)
phases Phase.awaiting_logon = inl refl
phases Phase.working = inr (inl refl)
phases Phase.stopped = inr (inr refl)

built :
    (r : Result FieldList Stop) → ((body : FieldList) × (r ≡ ok body)) ⊎ ((s : Stop) × (r ≡ err s))
built (ok body) = inl (body, refl)
built (err s) = inr (s, refl)

-- An order that is refused takes a number all the same.
keeps_number :
    (stop : Stop) (s : Session) (seq : ℕ) (task after : FixTask)
    → next_out_seq task.session ≡ ok (seq, s)
    → (elim stop [
      | failed x ↦ ok (reply (err (ExecutorError.rejected_by_venue (refusal x))) (numbered s task))
      | panics ↦ err panics
      | out_of_fuel ↦ err out_of_fuel
    ])
      ≡ ok after
    → IsSequenced task
    → IsSequenced after
keeps_number (failed x) s seq task after e k w =
    rw (← ok-injective k) (numbered-IsSequenced s seq task e w)
keeps_number panics s seq task after e k w = cc k
keeps_number out_of_fuel s seq task after e k w = cc k

module _ (clock : ℕ → ℕ) where
  pub submit_command-IsSequenced :
      (order : Order) (answer : WriteAnswer) (task after : FixTask)
      → submit_command clock order answer task ≡ ok after
      → IsSequenced task
      → IsSequenced after
  unfolding submit_command
  submit_command-IsSequenced order answer task after h w =
      let ((seq, s), e, k) = >>=-eq-ok (next_out_seq task.session) _ h in
      elim (built
        (build_new_order_single s.sender_comp_id s.target_comp_id seq order (clock task.reads))) [
          | inl (body, b) ↦
              let same : reply (write_result answer) (hand_over body answer (numbered s task))
                  ≡ after =
                ok-injective (rw b at k) in
              rw (← same) (
                hand_over-IsSequenced s seq body answer task e (seq_of_order _ _ seq order _ body b)
                  w)
          | inr (stop, b) ↦ keeps_number stop s seq task after e (rw b at k) w
        ]

  pub cancel_command-IsSequenced :
      (cid : OrderId) (cancel_cid : Text) (answer : WriteAnswer) (task after : FixTask)
      → cancel_command clock cid cancel_cid answer task ≡ ok after
      → IsSequenced task
      → IsSequenced after
  unfolding cancel_command
  cancel_command-IsSequenced cid cancel_cid answer task after h w =
      elim (Option-cases (lookup cid task.tracked)) [
        | inl unknown ↦
            let same : reply (err (ExecutorError.unknown_order cid)) task ≡ after =
              cc (h, unknown) in
            rw (← same) w
        | inr (t, known) ↦
            let ((seq, s), e, k) =
              >>=-eq-ok (next_out_seq task.session) _ (rw (known, cancel_command) at h) in
            let same = ok-injective k in
            rw (← same)
              (hand_over-IsSequenced s seq _ answer task e (seq_of_cancel _ _ seq _ _ _ _ _) w)
      ]

  pub heartbeat_tick-IsSequenced :
      (answer : WriteAnswer) (task after : FixTask) (goes_on : Bool)
      → heartbeat_tick clock answer task ≡ ok (goes_on, after)
      → IsSequenced task
      → IsSequenced after
  unfolding heartbeat_tick
  heartbeat_tick-IsSequenced answer task after goes_on h w =
      let ((seq, s), e, k) = >>=-eq-ok (next_out_seq task.session) _ h in
      let same = ok-injective k in
      rw (← ap (λ p. p.1) same)
        (hand_over-IsSequenced s seq _ answer task e (seq_of_heartbeat _ _ seq none _) w)
