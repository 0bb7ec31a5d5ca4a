-- ===== src/Fix/Refusals.antt =====
-- crates/kalshi-fix/src/executor.rs with session.rs: orders that the builder refuses, and what the
-- other end makes of the order after them.
use predigy.Prelude.{
  ◌==◌, if◌then◌else◌, lt→ltb, length, All, ℕ, zero, suc, ◌+◌, ◌≤◌, ◌<◌, ◌≡◌, refl, ap, ◌∙◌, ◌≢◌,
  none, some, List, [], ◌∷◌, ◌++◌, arith,
}
use predigy.Prelude.Result.{Result, ◌>>=◌, ok, err}
use predigy.Prelude.Word.{u64_max}
use predigy.Prelude.Text.{Text, text, text_eq_iff}
use predigy.Core.{position_key, TimeInForce, Order}
use predigy.Fix.{
  msg_seq_num, Error, Stop, fails, FieldList, get, require, session, failed, Session, next_out_seq,
  expected_seq, validate_inbound, tif_code, build_new_order_single, FixTask, WriteAnswer, refusal,
  submit_command,
}
use predigy.Prelude.Map.{text_key}
use predigy.Oms.DigitLaws.{parse_u64-show_u64}
use predigy.Fix.Total.{>>=-eq-ok}
use predigy.Fix.WriteLaws.{ok-injective, seq_of_order}
use predigy.Oms.{show_u64}

-- A post-only order is refused by the builder and nothing is written, but the session has used up a
-- sequence number.
post_only_step :
    (clock : ℕ → ℕ) (order : Order) (answer : WriteAnswer) (task : FixTask)
    → order.tif ≡ TimeInForce.post_only
    → task.session.out_seq < u64_max
    → (after : FixTask) × (submit_command clock order answer task ≡ ok after)
      × (after.written ≡ task.written)
      × (after.session ≡ record task.session { out_seq = task.session.out_seq + 1 })
unfolding submit_command next_out_seq build_new_order_single tif_code refusal
post_only_step clock order answer task p h =
    rw
      (
        p,
        lt→ltb task.session.out_seq u64_max h,
        submit_command,
        next_out_seq,
        build_new_order_single,
      )
      (_, refl, refl, refl)

-- The session with some numbers used up.
abbrev advanced : ℕ → Session → Session
advanced n s = record s { out_seq = s.out_seq + n }

same_session :
    (s : Session) (a b : ℕ)
    → a ≡ b
    → ◌≡◌ {A = Session} (record s { out_seq = a }) (record s { out_seq = b })
same_session s a b h = rw h refl

-- Orders that are submitted in turn, with the answers of the writer.
unfoldable pub submit_all : (ℕ → ℕ) → List (Order × WriteAnswer) → FixTask → Result FixTask Stop
submit_all clock [] task = ok task
submit_all clock (o ∷ os) task = do
  task' ← submit_command clock o.0 o.1 task
  submit_all clock os task'

post_only_steps :
    (clock : ℕ → ℕ) (os : List (Order × WriteAnswer)) (task : FixTask)
    → All (λ o. o.0.tif ≡ TimeInForce.post_only) os
    → task.session.out_seq + length os ≤ u64_max
    → (after : FixTask) × (submit_all clock os task ≡ ok after)
      × (after.written ≡ task.written)
      × (after.session ≡ advanced (length os) task.session)
unfolding submit_all
post_only_steps clock [] task p h =
    (task, refl, refl, same_session task.session task.session.out_seq _ (omega arith))
post_only_steps clock (o ∷ os) task p h =
    let (mid, e, w, s) = post_only_step clock o.0 o.1 task p.0 (omega arith) in
    let (after, e', w', s') = post_only_steps clock os mid p.1 (rw s (omega arith)) in
    (
      after,
      rw (e, submit_all) e',
      w' ∙ w,
      s' ∙ ap (advanced (length os)) s ∙ same_session task.session _ _ (omega arith),
    )

-- What a session makes of the number of an order's message.
expected_seq-order :
    (peer : Session) (sender target : Text) (n now : ℕ) (order : Order) (body : FieldList)
    → build_new_order_single sender target n order now ≡ ok body
    → peer.target_comp_id ≡ sender
    → peer.sender_comp_id ≡ target
    → n ≤ u64_max
    → expected_seq body peer ≡ (
        if n == peer.in_seq
        then ok n
        else fails (session (text "inbound MsgSeqNum gap (resend not yet supported)")))
unfolding build_new_order_single expected_seq require get
expected_seq-order peer sender target n now order body e s t h =
    let (tif, _, same) = >>=-eq-ok (tif_code order.tif) _ e in
    rw
      (
        ← ok-injective same,
        s,
        t,
        (text_eq_iff sender sender).1 refl,
        (text_eq_iff target target).1 refl,
        parse_u64-show_u64 n h,
        expected_seq,
      )
      (ground arith)

coded : (t : TimeInForce) → t ≢ TimeInForce.post_only → (code : Text) × (tif_code t ≡ ok code)
unfolding tif_code
coded TimeInForce.gtc h = (_, refl)
coded TimeInForce.ioc h = (_, refl)
coded TimeInForce.fok h = (_, refl)
coded TimeInForce.post_only h = absurd (h refl)

-- An order that the builder takes is written under the session's number.
sent_step :
    (clock : ℕ → ℕ) (order : Order) (task : FixTask)
    → order.tif ≢ TimeInForce.post_only
    → task.session.out_seq < u64_max
    → (after : FixTask) × (m : FieldList) × (submit_command clock order none task ≡ ok after)
      × (after.written ≡ task.written ++ m ∷ [])
      × (build_new_order_single task.session.sender_comp_id task.session.target_comp_id
            task.session.out_seq order
            (clock task.reads)
          ≡ ok m)
unfolding submit_command next_out_seq build_new_order_single
sent_step clock order task q h =
    let (code, e) = coded order.tif q in
    rw
      (
        lt→ltb task.session.out_seq u64_max h,
        e,
        submit_command,
        next_out_seq,
        build_new_order_single,
      )
      (_, _, refl, refl, refl)

last_step :
    (clock : ℕ → ℕ) (os : List (Order × WriteAnswer)) (o : Order × WriteAnswer)
    (task mid after : FixTask)
    → submit_all clock os task ≡ ok mid
    → submit_command clock o.0 o.1 mid ≡ ok after
    → submit_all clock (os ++ o ∷ []) task ≡ ok after
unfolding submit_all
last_step clock [] o task mid after h k = rw (ok-injective h, k) refl
last_step clock (x ∷ os) o task mid after h k =
    let (next, e, rest) = >>=-eq-ok (submit_command clock x.0 x.1 task) _ h in
    rw (e, submit_all) (last_step clock os o next mid after rest k)

abbrev pub gap_error : Stop
gap_error = failed (Error.session (text "inbound MsgSeqNum gap (resend not yet supported)"))

number_at :
    (base k in_seq : ℕ)
    → in_seq ≡ base
    → ◌≡◌ {A = Result ℕ Stop}
        (if base + k == in_seq then ok (base + k) else err gap_error)
        (if k == 0 then ok base else err gap_error)
number_at base zero in_seq n = ground arith
number_at base (suc k) in_seq n = ground arith

-- A session takes the number that it expects, and none that is higher.
accepted_number :
    (peer : Session) (m : FieldList) (base k : ℕ)
    → expected_seq m peer ≡ (if base + k == peer.in_seq then ok (base + k) else err gap_error)
    → peer.in_seq ≡ base
    → base < u64_max
    → (validate_inbound m peer).0 ≡ (if k == 0 then ok base else err gap_error)
unfolding validate_inbound
accepted_number peer m base zero e n h =
    rw
      (e ∙ number_at base zero peer.in_seq n, lt→ltb peer.in_seq u64_max (rw n h), validate_inbound)
      refl
accepted_number peer m base (suc k) e n h =
    rw (e ∙ number_at base (suc k) peer.in_seq n, validate_inbound) (ground arith)

-- The order after some post-only ones: none of these is written, but each uses up a sequence number,
-- so the order is written with a number that is too high by their count. A session at the other end
-- that expects the number before them takes the order exactly if there was none; otherwise it finds a
-- gap. The order itself is not post-only, the writer takes it, the two sessions name each other, and
-- the numbers do not run out.
pub submit_command-post_only :
    (clock : ℕ → ℕ) (os : List (Order × WriteAnswer)) (order : Order) (task : FixTask)
    (peer : Session)
    → All (λ o. o.0.tif ≡ TimeInForce.post_only) os
    → order.tif ≢ TimeInForce.post_only
    → task.session.out_seq + length os < u64_max
    → peer.sender_comp_id ≡ task.session.target_comp_id
    → peer.target_comp_id ≡ task.session.sender_comp_id
    → peer.in_seq ≡ task.session.out_seq
    → (after : FixTask) × (m : FieldList) × (submit_all clock (os ++ (order, none) ∷ []) task
        ≡ ok after)
      × (after.written ≡ task.written ++ m ∷ [])
      × (get msg_seq_num m ≡ some (show_u64 (task.session.out_seq + length os)))
      × ((validate_inbound m peer).0
          ≡ (if length os == 0 then ok task.session.out_seq else err gap_error))
submit_command-post_only clock os order task peer p q h s t n =
    let (mid, e, w, moved) = post_only_steps clock os task p (omega arith) in
    let (after, m, sent, written, built) = sent_step clock order mid q (rw moved h) in
    let number = task.session.out_seq + length os in
    let built' : build_new_order_single task.session.sender_comp_id task.session.target_comp_id
          number order (clock mid.reads)
        ≡ ok m =
      rw moved at built in
    (
      after,
      m,
      last_step clock os (order, none) task mid after e sent,
      rw w at written,
      seq_of_order _ _ number order _ m built',
      accepted_number peer m task.session.out_seq (length os)
          (expected_seq-order peer _ _ number (clock mid.reads) order m built' t s (omega arith)) n
          (omega arith),
    )
