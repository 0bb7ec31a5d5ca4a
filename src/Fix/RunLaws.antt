-- ===== src/Fix/RunLaws.antt =====
-- crates/kalshi-fix/src/executor.rs: what every run of the task keeps.
use predigy.Prelude.{length, ℕ, suc, ◌≡◌, ap, inl, inr, List, [], ◌∷◌, ◌++◌, arith}
use predigy.Prelude.Result.{ok}
use predigy.Core.{position_key}
use predigy.Fix.{
  Bytes, new_session, next_out_seq, FixConfig, FixTask, new_fix_task, track_order, dispatch_loop,
  dispatch_inbound, WriteAnswer, FixEvent, Connection, send_logon, submit_command, cancel_command,
  heartbeat_tick, logon_loop, receive_logon, receive_bytes, start_run, run_step, run_events,
}
use predigy.Fix.SequenceLaws.{
  Numbered, IsSequenced, Keeps-IsSequenced, dispatch_loop-Keeps, logon_loop-Keeps,
}
use predigy.Prelude.Map.{text_key}
use predigy.Fix.Total.{>>=-eq-ok}
use predigy.Fix.WriteLaws.{
  ok-injective, hand_over-IsSequenced, seq_of_logon, phases, submit_command-IsSequenced,
  cancel_command-IsSequenced, heartbeat_tick-IsSequenced,
}

module _ (clock : ℕ → ℕ) where
  receive_logon-IsSequenced :
      (buf : Bytes) (task : FixTask) (after : Connection)
      → receive_logon clock buf task ≡ ok after
      → IsSequenced task
      → IsSequenced after.task
  unfolding receive_logon
  receive_logon-IsSequenced buf task after h w =
      let ((answer, left, task'), e, k) =
        >>=-eq-ok (logon_loop clock (suc (length buf)) buf task) _ h in
      rw (← ap (λ c. c.task) (ok-injective k))
        (Keeps-IsSequenced task task' (logon_loop-Keeps clock _ buf left task task' answer e) w)

  receive_bytes-IsSequenced :
      (buf : Bytes) (task : FixTask) (after : Connection)
      → receive_bytes clock buf task ≡ ok after
      → IsSequenced task
      → IsSequenced after.task
  unfolding receive_bytes dispatch_inbound
  receive_bytes-IsSequenced buf task after h w =
      let ((shuts_down, left, task'), e, k) =
        >>=-eq-ok (dispatch_loop clock (suc (length buf)) buf task) _ h in
      rw (← ap (λ c. c.task) (ok-injective k)) (
        Keeps-IsSequenced task task' (dispatch_loop-Keeps clock _ buf left task task' shuts_down e)
          w)

  run_step-IsSequenced :
      (e : FixEvent) (c after : Connection)
      → run_step clock e c ≡ ok after
      → IsSequenced c.task
      → IsSequenced after.task
  unfolding run_step
  run_step-IsSequenced (FixEvent.submit_called order) c after h w =
      rw (← ok-injective h) (unfold track_order in w)
  run_step-IsSequenced (FixEvent.received chunk) c after h w = elim (phases c.phase) [
    | inl p ↦ receive_logon-IsSequenced (c.inbound ++ chunk) c.task after (rw p at h) w
    | inr (inl p) ↦ receive_bytes-IsSequenced (c.inbound ++ chunk) c.task after (rw p at h) w
    | inr (inr p) ↦ rw (← ok-injective (rw p at h)) w
  ]
  run_step-IsSequenced FixEvent.peer_closed c after h w = rw (← ok-injective h) w
  run_step-IsSequenced FixEvent.read_error c after h w = rw (← ok-injective h) w
  run_step-IsSequenced FixEvent.commands_closed c after h w = elim (phases c.phase) [
    | inl p ↦ rw (← ok-injective (rw p at h)) w
    | inr (inl p) ↦ rw (← ok-injective (rw p at h)) w
    | inr (inr p) ↦ rw (← ok-injective (rw p at h)) w
  ]
  run_step-IsSequenced (FixEvent.submit_arrives order answer) c after h w = elim (phases c.phase) [
    | inl p ↦ rw (← ok-injective (rw p at h)) w
    | inr (inl p) ↦
        let (task', e, k) = >>=-eq-ok (submit_command clock order answer c.task) _ (rw p at h) in
        rw (← ok-injective k) (submit_command-IsSequenced clock order answer c.task task' e w)
    | inr (inr p) ↦ rw (← ok-injective (rw p at h)) w
  ]
  run_step-IsSequenced (FixEvent.cancel_arrives cid cancel_cid answer) c after h w =
      elim (phases c.phase) [
        | inl p ↦ rw (← ok-injective (rw p at h)) w
        | inr (inl p) ↦
            let (task', e, k) =
              >>=-eq-ok (cancel_command clock cid cancel_cid answer c.task) _ (rw p at h) in
            rw (← ok-injective k)
              (cancel_command-IsSequenced clock cid cancel_cid answer c.task task' e w)
        | inr (inr p) ↦ rw (← ok-injective (rw p at h)) w
      ]
  run_step-IsSequenced (FixEvent.heartbeat_due answer) c after h w = elim (phases c.phase) [
    | inl p ↦ rw (← ok-injective (rw p at h)) w
    | inr (inl p) ↦
        let ((goes_on, task'), e, k) =
          >>=-eq-ok (heartbeat_tick clock answer c.task) _ (rw p at h) in
        rw (← ok-injective k) (heartbeat_tick-IsSequenced clock answer c.task task' goes_on e w)
    | inr (inr p) ↦ rw (← ok-injective (rw p at h)) w
  ]

  start_run-IsSequenced :
      (config : FixConfig) (answer : WriteAnswer) (c : Connection)
      → start_run clock config answer ≡ ok c
      → IsSequenced c.task
  unfolding start_run send_logon new_fix_task
  start_run-IsSequenced config answer c h =
      let task = new_fix_task config in
      let ((sent, after), e, k) = >>=-eq-ok (send_logon clock config answer task) _ h in
      let ((seq, s), d, l) = >>=-eq-ok (next_out_seq task.session) _ e in
      rw (← ok-injective k, ← ap (λ p. p.1) (ok-injective l))
        (hand_over-IsSequenced s seq _ answer task d (seq_of_logon _ _ seq _ _ _ _)
          (unfold new_session in omega arith))

  run_events-IsSequenced :
      (es : List FixEvent) (c after : Connection)
      → run_events clock es c ≡ ok after
      → IsSequenced c.task
      → IsSequenced after.task
  unfolding run_events
  run_events-IsSequenced [] c after h w = rw (← ok-injective h) w
  run_events-IsSequenced (e ∷ es) c after h w =
      let (c', d, k) = >>=-eq-ok (run_step clock e c) _ h in
      run_events-IsSequenced es c' after k (run_step-IsSequenced e c c' d w)

  -- In every run of the task, whatever arrives, is called or fails, the messages that the writer took
  -- carry sequence numbers that rise from 1 on and stay below the next number of the session: no
  -- number is used twice.
  pub run_written-Numbered :
      (config : FixConfig) (answer : WriteAnswer) (es : List FixEvent) (start after : Connection)
      → start_run clock config answer ≡ ok start
      → run_events clock es start ≡ ok after
      → Numbered 1 after.task.session.out_seq after.task.written
  run_written-Numbered config answer es start after h k =
      run_events-IsSequenced es start after k (start_run-IsSequenced config answer start h)
