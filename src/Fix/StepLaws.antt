-- ===== src/Fix/StepLaws.antt =====
-- crates/kalshi-fix/src/executor.rs: every step of the task ends.
use predigy.Prelude.{length, ℕ, suc, ◌≢◌, inl, inr, ◌++◌, arith}
use predigy.Prelude.Result.{err}
use predigy.Prelude.Text.{Text}
use predigy.Core.{position_key, OrderId, Order}
use predigy.Fix.{
  Bytes, out_of_fuel, Session, next_out_seq, tif_code, build_new_order_single, FixTask,
  dispatch_inbound, WriteAnswer, FixEvent, Connection, submit_command, cancel_command,
  heartbeat_tick, receive_logon, receive_bytes, run_step,
}
use predigy.Fix.Total.{Ends}
use predigy.Prelude.Map.{text_key}
use predigy.Fix.LoopLaws.{>>=-eq-err, dispatch_loop-Ends, logon_loop-Ends}

next_out_seq-Ends : (s : Session) → Ends (next_out_seq s)
unfolding next_out_seq
next_out_seq-Ends s p = ground arith

submit_command-Ends :
    (clock : ℕ → ℕ) (order : Order) (answer : WriteAnswer) (task : FixTask)
    → Ends (submit_command clock order answer task)
unfolding submit_command build_new_order_single tif_code
submit_command-Ends clock order answer task p = elim (>>=-eq-err (next_out_seq task.session) _ p) [
  | inl e ↦ next_out_seq-Ends task.session e
  | inr ((seq, s), e) ↦ ground arith
]

cancel_command-Ends :
    (clock : ℕ → ℕ) (cid : OrderId) (cancel_cid : Text) (answer : WriteAnswer) (task : FixTask)
    → Ends (cancel_command clock cid cancel_cid answer task)
unfolding cancel_command
cancel_command-Ends clock cid cancel_cid answer task p =
    ground (arith, next_out_seq-Ends task.session)

heartbeat_tick-Ends :
    (clock : ℕ → ℕ) (answer : WriteAnswer) (task : FixTask)
    → Ends (heartbeat_tick clock answer task)
unfolding heartbeat_tick
heartbeat_tick-Ends clock answer task p = ground (arith, next_out_seq-Ends task.session)

receive_logon-Ends :
    (clock : ℕ → ℕ) (buf : Bytes) (task : FixTask) → Ends (receive_logon clock buf task)
unfolding receive_logon
receive_logon-Ends clock buf task p =
    ground (arith, logon_loop-Ends clock (suc (length buf)) buf task (omega arith))

receive_bytes-Ends :
    (clock : ℕ → ℕ) (buf : Bytes) (task : FixTask) → Ends (receive_bytes clock buf task)
unfolding receive_bytes dispatch_inbound
receive_bytes-Ends clock buf task p =
    ground (arith, dispatch_loop-Ends clock (suc (length buf)) buf task (omega arith))

-- Every step of the task ends, whatever bytes the peer sent: the length of the read buffer is fuel
-- enough for the loop over its messages, and no call in it runs out of fuel either.
pub run_step-Ends :
    (clock : ℕ → ℕ) (e : FixEvent) (c : Connection) → run_step clock e c ≢ err out_of_fuel
unfolding run_step
run_step-Ends clock (FixEvent.submit_called order) c p = cc p
run_step-Ends clock (FixEvent.received chunk) c p = ground (
  arith,
  receive_logon-Ends clock (c.inbound ++ chunk) c.task,
  receive_bytes-Ends clock (c.inbound ++ chunk) c.task,
)
run_step-Ends clock FixEvent.peer_closed c p = cc p
run_step-Ends clock FixEvent.read_error c p = cc p
run_step-Ends clock FixEvent.commands_closed c p = ground arith
run_step-Ends clock (FixEvent.submit_arrives order answer) c p =
    ground (arith, submit_command-Ends clock order answer c.task)
run_step-Ends clock (FixEvent.cancel_arrives cid cancel_cid answer) c p =
    ground (arith, cancel_command-Ends clock cid cancel_cid answer c.task)
run_step-Ends clock (FixEvent.heartbeat_due answer) c p =
    ground (arith, heartbeat_tick-Ends clock answer c.task)
