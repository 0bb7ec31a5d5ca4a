-- ===== src/Fix/Sessions.antt =====
-- crates/kalshi-fix/src/session.rs: the sequence numbers of a session.
use predigy.Prelude.{ltb, ◌==◌, if◌then◌else◌, ℕ, ◌+◌, not}
use predigy.Prelude.Text.{Text, text, text_eq}
use predigy.Prelude.Word.{u64_max}
use predigy.Prelude.Result.{Result, ◌>>=◌, ok, err}
use predigy.Oms.{parse_u64}
use predigy.Fix.Frames.{Stop, fails, ok_or, FieldList, require, malformed_tag, session, panics}
use predigy.Fix.Tags.{msg_seq_num, sender_comp_id_tag, target_comp_id_tag}

pub record Session : Type 0 where
  pub sender_comp_id : Text
  pub target_comp_id : Text
  pub out_seq : ℕ
  pub in_seq : ℕ
  pub heartbeat_secs : ℕ

unfoldable pub new_session : Text → Text → ℕ → ℕ → ℕ → Session
new_session sender target start_out_seq start_in_seq heartbeat = record {
  sender_comp_id = sender;
  target_comp_id = target;
  out_seq = start_out_seq;
  in_seq = start_in_seq;
  heartbeat_secs = heartbeat;
}

-- `checked_add(1).expect(…)`.
abbrev pub bump : ℕ → Result ℕ Stop
bump n = if ltb n u64_max then ok (n + 1) else err panics

unfoldable pub next_out_seq : Session → Result (ℕ × Session) Stop
next_out_seq s = do next ← bump s.out_seq; ok (s.out_seq, record s { out_seq = next })

-- The sequence number of a message that fits the session.
unfoldable pub expected_seq : FieldList → Session → Result ℕ Stop
expected_seq fields s = do
  sender ← require sender_comp_id_tag (text "?") fields
  target ← require target_comp_id_tag (text "?") fields
  if not (text_eq sender s.target_comp_id)
      then fails (session (text "inbound SenderCompID mismatch"))
      else if not (text_eq target s.sender_comp_id)
      then fails (session (text "inbound TargetCompID mismatch"))
      else do
        seq_str ← require msg_seq_num (text "?") fields
        seq ← ok_or (parse_u64 seq_str) (malformed_tag msg_seq_num seq_str)
        if not (seq == s.in_seq)
            then fails (session (text "inbound MsgSeqNum gap (resend not yet supported)"))
            else ok seq

-- The answer, and the session after it: only a message that fits moves it.
unfoldable pub validate_inbound : FieldList → Session → Result ℕ Stop × Session
validate_inbound fields s = elim (expected_seq fields s) [
  | err e ↦ (err e, s)
  | ok seq ↦ elim (bump s.in_seq) [
    | err e ↦ (err e, s)
    | ok next ↦ (ok seq, record s { in_seq = next })
  ]
]
