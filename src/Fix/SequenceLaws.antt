-- ===== src/Fix/SequenceLaws.antt =====
-- crates/kalshi-fix/src/executor.rs and session.rs: the sequence numbers of the messages written.
use predigy.Prelude.{
  Bool-cases, unwrap_or, ℕ, zero, suc, ◌+◌, ◌≤◌, ◌≡◌, refl, ◌∙◌, ◌⊎◌, inl, inr, Bool, true, false,
  Option, none, some, List, [], ◌∷◌, ◌++◌, arith,
}
use predigy.Prelude.Result.{Result, ok, err}
use predigy.Core.{position_key}
use predigy.Oms.{show_u64}
use predigy.Fix.{
  Bytes, drop, msg_type, msg_seq_num, msg_type_logon, Stop, FieldList, get, decode_message, Session,
  validate_inbound, FixTask, handle_execution_report, handle_message, dispatch_loop, LogonAnswer,
  logon_loop,
}
use predigy.Prelude.Text.{text, text_eq}
use predigy.Fix.Streams.{handled}

-- The messages carry numbers that rise, from the first bound up to below the second.
abbrev pub Numbered : ℕ → ℕ → List FieldList → Type 0
Numbered low high [] = low ≤ high
Numbered low high (m ∷ ms) =
    (n : ℕ) × (get msg_seq_num m ≡ some (show_u64 n)) × (low ≤ n) × Numbered (n + 1) high ms

pub Numbered-raise :
    (low high higher : ℕ) (ms : List FieldList)
    → high ≤ higher
    → Numbered low high ms
    → Numbered low higher ms
Numbered-raise low high higher [] h s = omega arith
Numbered-raise low high higher (m ∷ ms) h (n, e, k, s) =
    (n, e, k, Numbered-raise (n + 1) high higher ms h s)

pub Numbered-append :
    (low high : ℕ) (ms : List FieldList) (m : FieldList)
    → Numbered low high ms
    → get msg_seq_num m ≡ some (show_u64 high)
    → Numbered low (high + 1) (ms ++ m ∷ [])
Numbered-append low high [] m s e = (high, e, s, omega arith)
Numbered-append low high (l ∷ ms) m (n, d, k, s) e =
    (n, d, k, Numbered-append (n + 1) high ms m s e)

abbrev pub IsSequenced : FixTask → Type 0
IsSequenced task = Numbered 1 task.session.out_seq task.written

-- What does not write keeps the numbers.
pub Keeps : FixTask → FixTask → Type 0
Keeps before after =
    (after.session.out_seq ≡ before.session.out_seq) × (after.written ≡ before.written)

pub Keeps-IsSequenced :
    (before after : FixTask) → Keeps before after → IsSequenced before → IsSequenced after
unfolding Keeps
Keeps-IsSequenced before after k s = rw (k.0, k.1) s

Keeps-refl : (a : FixTask) → Keeps a a
unfolding Keeps
Keeps-refl a = (refl, refl)

Keeps-trans : (a b c : FixTask) → Keeps a b → Keeps b c → Keeps a c
unfolding Keeps
Keeps-trans a b c k l = (l.0 ∙ k.0, l.1 ∙ k.1)

validate_inbound-out_seq :
    (fields : FieldList) (s : Session) → (validate_inbound fields s).1.out_seq ≡ s.out_seq
unfolding validate_inbound
validate_inbound-out_seq fields s = ground arith

handle_execution_report-Keeps :
    (clock : ℕ → ℕ) (fields : FieldList) (task after : FixTask)
    → handle_execution_report clock fields task ≡ ok after
    → Keeps task after
unfolding handle_execution_report Keeps
handle_execution_report-Keeps clock fields task after h = ground arith

handle_message-Keeps :
    (clock : ℕ → ℕ) (fields : FieldList) (task after : FixTask) (shuts_down : Bool)
    → handle_message clock fields task ≡ ok (shuts_down, after)
    → Keeps task after
unfolding handle_message Keeps
handle_message-Keeps clock fields task after shuts_down h = ground (
  arith,
  validate_inbound-out_seq fields task.session,
  handle_execution_report-Keeps clock fields
      (record task { session = (validate_inbound fields task.session).1 }) after,
)

pub decoded :
    (r : Result (Option (FieldList × ℕ)) Stop)
    → (r ≡ ok none)
      ⊎ ((m : FieldList) × (n : ℕ) × (r ≡ ok (some (m, n))))
      ⊎ ((s : Stop) × (r ≡ err s))
decoded (ok none) = inl refl
decoded (ok (some (m, n))) = inr (inl (m, n, refl))
decoded (err s) = inr (inr (s, refl))

pub dispatch_loop-Keeps :
    (clock : ℕ → ℕ) (fuel : ℕ) (buf left : Bytes) (task after : FixTask) (shuts_down : Bool)
    → dispatch_loop clock fuel buf task ≡ ok (shuts_down, left, after)
    → Keeps task after
unfolding dispatch_loop
dispatch_loop-Keeps clock zero buf left task after b h = cc
dispatch_loop-Keeps clock (suc fuel) buf left task after b h = elim (decoded (decode_message buf)) [
  | inl e ↦ let same : task ≡ after = ground arith in rw same (Keeps-refl after)
  | inr (inl (m, n, e)) ↦ elim (handled (handle_message clock m task)) [
    | inl (true, task', k) ↦
        let same : task' ≡ after = ground arith in
        rw (← same) (handle_message-Keeps clock m task task' true k)
    | inl (false, task', k) ↦
        Keeps-trans task task' after (handle_message-Keeps clock m task task' false k)
          (dispatch_loop-Keeps clock fuel (drop n buf) left task' after b (ground arith))
    | inr (s, k) ↦ absurd (ground arith)
  ]
  | inr (inr (s, e)) ↦ let same : task ≡ after = ground arith in rw same (Keeps-refl after)
]

pub logon_loop-Keeps :
    (clock : ℕ → ℕ) (fuel : ℕ) (buf left : Bytes) (task after : FixTask) (answer : LogonAnswer)
    → logon_loop clock fuel buf task ≡ ok (answer, left, after)
    → Keeps task after
unfolding logon_loop
logon_loop-Keeps clock zero buf left task after b h = cc
logon_loop-Keeps clock (suc fuel) buf left task after b h = elim (decoded (decode_message buf)) [
  | inl e ↦ let same : task ≡ after = ground arith in rw same (Keeps-refl after)
  | inr (inl (m, n, e)) ↦
      elim (Bool-cases (text_eq (unwrap_or (get msg_type m) (text "?")) msg_type_logon)) [
        | inl logon ↦ unfold Keeps in ground (arith, validate_inbound-out_seq m task.session)
        | inr not_logon ↦ logon_loop-Keeps clock fuel (drop n buf) left task after b (ground arith)
      ]
  | inr (inr (s, e)) ↦ let same : task ≡ after = ground arith in rw same (Keeps-refl after)
]
