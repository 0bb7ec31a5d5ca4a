-- ===== src/Fix/LoopLaws.antt =====
-- crates/kalshi-fix/src/executor.rs: the loop over the messages of a buffer ends.
use predigy.Prelude.{
  Option-cases, length, ℕ, zero, suc, ◌+◌, ◌≤◌, ◌<◌, ◌≡◌, ◌⊎◌, inl, inr, true, false, Option, none,
  some, [], ◌∷◌, arith,
}
use predigy.Prelude.Result.{Result, ◌>>=◌, ok, err}
use predigy.Prelude.Word.{u32_max}
use predigy.Prelude.Text.{Text, text}
use predigy.Core.{Side, Action, MarketTicker, position_key, OrderId}
use predigy.Fix.{
  Bytes, drop, cl_ord_id, order_id_tag, ord_status, cum_qty, last_qty, last_px, leaves_qty, Error,
  Stop, ok_or, FieldList, get, require, parse_up_to, decode_message, missing_tag, malformed_tag,
  parse_f64, to_u8, parse_price_cents, Session, expected_seq, validate_inbound,
  ParsedExecutionReport, optional, read_u32, parse_execution_report, FixTask, tracked_terms,
  build_fill, report_kind, handle_execution_report, handle_message, dispatch_loop, logon_loop,
}
use predigy.Fix.Total.{Ends, decode_message-Ends}
use predigy.Prelude.Map.{text_key}
use predigy.Fix.SequenceLaws.{decoded}
use predigy.Fix.Streams.{handled}
use predigy.Fix.Consumed.{decode_message_consumed}

-- A chain that fails does so at its first part or after it.
pub >>=-eq-err {ℓ} :
    {A : Type ℓ} {B : Type ℓ} (r : Result A Stop) (k : A → Result B Stop) {s : Stop}
    → (r >>= k) ≡ err s
    → (r ≡ err s) ⊎ ((a : A) × (k a ≡ err s))
>>=-eq-err (ok a) k h = inr (a, h)
>>=-eq-err (err e) k h = inl (cc h)

expected_seq-Ends : (fields : FieldList) (s : Session) → Ends (expected_seq fields s)
unfolding expected_seq require
expected_seq-Ends fields s p = ground arith

validate_inbound-Ends : (fields : FieldList) (s : Session) → Ends (validate_inbound fields s).0
unfolding validate_inbound
validate_inbound-Ends fields s p = ground (arith, expected_seq-Ends fields s)

optional-Ends :
    (read : Text → Result ℕ Stop) (tag : ℕ) (fields : FieldList)
    → ((s : Text) → Ends (read s))
    → Ends (optional read tag fields)
unfolding optional
optional-Ends read tag fields h p = elim (Option-cases (get tag fields)) [
  | inl missing ↦ ground arith
  | inr (s, found) ↦ ground (arith, h s)
]

ok_or-Ends {ℓ} : {A : Type ℓ} (o : Option A) (e : Error) → Ends (ok_or o e)
ok_or-Ends none e p = cc p
ok_or-Ends (some a) e p = cc p

require-Ends : (tag : ℕ) (kind : Text) (fields : FieldList) → Ends (require tag kind fields)
unfolding require
require-Ends tag kind fields = ok_or-Ends (get tag fields) (missing_tag tag kind)

read_u32-Ends : (tag : ℕ) (s : Text) → Ends (read_u32 tag s)
read_u32-Ends tag s = ok_or-Ends (parse_up_to u32_max s) (malformed_tag tag s)

parse_price_cents-Ends : (tag : ℕ) (s : Text) → Ends (parse_price_cents s tag)
unfolding parse_price_cents
parse_price_cents-Ends tag s p = elim (>>=-eq-err (ok_or (parse_f64 s) (malformed_tag tag s)) _ p) [
  | inl e ↦ ok_or-Ends (parse_f64 s) (malformed_tag tag s) e
  | inr (x, e) ↦ ok_or-Ends (to_u8 x) (malformed_tag tag s) e
]

parse_execution_report-Ends : (fields : FieldList) → Ends (parse_execution_report fields)
unfolding parse_execution_report require
parse_execution_report-Ends fields p = elim (>>=-eq-err (require cl_ord_id (text "8") fields) _ p) [
  | inl e ↦ require-Ends _ _ fields e
  | inr (cid, p₁) ↦ elim (>>=-eq-err (require order_id_tag (text "8") fields) _ p₁) [
    | inl e ↦ require-Ends _ _ fields e
    | inr (venue_id, p₂) ↦ elim (>>=-eq-err (require ord_status (text "8") fields) _ p₂) [
      | inl e ↦ require-Ends _ _ fields e
      | inr (status, p₃) ↦ elim (>>=-eq-err (optional (read_u32 cum_qty) cum_qty fields) _ p₃) [
        | inl e ↦ optional-Ends _ cum_qty fields (read_u32-Ends cum_qty) e
        | inr (cum, p₄) ↦ elim (>>=-eq-err (optional (read_u32 last_qty) last_qty fields) _ p₄) [
          | inl e ↦ optional-Ends _ last_qty fields (read_u32-Ends last_qty) e
          | inr (last, p₅) ↦
              elim (>>=-eq-err (optional (λ s. parse_price_cents s last_px) last_px fields) _ p₅) [
                | inl e ↦ optional-Ends _ last_px fields (parse_price_cents-Ends last_px) e
                | inr (px, p₆) ↦
                    elim (>>=-eq-err (optional (read_u32 leaves_qty) leaves_qty fields) _ p₆) [
                      | inl e ↦ optional-Ends _ leaves_qty fields (read_u32-Ends leaves_qty) e
                      | inr (left, p₇) ↦ cc p₇
                    ]
              ]
        ]
      ]
    ]
  ]
]

report_kind-Ends :
    (clock : ℕ → ℕ) (cid : OrderId) (terms : Side × Action × MarketTicker)
    (parsed : ParsedExecutionReport) (reads : ℕ)
    → Ends (report_kind clock cid terms parsed reads)
unfolding report_kind build_fill
report_kind-Ends clock cid terms parsed reads p = ground arith

handle_execution_report-Ends :
    (clock : ℕ → ℕ) (fields : FieldList) (task : FixTask)
    → Ends (handle_execution_report clock fields task)
unfolding handle_execution_report
handle_execution_report-Ends clock fields task p =
    elim (>>=-eq-err (parse_execution_report fields) _ p) [
      | inl e ↦ parse_execution_report-Ends fields e
      | inr (parsed, q) ↦
          elim (>>=-eq-err
            (report_kind clock parsed.order_cid (tracked_terms parsed.order_cid task.tracked) parsed
              task.reads)
            _ q) [ inl e ↦ report_kind-Ends clock _ _ parsed _ e | inr (k, e) ↦ cc e ]
    ]

handle_message-Ends :
    (clock : ℕ → ℕ) (fields : FieldList) (task : FixTask) → Ends (handle_message clock fields task)
unfolding handle_message
handle_message-Ends clock fields task p = ground (
  arith,
  validate_inbound-Ends fields task.session,
  handle_execution_report-Ends clock fields
      (record task { session = (validate_inbound fields task.session).1 }),
)

length-drop : (n : ℕ) (l : Bytes) → n ≤ length l → length (drop n l) + n ≡ length l
unfolding drop
length-drop zero l h = omega arith
length-drop (suc n) [] h = absurd (omega arith)
length-drop (suc n) (x ∷ l) h = omega (arith, length-drop n l (omega arith))

pub dispatch_loop-Ends :
    (clock : ℕ → ℕ) (fuel : ℕ) (buf : Bytes) (task : FixTask)
    → length buf < fuel
    → Ends (dispatch_loop clock fuel buf task)
unfolding dispatch_loop
dispatch_loop-Ends clock zero buf task h = absurd (omega arith)
dispatch_loop-Ends clock (suc fuel) buf task h = elim (decoded (decode_message buf)) [
  | inl e ↦ λ p. ground arith
  | inr (inl (m, n, e)) ↦ elim (handled (handle_message clock m task)) [
    | inl (true, task', k) ↦ λ p. ground arith
    | inl (false, task', k) ↦
        let (some_byte, in_bounds) = decode_message_consumed buf m n e in
        λ p. ground (
          arith,
          dispatch_loop-Ends clock fuel (drop n buf) task'
              (omega (arith, some_byte, in_bounds, length-drop n buf in_bounds)),
        )
    | inr (s, k) ↦ λ p. ground (arith, handle_message-Ends clock m task)
  ]
  | inr (inr (s, e)) ↦ λ p. ground (arith, decode_message-Ends buf)
]

pub logon_loop-Ends :
    (clock : ℕ → ℕ) (fuel : ℕ) (buf : Bytes) (task : FixTask)
    → length buf < fuel
    → Ends (logon_loop clock fuel buf task)
unfolding logon_loop
logon_loop-Ends clock zero buf task h = absurd (omega arith)
logon_loop-Ends clock (suc fuel) buf task h = elim (decoded (decode_message buf)) [
  | inl e ↦ λ p. ground arith
  | inr (inl (m, n, e)) ↦
      let (some_byte, in_bounds) = decode_message_consumed buf m n e in
      λ p. ground (
        arith,
        validate_inbound-Ends m task.session,
        logon_loop-Ends clock fuel (drop n buf) task
            (omega (arith, some_byte, in_bounds, length-drop n buf in_bounds)),
      )
  | inr (inr (s, e)) ↦ λ p. ground (arith, decode_message-Ends buf)
]
