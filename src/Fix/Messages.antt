-- ===== src/Fix/Messages.antt =====
-- crates/kalshi-fix/src/messages.rs: the messages that the executor sends, and the reports that it
-- reads. The clock is at the epoch or after, as `now_ms` gives it.
use predigy.Prelude.{
  ltb, leb, if◌then◌else◌, unwrap_or, ℕ, ◌+◌, ◌-◌, ◌*◌, ◌/◌, ◌%◌, Bool, Option, none, some, [], ◌∷◌,
  ◌++◌,
}
use predigy.Prelude.Text.{Text, text, text_eq}
use predigy.Prelude.Word.{u32_max}
use predigy.Prelude.Result.{Result, ◌>>=◌, ok, err}
use predigy.Core.{Action, MarketTicker, position_key, OrderId, TimeInForce, Order}
use predigy.Oms.{show_u64}
use predigy.Fix.Frames.{
  Stop, fails, ok_or, FieldList, get, require, parse_up_to, show_wide, malformed_tag, unsupported,
}
use predigy.Fix.Floats.{show_dollars, parse_price_cents}
use predigy.Fix.Tags.{
  msg_type, msg_seq_num, sender_comp_id_tag, target_comp_id_tag, sending_time, encrypt_method,
  heart_bt_int, test_req_id, reset_seq_num_flag, cl_ord_id, orig_cl_ord_id, symbol_tag, side_tag,
  transact_time, order_qty, ord_type, price_tag, time_in_force, order_id_tag, ord_status, cum_qty,
  last_qty, last_px, leaves_qty, text_tag, side_buy, side_sell, ord_type_limit, tif_gtc, tif_ioc,
  tif_fok, msg_type_heartbeat, msg_type_logon, msg_type_new_order_single,
  msg_type_order_cancel_request, ord_status_new, ord_status_partially_filled, ord_status_filled,
  ord_status_canceled, ord_status_rejected,
}

pub record UtcTime : Type 0 where
  pub year : ℕ
  pub month : ℕ
  pub day : ℕ
  pub hour : ℕ
  pub minute : ℕ
  pub second : ℕ

-- The day of the era that starts on 1 March, as year, month and day.
unfoldable pub civil_date : (days : ℕ) → ℕ × ℕ × ℕ
civil_date days =
    let z = days + 719468 in
    let era = z / 146097 in
    let doe = z % 146097 in
    let yoe = (doe - doe / 1460 + doe / 36524 - doe / 146096) / 365 in
    let y_ish = yoe + era * 400 in
    let doy = doe - (365 * yoe + yoe / 4 - yoe / 100) in
    let mp = (5 * doy + 2) / 153 in
    let d = doy - (153 * mp + 2) / 5 + 1 in
    let m = if ltb mp 10 then mp + 3 else mp - 9 in (if leb m 2 then y_ish + 1 else y_ish, m, d)

unfoldable pub decompose_unix_secs : ℕ → UtcTime
unfolding civil_date
decompose_unix_secs secs =
    let day_seconds = secs % 86400 in
    let (y, m, d) = civil_date (secs / 86400) in
    record {
      year = y;
      month = m;
      day = d;
      hour = day_seconds / 3600;
      minute = day_seconds % 3600 / 60;
      second = day_seconds % 60;
    }

unfoldable pub ts_field : ℕ → Text
unfolding decompose_unix_secs show_wide
ts_field now_ms =
    let t = decompose_unix_secs (now_ms / 1000) in
    show_wide 4 t.year
    ++ (show_wide 2 t.month
        ++ (show_wide 2 t.day
            ++ (b'-' ∷ show_wide 2 t.hour
                ++ (b':' ∷ show_wide 2 t.minute
                    ++ (b':' ∷ show_wide 2 t.second ++ (b'.' ∷ show_wide 3 (now_ms % 1000)))))))

-- The five fields that open every message.
abbrev opening : Text → Text → Text → ℕ → ℕ → FieldList
opening kind sender target seq_num now_ms =
    (msg_type, kind)
    ∷ (sender_comp_id_tag, sender)
    ∷ (target_comp_id_tag, target)
    ∷ (msg_seq_num, show_u64 seq_num)
    ∷ (sending_time, ts_field now_ms)
    ∷ []

unfoldable pub build_logon : Text → Text → ℕ → ℕ → Bool → FieldList → ℕ → FieldList
build_logon sender target seq_num heartbeat_secs reset_seq_num auth_extras now_ms =
    opening msg_type_logon sender target seq_num now_ms
    ++ ((encrypt_method, text "0")
        ∷ (heart_bt_int, show_u64 heartbeat_secs)
        ∷ (if reset_seq_num then (reset_seq_num_flag, text "Y") ∷ auth_extras else auth_extras))

unfoldable pub build_heartbeat : Text → Text → ℕ → Option Text → ℕ → FieldList
build_heartbeat sender target seq_num test_id now_ms =
    opening msg_type_heartbeat sender target seq_num now_ms
    ++ (elim test_id [ none ↦ [] | some id ↦ (test_req_id, id) ∷ [] ])

abbrev pub side_code : Action → Text
side_code Action.buy = side_buy
side_code Action.sell = side_sell

unfoldable pub tif_code : TimeInForce → Result Text Stop
tif_code TimeInForce.gtc = ok tif_gtc
tif_code TimeInForce.ioc = ok tif_ioc
tif_code TimeInForce.fok = ok tif_fok
tif_code TimeInForce.post_only =
    fails (unsupported (text "post_only not yet wired through FIX (use REST for PostOnly)"))

unfoldable pub build_new_order_single : Text → Text → ℕ → Order → ℕ → Result FieldList Stop
unfolding tif_code
build_new_order_single sender target seq_num order now_ms = do
  tif ← tif_code order.tif
  ok (
      opening msg_type_new_order_single sender target seq_num now_ms
      ++ ((cl_ord_id, order.client_id)
          ∷ (symbol_tag, order.market)
          ∷ (side_tag, side_code order.action)
          ∷ (transact_time, ts_field now_ms)
          ∷ (order_qty, show_u64 order.qty)
          ∷ (ord_type, ord_type_limit)
          ∷ (price_tag, show_dollars order.price)
          ∷ (time_in_force, tif)
          ∷ []))

unfoldable pub build_order_cancel_request :
    Text → Text → ℕ → Text → OrderId → MarketTicker → Action → ℕ → FieldList
build_order_cancel_request sender target seq_num cancel_cid orig_cid market action now_ms =
    opening msg_type_order_cancel_request sender target seq_num now_ms
    ++ ((orig_cl_ord_id, orig_cid)
        ∷ (cl_ord_id, cancel_cid)
        ∷ (symbol_tag, market)
        ∷ (side_tag, side_code action)
        ∷ (transact_time, ts_field now_ms)
        ∷ [])

pub data ExecKind : Type 0 where
  new : ExecKind
  partially_filled : ExecKind
  filled : ExecKind
  cancelled : ExecKind
  rejected : ExecKind
  other : Text → ExecKind

pub record ParsedExecutionReport : Type 0 where
  pub order_cid : Text
  pub venue_order_id : Text
  pub exec_kind : ExecKind
  pub cumulative : ℕ
  pub last_quantity : Option ℕ
  pub last_px_cents : Option ℕ
  pub leaves : Option ℕ
  pub reason : Option Text

unfoldable pub exec_kind_of : Text → ExecKind
exec_kind_of s =
    if text_eq s ord_status_new
    then ExecKind.new
    else if text_eq s ord_status_partially_filled
    then ExecKind.partially_filled
    else if text_eq s ord_status_filled
    then ExecKind.filled
    else if text_eq s ord_status_canceled
    then ExecKind.cancelled
    else if text_eq s ord_status_rejected
    then ExecKind.rejected
    else ExecKind.other s

-- An optional field: absent, or parsed.
unfoldable pub optional : (Text → Result ℕ Stop) → ℕ → FieldList → Result (Option ℕ) Stop
optional read tag fields = elim (get tag fields) [
  | none ↦ ok none
  | some s ↦ elim (read s) [ ok n ↦ ok (some n) | err e ↦ err e ]
]

abbrev pub read_u32 : ℕ → Text → Result ℕ Stop
read_u32 tag s = ok_or (parse_up_to u32_max s) (malformed_tag tag s)

unfoldable pub parse_execution_report : FieldList → Result ParsedExecutionReport Stop
parse_execution_report fields = do
  cid ← require cl_ord_id (text "8") fields
  venue_id ← require order_id_tag (text "8") fields
  status ← require ord_status (text "8") fields
  cum ← optional (read_u32 cum_qty) cum_qty fields
  last ← optional (read_u32 last_qty) last_qty fields
  px ← optional (λ s. parse_price_cents s last_px) last_px fields
  left ← optional (read_u32 leaves_qty) leaves_qty fields
  ok (record {
    order_cid = cid;
    venue_order_id = venue_id;
    exec_kind = exec_kind_of status;
    cumulative = unwrap_or cum 0;
    last_quantity = last;
    last_px_cents = px;
    leaves = left;
    reason = get text_tag fields;
  })
