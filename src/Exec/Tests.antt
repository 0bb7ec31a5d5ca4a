-- ===== src/Exec/Tests.antt =====
-- Runs and theorems of crates/kalshi-exec at concrete orders and fills.
use predigy.Prelude.{◌≡◌, refl, true, false, none, some, [], ◌∷◌, arith}
use predigy.Core.{Side, Action, position_key, from_cents, OrderType, TimeInForce, Order, Fill}
use predigy.Exec.{
  MapError, OrderSideV2, TimeInForceV2, SelfTradePreventionV2, format_cents_to_dollars,
  map_side_action, map_tif, yes_equiv_cents, order_to_create_request, FillRecord, ticker_str,
  parse_count_fp, parse_price_dollars, parse_dollars_to_cents, wrap_i64, event_ts, fill_to_domain,
  count_out_of_range, count_is_zero, price_not_in_range, Tracked, no_orders, on_submit,
  lookup_terms, RestState, report, submit_rest, fill_kind, is_seen, ws_fill, Poller, poll_begin,
  poll_fill, poll_next, compute_initial_min_ts, jittered,
}
use predigy.Exec.WireLaws.{read_request, read_request-order_to_create_request}
use predigy.Exec.FillRaces.{fill_taken_once, ws_fill-submit_rest, ws_fill-poll_next}
use predigy.Prelude.Text.{Text, text, text_eq}
use predigy.Prelude.Map.{text_key, lookup, insert}
use predigy.Prelude.Int.{pos, negsuc}
use predigy.Prelude.Result.{◌>>=◌, ok, err}
use predigy.Oms.{show_u64, ExecutionReportKind}
use predigy.Fix.{parse_f64, doublings, nearest_even, halvings, nearest, hundredths, to_u8}

abbrev no_order : Order
no_order = record {
  client_id = text "arb:KX:00000007";
  market = text "KX";
  side = Side.no_side;
  action = Action.buy;
  price = 42;
  qty = 100;
  order_type = OrderType.limit;
  tif = TimeInForce.post_only;
}

-- Buying NO at 42 cents is an ask at 58 cents of YES.
wire_price_test :
    order_to_create_request no_order
    ≡ ok (record {
      ticker = text "KX";
      client_order_id = text "arb:KX:00000007";
      side = OrderSideV2.ask;
      action = Action.buy;
      count = text "100.00";
      price = text "0.5800";
      time_in_force = TimeInForceV2.good_till_canceled;
      self_trade_prevention_type = SelfTradePreventionV2.taker_at_cross;
      post_only = some true;
      reduce_only = none;
    })
unfolding order_to_create_request map_side_action map_tif yes_equiv_cents text show_u64
    format_cents_to_dollars
wire_price_test = refl

count_half : parse_count_fp (text "2.5") ≡ ok 3
unfolding parse_count_fp parse_f64 nearest doublings halvings nearest_even text
count_half = refl

count_small : parse_count_fp (text "0.4") ≡ err (count_out_of_range (text "0.4"))
unfolding parse_count_fp parse_f64 nearest doublings halvings nearest_even text
count_small = refl

count_nan : parse_count_fp (text "nan") ≡ err (count_is_zero (text "nan"))
unfolding parse_count_fp parse_f64 nearest doublings halvings nearest_even text
count_nan = refl

count_huge : parse_count_fp (text "1e400") ≡ err (count_out_of_range (text "1e400"))
unfolding parse_count_fp parse_f64 nearest doublings halvings nearest_even text
count_huge = refl

settled_price : parse_price_dollars (text "1.00") ≡ err (price_not_in_range (text "1.00"))
unfolding parse_price_dollars parse_f64 to_u8 from_cents nearest doublings halvings nearest_even
    text
settled_price = refl

fee_cents_test : parse_dollars_to_cents (text "0.0175") ≡ ok 2
unfolding parse_dollars_to_cents parse_f64 hundredths nearest doublings halvings nearest_even text
fee_cents_test = refl

fee_negative_zero : parse_dollars_to_cents (text "-0.001") ≡ ok 0
unfolding parse_dollars_to_cents parse_f64 hundredths nearest doublings halvings nearest_even text
fee_negative_zero = refl

time_wraps : wrap_i64 (pos 9223372036854775808) ≡ negsuc 9223372036854775807
time_wraps = refl

first_min_ts : compute_initial_min_ts (some 100) 60 ≡ pos 40
unfolding compute_initial_min_ts
first_min_ts = refl

jitter_zero : jittered 0 (negsuc 4) ≡ 0
unfolding jittered
jitter_zero = refl

abbrev fill_thirty : FillRecord
fill_thirty = record {
  fill_id = text "t1";
  trade_id = some (text "t1");
  order_id = text "v1";
  market_ticker = some (text "KX");
  ticker = none;
  side = text "yes";
  action = [];
  count_fp = text "30.00";
  yes_price_dollars = text "0.5800";
  no_price_dollars = text "0.4200";
  is_taker = some true;
  fee_cost = none;
  ts = some (pos 1700000000);
  ts_ms = none;
}

abbrev thirty : Fill
thirty = record {
  order_id = text "v1";
  market = text "KX";
  side = Side.no_side;
  action = Action.buy;
  price = 42;
  qty = 30;
  is_maker = false;
  fee_cents = 0;
  ts_ms = 1700000000000;
}

fill_thirty_test : fill_to_domain fill_thirty Side.no_side Action.buy ≡ ok thirty
unfolding fill_to_domain parse_count_fp parse_price_dollars parse_f64 to_u8 from_cents nearest
    doublings halvings nearest_even text event_ts ticker_str
fill_thirty_test = refl

abbrev started : RestState
started = record { orders = no_orders; seen_fills = []; sent = []; report_open = true }

-- The order is tracked under v1, with 100 to fill.
abbrev submitted : RestState
submitted = record started {
  orders =
      on_submit no_order.client_id (text "v1") no_order.qty no_order.side no_order.action no_orders;
}

abbrev entry : Tracked
entry = record {
  cid = text "arb:KX:00000007";
  venue_id = text "v1";
  target = 100;
  cumulative = 0;
  side = Side.no_side;
  action = Action.buy;
}

abbrev poller : Poller
poller = record { min_ts = pos 40; max_ts_seen = pos 40; newest_fills = [] }

abbrev show_any : MapError → Text
show_any e = text "error"

read_request-order_to_create_request_example :
    order_to_create_request no_order >>= read_request ≡ ok no_order
read_request-order_to_create_request_example =
    read_request-order_to_create_request no_order refl
      (record { at_least = omega arith; at_most = omega arith })
      (record { positive = omega arith; fits = omega arith })

fill_taken_once_example :
    (ws_fill (pos 8) fill_thirty (ws_fill (pos 7) fill_thirty submitted).1
      ≡ (true, (ws_fill (pos 7) fill_thirty submitted).1))
    × (ws_fill (pos 8) fill_thirty (poll_fill (pos 7) fill_thirty submitted).1
        ≡ (true, (poll_fill (pos 7) fill_thirty submitted).1))
    × (poll_begin (fill_thirty ∷ []) (ws_fill (pos 7) fill_thirty submitted).1 poller
        ≡ poll_begin [] (ws_fill (pos 7) fill_thirty submitted).1 poller)
    × (poll_begin (fill_thirty ∷ []) (poll_fill (pos 7) fill_thirty submitted).1 poller
        ≡ poll_begin [] (poll_fill (pos 7) fill_thirty submitted).1 poller)
fill_taken_once_example = fill_taken_once (pos 7) (pos 8) fill_thirty [] submitted poller refl

ws_fill-poll_next_example :
    (poll_next
      (pos 8)
      (ws_fill (pos 7) fill_thirty submitted).1
      (poll_begin (fill_thirty ∷ []) submitted poller)).1.sent
    ≡ report (text "arb:KX:00000007") (pos 7) (ExecutionReportKind.partially_filled thirty 30)
      ∷ report (text "arb:KX:00000007") (pos 8) (ExecutionReportKind.partially_filled thirty 60)
      ∷ []
unfolding is_seen on_submit text fill_kind lookup insert no_orders text_eq
ws_fill-poll_next_example =
    ws_fill-poll_next (pos 7) (pos 8) fill_thirty submitted poller (text "arb:KX:00000007") entry
      thirty refl refl refl refl fill_thirty_test refl

ws_fill-submit_rest_example :
    let early = (ws_fill (pos 7) fill_thirty started).1 in
    let late = (submit_rest show_any (λ req. ok (text "v1")) (pos 8) no_order early).1 in
    (late.sent ≡ report no_order.client_id (pos 8) (ExecutionReportKind.acked (text "v1")) ∷ [])
    × (lookup_terms (text "v1") late.orders ≡ some (Side.no_side, Action.buy))
    × (ws_fill (pos 8) fill_thirty late ≡ (true, late))
    × (poll_begin (fill_thirty ∷ []) late poller ≡ poll_begin [] late poller)
unfolding lookup_terms text lookup no_orders
ws_fill-submit_rest_example =
    ws_fill-submit_rest show_any (pos 7) (pos 8) no_order fill_thirty [] started poller refl refl
      refl
