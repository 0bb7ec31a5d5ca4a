-- ===== src/Exec/Mapping.antt =====
-- crates/kalshi-exec/src/mapping.rs with error.rs, and the request and fill types of
-- crates/kalshi-rest/src/types.rs: orders to the wire, fills from it.
use predigy.Prelude.{
  ltb, if◌then◌else◌, unwrap_or, ℕ, ◌-◌, ◌/◌, ◌%◌, min, Bool, true, false, ◌&&◌, ◌||◌, not, Option,
  none, some, [], ◌∷◌, ◌++◌,
}
use predigy.Prelude.Text.{Text, text}
use predigy.Prelude.Word.{u32_max, u64_max, u64_mod, i32_max}
use predigy.Prelude.Int.{ℤ, pos_part, ◌*ℤ◌, pos, negsuc}
use predigy.Prelude.Result.{Result, ◌>>=◌, ok, err}
use predigy.Core.{
  Side, Action, position_key, Price, from_cents, Qty, OrderType, TimeInForce, Order, Fill,
}
use predigy.Oms.{show_u64}
use predigy.Fix.{show_wide, parse_f64, nearest, rounded, hundredths, to_u8, nan, infinite, decimal}
use predigy.Prelude.Map.{text_key}

-- `Rest` wraps an error of the client. What a `Decode` message says is told by its constructor.
pub data MapError : Type 0 where
  rest : Text → MapError
  unsupported_order : Text → MapError
  count_not_a_number : Text → MapError
  count_out_of_range : Text → MapError
  count_is_zero : Text → MapError
  price_not_a_number : Text → MapError
  price_out_of_u8 : Text → MapError
  price_not_in_range : Text → MapError
  fee_not_a_number : Text → MapError
  fee_negative : Text → MapError

pub data OrderSideV2 : Type 0 where
  bid : OrderSideV2
  ask : OrderSideV2

pub data TimeInForceV2 : Type 0 where
  good_till_canceled : TimeInForceV2
  immediate_or_cancel : TimeInForceV2
  fill_or_kill : TimeInForceV2

pub data SelfTradePreventionV2 : Type 0 where
  taker_at_cross : SelfTradePreventionV2
  maker : SelfTradePreventionV2

-- `OrderAction` has the constructors of `Action`.
pub record CreateOrderRequest : Type 0 where
  pub ticker : Text
  pub client_order_id : Text
  pub side : OrderSideV2
  pub action : Action
  pub count : Text
  pub price : Text
  pub time_in_force : TimeInForceV2
  pub self_trade_prevention_type : SelfTradePreventionV2
  pub post_only : Option Bool
  pub reduce_only : Option Bool

unfoldable pub format_cents_to_dollars : ℕ → Text
unfolding show_wide
format_cents_to_dollars cents =
    show_u64 (cents / 100) ++ (b'.' ∷ show_wide 2 (cents % 100) ++ (b'0' ∷ b'0' ∷ []))

unfoldable pub map_side_action : Side → Action → OrderSideV2 × Action
map_side_action Side.yes_side Action.buy = (OrderSideV2.bid, Action.buy)
map_side_action Side.no_side Action.sell = (OrderSideV2.bid, Action.sell)
map_side_action Side.yes_side Action.sell = (OrderSideV2.ask, Action.sell)
map_side_action Side.no_side Action.buy = (OrderSideV2.ask, Action.buy)

unfoldable pub map_tif : TimeInForce → TimeInForceV2 × Option Bool
map_tif TimeInForce.gtc = (TimeInForceV2.good_till_canceled, none)
map_tif TimeInForce.ioc = (TimeInForceV2.immediate_or_cancel, none)
map_tif TimeInForce.fok = (TimeInForceV2.fill_or_kill, none)
map_tif TimeInForce.post_only = (TimeInForceV2.good_till_canceled, some true)

-- `saturating_sub` on a `u8` is the subtraction of ℕ.
unfoldable pub yes_equiv_cents : Side → Price → ℕ
yes_equiv_cents Side.yes_side price = price
yes_equiv_cents Side.no_side price = 100 - price

unfoldable pub order_to_create_request : Order → Result CreateOrderRequest MapError
order_to_create_request order = elim order.order_type [
  | OrderType.market ↦ err (
      unsupported_order
        (text "Kalshi V2 only accepts limit orders; map market intents to IOC at the worst price"))
  | OrderType.limit ↦
      let (side, action) = map_side_action order.side order.action in
      let (tif, post_only) = map_tif order.tif in
      ok (record {
        ticker = order.market;
        client_order_id = order.client_id;
        side = side;
        action = action;
        count = show_u64 order.qty ++ text ".00";
        price = format_cents_to_dollars (yes_equiv_cents order.side order.price);
        time_in_force = tif;
        self_trade_prevention_type = SelfTradePreventionV2.taker_at_cross;
        post_only = post_only;
        reduce_only = none;
      })
]

pub record FillRecord : Type 0 where
  pub fill_id : Text
  pub trade_id : Option Text
  pub order_id : Text
  pub market_ticker : Option Text
  pub ticker : Option Text
  pub side : Text
  pub action : Text
  pub count_fp : Text
  pub yes_price_dollars : Text
  pub no_price_dollars : Text
  pub is_taker : Option Bool
  pub fee_cost : Option Text
  pub ts : Option ℤ
  pub ts_ms : Option ℤ

unfoldable pub ticker_str : FillRecord → Text
ticker_str r = elim r.market_ticker [ some t ↦ t | none ↦ unwrap_or r.ticker [] ]

-- The number of contracts, between 1 and the largest `u32`; a NaN passes both tests and becomes 0.
unfoldable pub parse_count_fp : Text → Result Qty MapError
parse_count_fp s = elim (parse_f64 s) [
  | none ↦ err (count_not_a_number s)
  | some nan ↦ err (count_is_zero s)
  | some (infinite negative) ↦ err (count_out_of_range s)
  | some (decimal negative a b) ↦ elim (rounded (nearest a b)) [
    | none ↦ err (count_out_of_range s)
    | some n ↦ if negative || ltb n 1 || ltb u32_max n then err (count_out_of_range s) else ok n
  ]
]

unfoldable pub parse_price_dollars : Text → Result Price MapError
parse_price_dollars s = elim (parse_f64 s) [
  | none ↦ err (price_not_a_number s)
  | some x ↦ elim (to_u8 x) [
    | none ↦ err (price_out_of_u8 s)
    | some c ↦ elim (from_cents c) [ ok p ↦ ok p | err e ↦ err (price_not_in_range s) ]
  ]
]

-- `as i32` stops at the largest `i32`.
unfoldable pub parse_dollars_to_cents : Text → Result ℕ MapError
unfolding parse_f64 hundredths
parse_dollars_to_cents s = elim (parse_f64 s) [
  | none ↦ err (fee_not_a_number s)
  | some nan ↦ ok 0
  | some (infinite negative) ↦ if negative then err (fee_negative s) else ok i32_max
  | some (decimal negative a b) ↦
      let cents = unwrap_or (hundredths a b) i32_max in
      if negative && ltb 0 cents then err (fee_negative s) else ok (min cents i32_max)
]

-- An `i64` from its 64 bits, and a number cut to them.
abbrev from_bits : ℕ → ℤ
from_bits b = if ltb b 9223372036854775808 then pos b else negsuc (u64_max - b)

abbrev pub wrap_i64 : ℤ → ℤ
wrap_i64 (pos n) = from_bits (n % u64_mod)
wrap_i64 (negsuc n) = from_bits (u64_max - n % u64_mod)

-- The time of a fill in milliseconds.
unfoldable pub event_ts : FillRecord → ℤ
unfolding ◌*ℤ◌
event_ts r = elim r.ts_ms [ some t ↦ t | none ↦ wrap_i64 (unwrap_or r.ts (pos 0) *ℤ pos 1000) ]

abbrev fee_of : Option Text → Result ℕ MapError
fee_of none = ok 0
fee_of (some s) = parse_dollars_to_cents s

abbrev price_leg : Side → FillRecord → Text
price_leg Side.yes_side r = r.yes_price_dollars
price_leg Side.no_side r = r.no_price_dollars

-- `u64::try_from(ts_ms).unwrap_or(0)` is the part above zero.
unfoldable pub fill_to_domain : FillRecord → Side → Action → Result Fill MapError
unfolding parse_count_fp parse_price_dollars event_ts ticker_str
fill_to_domain r side action = do
  qty ← parse_count_fp r.count_fp
  price ← parse_price_dollars (price_leg side r)
  fee ← fee_of r.fee_cost
  ok (record {
    order_id = r.order_id;
    market = ticker_str r;
    side = side;
    action = action;
    price = price;
    qty = qty;
    is_maker = not (unwrap_or r.is_taker false);
    fee_cents = fee;
    ts_ms = pos_part (event_ts r);
  })
