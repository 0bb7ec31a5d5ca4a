-- ===== src/Core/Orders.antt =====
-- crates/core/src/order.rs, intent.rs, fill.rs and market.rs: orders, intents and fills.
use predigy.Prelude.{ℕ, ◌*◌, Bool}
use predigy.Prelude.Text.{Text}
use predigy.Core.Sides.{Side, Action, MarketTicker}
use predigy.Core.Prices.{Price, Qty}

abbrev pub OrderId : Type 0
OrderId = Text

pub data OrderType : Type 0 where
  limit : OrderType
  market : OrderType

pub data TimeInForce : Type 0 where
  gtc : TimeInForce
  ioc : TimeInForce
  fok : TimeInForce
  post_only : TimeInForce

pub record Order : Type 0 where
  pub client_id : OrderId
  pub market : MarketTicker
  pub side : Side
  pub action : Action
  pub price : Price
  pub qty : Qty
  pub order_type : OrderType
  pub tif : TimeInForce

pub data OrderState : Type 0 where
  pending : OrderState
  acked : OrderState
  partially_filled : OrderState
  filled : OrderState
  cancelled : OrderState
  rejected : OrderState

pub record Intent : Type 0 where
  pub market : MarketTicker
  pub side : Side
  pub action : Action
  pub price : Price
  pub qty : Qty
  pub order_type : OrderType
  pub tif : TimeInForce

abbrev pub limit_intent : MarketTicker → Side → Action → Price → Qty → Intent
limit_intent m s a p q = record {
  market = m;
  side = s;
  action = a;
  price = p;
  qty = q;
  order_type = OrderType.limit;
  tif = TimeInForce.gtc;
}

-- The factors are a `u8` and a `u32`, so the product fits a `u64`.
unfoldable pub intent_notional_cents : Intent → ℕ
intent_notional_cents i = i.price * i.qty

abbrev pub with_tif : Intent → TimeInForce → Intent
with_tif i tif = record i { tif = tif }

abbrev pub with_order_type : Intent → OrderType → Intent
with_order_type i order_type = record i { order_type = order_type }

pub record Fill : Type 0 where
  pub order_id : OrderId
  pub market : MarketTicker
  pub side : Side
  pub action : Action
  pub price : Price
  pub qty : Qty
  pub is_maker : Bool
  pub fee_cents : ℕ
  pub ts_ms : ℕ
