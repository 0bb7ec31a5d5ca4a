-- ===== src/Exec/WireLaws.antt =====
-- crates/kalshi-exec/src/mapping.rs: a request says what its order says.
use predigy.Prelude.{
  ◌==◌, if◌then◌else◌, passes_until, passes_until_lem, ℕ, ◌-◌, ◌≤◌, ◌≡◌, refl, Bool, true, false,
  Option, some, arith,
}
use predigy.Core.{
  Side, Action, position_key, Price, from_cents, IsPrice, IsQty, OrderType, TimeInForce, Order,
}
use predigy.Exec.{
  MapError, OrderSideV2, TimeInForceV2, CreateOrderRequest, format_cents_to_dollars,
  map_side_action, map_tif, yes_equiv_cents, order_to_create_request, parse_count_fp,
  parse_price_dollars, good_till_canceled, immediate_or_cancel, fill_or_kill,
}
use predigy.Prelude.Map.{text_key}
use predigy.Prelude.Result.{Result, ◌>>=◌, ok, err}
use predigy.Oms.{show_u64}
use predigy.Fix.{parse_f64, doublings, nearest_even, halvings, to_u8}
use predigy.Exec.CountLaws.{parse_count_fp-show_u64}

-- The order that a request means: the side from the book's side and the action, and the price of
-- NO at a hundred less the price of YES.
unfoldable pub wire_order_side : OrderSideV2 → Action → Side
wire_order_side OrderSideV2.bid Action.buy = Side.yes_side
wire_order_side OrderSideV2.bid Action.sell = Side.no_side
wire_order_side OrderSideV2.ask Action.buy = Side.no_side
wire_order_side OrderSideV2.ask Action.sell = Side.yes_side

unfoldable pub wire_order_tif : TimeInForceV2 → Option Bool → TimeInForce
wire_order_tif good_till_canceled (some true) = TimeInForce.post_only
wire_order_tif good_till_canceled _ = TimeInForce.gtc
wire_order_tif immediate_or_cancel _ = TimeInForce.ioc
wire_order_tif fill_or_kill _ = TimeInForce.fok

unfoldable pub leg_price : Side → ℕ → Price
leg_price Side.yes_side cents = cents
leg_price Side.no_side cents = 100 - cents

unfoldable pub read_request : CreateOrderRequest → Result Order MapError
unfolding wire_order_side wire_order_tif leg_price
read_request req = do
  qty ← parse_count_fp req.count
  cents ← parse_price_dollars req.price
  ok (record {
    client_id = req.client_order_id;
    market = req.ticker;
    side = wire_order_side req.side req.action;
    action = req.action;
    price = leg_price (wire_order_side req.side req.action) cents;
    qty = qty;
    order_type = OrderType.limit;
    tif = wire_order_tif req.time_in_force req.post_only;
  })

abbrev reads_as : Result ℕ MapError → ℕ → Bool
reads_as (ok d) c = d == c
reads_as (err e) c = false

reads_as_lem : (r : Result ℕ MapError) (c : ℕ) → reads_as r c ≡ true → r ≡ ok c
reads_as_lem (ok d) c h = ground arith
reads_as_lem (err e) c h = ground arith

price_reads : ℕ → Bool
price_reads c =
    if c == 0 then true else reads_as (parse_price_dollars (format_cents_to_dollars c)) c

price_reads_all : passes_until price_reads 100 ≡ true
unfolding price_reads passes_until parse_price_dollars parse_f64 to_u8 from_cents
    format_cents_to_dollars doublings halvings nearest_even show_u64
price_reads_all = refl

price_reads_lem :
    (c : ℕ) → 1 ≤ c → price_reads c ≡ true → parse_price_dollars (format_cents_to_dollars c) ≡ ok c
unfolding price_reads
price_reads_lem c h t = reads_as_lem _ c (ground arith)

parse_price_dollars-format_cents_to_dollars :
    (c : ℕ) → IsPrice c → parse_price_dollars (format_cents_to_dollars c) ≡ ok c
parse_price_dollars-format_cents_to_dollars c h =
    price_reads_lem c h.at_least
      (passes_until_lem price_reads 100 c (omega (arith, h.at_most)) price_reads_all)

wire_order_side-map_side_action :
    (side : Side) (action : Action)
    → wire_order_side (map_side_action side action).0 (map_side_action side action).1 ≡ side
unfolding wire_order_side map_side_action
wire_order_side-map_side_action Side.yes_side Action.buy = refl
wire_order_side-map_side_action Side.yes_side Action.sell = refl
wire_order_side-map_side_action Side.no_side Action.buy = refl
wire_order_side-map_side_action Side.no_side Action.sell = refl

map_side_action_keeps : (side : Side) (action : Action) → (map_side_action side action).1 ≡ action
unfolding map_side_action
map_side_action_keeps Side.yes_side Action.buy = refl
map_side_action_keeps Side.yes_side Action.sell = refl
map_side_action_keeps Side.no_side Action.buy = refl
map_side_action_keeps Side.no_side Action.sell = refl

wire_order_tif-map_tif : (tif : TimeInForce) → wire_order_tif (map_tif tif).0 (map_tif tif).1 ≡ tif
unfolding wire_order_tif map_tif
wire_order_tif-map_tif TimeInForce.gtc = refl
wire_order_tif-map_tif TimeInForce.ioc = refl
wire_order_tif-map_tif TimeInForce.fok = refl
wire_order_tif-map_tif TimeInForce.post_only = refl

yes_equiv_cents-IsPrice :
    (side : Side) (price : Price)
    → IsPrice price
    → IsPrice (yes_equiv_cents side price) × (leg_price side (yes_equiv_cents side price) ≡ price)
unfolding yes_equiv_cents leg_price
yes_equiv_cents-IsPrice Side.yes_side price h = (h, refl)
yes_equiv_cents-IsPrice Side.no_side price h = ground arith

-- A limit order is what its request reads as: market, client id, side, action, price, quantity and
-- time in force. The price is from 1 to 99 cents, the quantity at least 1 and a `u32`.
pub read_request-order_to_create_request :
    (order : Order)
    → order.order_type ≡ OrderType.limit
    → IsPrice order.price
    → IsQty order.qty
    → order_to_create_request order >>= read_request ≡ ok order
unfolding order_to_create_request read_request
read_request-order_to_create_request order l hp hq =
    let (leg, back) = yes_equiv_cents-IsPrice order.side order.price hp in
    rw
      (
        l,
        parse_count_fp-show_u64 order.qty hq.positive hq.fits,
        parse_price_dollars-format_cents_to_dollars (yes_equiv_cents order.side order.price) leg,
        wire_order_side-map_side_action order.side order.action,
        map_side_action_keeps order.side order.action,
        wire_order_tif-map_tif order.tif,
        back,
      )
      refl
