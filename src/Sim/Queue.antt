-- ===== src/Sim/Queue.antt =====
-- crates/sim/src/queue.rs: the queue position of a resting order.
use predigy.Prelude.{leb, ◌==◌, if◌then◌else◌, ℕ, ◌+◌, ◌-◌, min, Bool, true, Option, none, some}
use predigy.Core.Fees.{maker_fee}
use predigy.Core.{Side, Action, MarketTicker, side_eq, position_key, Price, OrderId, Order, Fill}
use predigy.Prelude.Map.{text_key}
use predigy.Prelude.Word.{saturating_add32}
use predigy.Prelude.Int.{ℤ, pos, negsuc}

pub record RestingOrder : Type 0 where
  pub cid : OrderId
  pub market : MarketTicker
  pub side : Side
  pub price : Price
  pub qty : ℕ
  pub queue_ahead : ℕ
  pub cumulative_consumed : ℕ
  pub cumulative_filled : ℕ

unfoldable pub from_order : Order → ℕ → RestingOrder
from_order o queue_ahead = record {
  cid = o.client_id;
  market = o.market;
  side = o.side;
  price = o.price;
  qty = o.qty;
  queue_ahead = queue_ahead;
  cumulative_consumed = 0;
  cumulative_filled = 0;
}

abbrev pub is_done : RestingOrder → Bool
is_done r = leb r.qty r.cumulative_filled

abbrev pub remaining : RestingOrder → ℕ
remaining r = r.qty - r.cumulative_filled

-- `ts_ms` is an `i64`.
pub record TradePulse : Type 0 where
  pub taker_side : Side
  pub yes_price : Price
  pub no_price : Price
  pub count : ℕ
  pub ts_ms : ℤ

pub record QueueAdvance : Type 0 where
  pub new_cumulative_consumed : ℕ
  pub fill_qty : ℕ
  pub terminal : Bool

abbrev pub level_price : Side → TradePulse → Price
level_price Side.yes_side t = t.yes_price
level_price Side.no_side t = t.no_price

-- The rest of `apply_trade`, for a trade that hits the order's level.
unfoldable pub consume_level : RestingOrder → TradePulse → RestingOrder × QueueAdvance
consume_level r t =
    let consumed = saturating_add32 r.cumulative_consumed t.count in
    let past_us_before = r.cumulative_consumed - r.queue_ahead in
    let past_us_after = consumed - r.queue_ahead in
    let fill_qty = min (past_us_after - past_us_before) (remaining r) in
    let r' = record r {
      cumulative_consumed = consumed;
      cumulative_filled = r.cumulative_filled + fill_qty;
    } in
    (r', record { new_cumulative_consumed = consumed; fill_qty = fill_qty; terminal = is_done r' })

unfoldable pub apply_trade : RestingOrder → TradePulse → RestingOrder × Option QueueAdvance
unfolding consume_level
apply_trade r t =
    let (r', advance) = consume_level r t in
    if t.count == 0
    then (r, none)
    else if side_eq t.taker_side r.side
    then (r, none)
    else if level_price r.side t == r.price
    then (r', some advance)
    else (r, none)

-- `u64::try_from(ts_ms).unwrap_or(0)`.
abbrev pub stamp : ℤ → ℕ
stamp (pos n) = n
stamp (negsuc _) = 0

-- The fill of an advance; the outer `none` is a panic of the fee computation.
unfoldable pub synth_maker_fill : RestingOrder → QueueAdvance → ℤ → Option (Option Fill)
synth_maker_fill r advance ts_ms =
    if advance.fill_qty == 0 then some none else elim (maker_fee r.price advance.fill_qty) [
      | none ↦ none
      | some fee ↦ some (
          some (record {
            order_id = r.cid;
            market = r.market;
            side = r.side;
            action = Action.buy;
            price = r.price;
            qty = advance.fill_qty;
            is_maker = true;
            fee_cents = fee;
            ts_ms = stamp ts_ms;
          }))
    ]
