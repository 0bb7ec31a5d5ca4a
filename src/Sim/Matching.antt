-- ===== src/Sim/Matching.antt =====
-- crates/sim/src/matching.rs: an immediate order against the touch of a book.
use predigy.Prelude.{ltb, ◌==◌, if◌then◌else◌, ℕ, ◌-◌, min, Bool, false, ◌||◌, Option, none, some}
use predigy.Book.{OrderBook, best_yes_bid, best_no_bid, apply_delta}
use predigy.Core.Fees.{taker_fee}
use predigy.Sim.Queue.{stamp}
use predigy.Core.{Side, Action, position_key, Price, from_cents, Order, Fill}
use predigy.Prelude.Map.{text_key}
use predigy.Prelude.Word.{i32_max, add64}
use predigy.Prelude.Int.{ℤ, ◌-ℤ◌, pos}
use predigy.Prelude.Text.{Text, text}
use predigy.Prelude.Result.{ok, err}

pub data Match : Type 0 where
  filled : Fill → (cumulative_qty : ℕ) → (terminal : Bool) → Match
  no_liquidity : Match
  unsupported : Text → Match

abbrev pub next_seq : Option ℕ → ℕ
next_seq none = 0
next_seq (some s) = add64 s 1

-- `-i32::try_from(n).unwrap_or(i32::MAX)`.
abbrev pub negated_i32 : ℕ → ℤ
negated_i32 n = pos 0 -ℤ pos (min n i32_max)

-- The synthetic delta and its application; the outcome is not looked at.
unfoldable pub consume : OrderBook → Order → Side → Price → ℕ → OrderBook
consume book order consumed_side consumed_price consumed_qty =
    (apply_delta book (record {
      market = order.market;
      seq = next_seq book.last_seq;
      side = consumed_side;
      price = consumed_price;
      qty_delta = negated_i32 consumed_qty;
    })).0

-- `none` is the panic of the fee computation.
unfoldable pub synth_fill : Order → Price → ℕ → ℤ → Option Fill
synth_fill order fill_price fill_qty now_ms = elim (taker_fee fill_price fill_qty) [
  | none ↦ none
  | some fee ↦ some (record {
    order_id = order.client_id;
    market = order.market;
    side = order.side;
    action = order.action;
    price = fill_price;
    qty = fill_qty;
    is_maker = false;
    fee_cents = fee;
    ts_ms = stamp now_ms;
  })
]

-- The end of both buys, once the price and the quantity are known.
unfoldable pub fill_at :
    OrderBook → Order → ℤ → Side → (level ask : Price) → ℕ → Option (OrderBook × Match)
unfolding consume synth_fill
fill_at book order now_ms consumed_side level ask fill_qty =
    elim (synth_fill order ask fill_qty now_ms) [
      | none ↦ none
      | some fill ↦ some (
        consume book order consumed_side level fill_qty,
        Match.filled fill fill_qty (fill_qty == order.qty),
      )
    ]

-- `match_buy_yes` and `match_buy_no`, which differ in the side of the book: the touch of the other
-- side, its complement as the ask, the tests of the limit, of the price and of the quantity.
unfoldable pub match_touch :
    OrderBook → Order → ℤ → Side → Option (Price × ℕ) → Option (OrderBook × Match)
unfolding fill_at
match_touch book order now_ms consumed_side none = some (book, Match.no_liquidity)
match_touch book order now_ms consumed_side (some (level, available)) =
    let ask = 100 - level in
    let fill_qty = min order.qty available in
    if ltb 100 level || ltb order.price ask
    then some (book, Match.no_liquidity)
    else elim (from_cents ask) [
      | err _ ↦ some (book, Match.no_liquidity)
      | ok fill_price ↦
          if fill_qty == 0
          then some (book, Match.no_liquidity)
          else fill_at book order now_ms consumed_side level fill_price fill_qty
    ]

abbrev pub sells_unsupported : Text
sells_unsupported =
    text "sim does not match sells; strategies should use buy-of-opposite-side instead"

abbrev pub match_by : Side → Action → OrderBook → Order → ℤ → Option (OrderBook × Match)
match_by Side.yes_side Action.buy book order now_ms =
    match_touch book order now_ms Side.no_side (best_no_bid book)
match_by Side.no_side Action.buy book order now_ms =
    match_touch book order now_ms Side.yes_side (best_yes_bid book)
match_by _ Action.sell book order now_ms = some (book, Match.unsupported sells_unsupported)

-- The book and the match; `none` is a panic.
unfoldable pub match_ioc : OrderBook → Order → ℤ → Option (OrderBook × Match)
match_ioc book order now_ms = match_by order.side order.action book order now_ms
