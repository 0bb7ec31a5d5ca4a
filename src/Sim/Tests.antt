-- ===== src/Sim/Tests.antt =====
-- Runs of crates/sim at fixed inputs.
use predigy.Prelude.{ℕ, ◌+◌, ◌≡◌, refl, true, false, some, List, [], ◌∷◌, arith}
use predigy.Book.{
  get_level, insert_level, last_level, ApplyOutcome, OrderBook, Delta, best_no_bid, apply_delta,
}
use predigy.Core.{
  Side, Action, MarketTicker, position_key, from_cents, OrderType, TimeInForce, Order, Fill,
}
use predigy.Core.Fees.{taker_fee}
use predigy.Book.Quotes.{IsBook}
use predigy.Sim.{
  from_order, TradePulse, Match, consume, synth_fill, fill_at, match_touch, match_ioc, BookStore,
  RecordedKind, RecordedEvent, ReplayUpdate, replay_all, SimExecutor, sim_venue_id, report_of,
  send_report, send_last, report_match, acknowledge, match_on, sim_submit,
}
use predigy.Sim.QueueLaws.{apply_trades, apply_trades_lem}
use predigy.Sim.FillLevels.{match_ioc_levels}
use predigy.Sim.Gaps.{match_ioc_gap}
use predigy.Prelude.Map.{text_key, lookup, insert, remove, lookup-remove}
use predigy.Prelude.Int.{◌+ℤ◌, ◌-ℤ◌, pos}
use predigy.Prelude.Text.{Text, text, text_eq}
use predigy.Oms.{digits, show_u64, show_padded, ExecutionReportKind}
use predigy.Sim.VenueLaws.{Settles, sim_submit-Settles}
use predigy.Sim.ReplayLaws.{stream_on, lookup-replay_all}

abbrev ticker : MarketTicker
ticker = 0x58 ∷ []

abbrev touch_book : OrderBook
touch_book = record {
  market = ticker;
  yes_bids = (60, 50) ∷ [];
  no_bids = (58, 10) ∷ (60, 50) ∷ [];
  last_seq = some 1;
}

touch_book-IsBook : IsBook touch_book
touch_book-IsBook = record {
  yes_ascending = (omega arith, tt);
  no_ascending = (omega arith, (omega arith, tt));
  yes_prices = (record { at_least = omega arith; at_most = omega arith }, tt);
  no_prices = (
    record { at_least = omega arith; at_most = omega arith },
    (record { at_least = omega arith; at_most = omega arith }, tt),
  );
}

abbrev buy_yes : Order
buy_yes = record {
  client_id = 0x63 ∷ [];
  market = ticker;
  side = Side.yes_side;
  action = Action.buy;
  price = 40;
  qty = 30;
  order_type = OrderType.limit;
  tif = TimeInForce.ioc;
}

abbrev fill_30 : Fill
fill_30 = record {
  order_id = 0x63 ∷ [];
  market = ticker;
  side = Side.yes_side;
  action = Action.buy;
  price = 40;
  qty = 30;
  is_maker = false;
  fee_cents = 51;
  ts_ms = 9;
}

abbrev book_after : OrderBook
book_after = record {
  market = ticker;
  yes_bids = (60, 50) ∷ [];
  no_bids = (58, 10) ∷ (60, 20) ∷ [];
  last_seq = some 2;
}

matched : match_ioc touch_book buy_yes (pos 9) ≡ some (book_after, Match.filled fill_30 30 true)
unfolding match_ioc match_touch best_no_bid last_level from_cents fill_at consume synth_fill
    taker_fee apply_delta get_level insert_level ◌+ℤ◌ ◌-ℤ◌ text_eq
matched = refl

abbrev trades : List TradePulse
trades =
    record { taker_side = Side.no_side; yes_price = 40; no_price = 60; count = 8; ts_ms = pos 1 }
    ∷ record { taker_side = Side.yes_side; yes_price = 40; no_price = 60; count = 9; ts_ms = pos 2 }
    ∷ record { taker_side = Side.no_side; yes_price = 40; no_price = 60; count = 7; ts_ms = pos 3 }
    ∷ []

apply_trades_lem_example : (apply_trades (from_order buy_yes 10) trades).1 ≡ 5
unfolding from_order
apply_trades_lem_example = apply_trades_lem buy_yes 10 trades

match_ioc_levels_example : get_level 60 book_after.no_bids ≡ some 20
unfolding best_no_bid last_level
match_ioc_levels_example =
    match_ioc_levels touch_book buy_yes (pos 9) book_after fill_30 30 true 60 50 Side.no_side 60
      touch_book-IsBook refl refl (omega arith) matched

abbrev next_delta : Delta
next_delta = record {
  market = ticker;
  seq = 2;
  side = Side.yes_side;
  price = 55;
  qty_delta = pos 4;
}

match_ioc_gap_example :
    ((apply_delta touch_book next_delta).1 ≡ ApplyOutcome.applied)
    × (apply_delta book_after next_delta ≡ (book_after, ApplyOutcome.gap 3 2))
match_ioc_gap_example =
    match_ioc_gap touch_book buy_yes (pos 9) 1 next_delta book_after fill_30 30 true refl
      (omega arith) (refl, refl, refl) matched

abbrev recorded : List RecordedEvent
recorded =
    record { schema = 1; kind = RecordedKind.delta next_delta }
    ∷ record { schema = 2; kind = RecordedKind.other }
    ∷ []

abbrev market_books : BookStore
market_books = (ticker, touch_book) ∷ []

-- A callback that counts the updates and drops the book of another market.
abbrev count_update : ReplayUpdate → ℕ → BookStore → ℕ × BookStore
count_update u n store = (n + 1, remove (text "Y") store)

lookup-replay_all_example :
    lookup ticker (replay_all count_update recorded 0 market_books).2
    ≡ stream_on ticker (lookup ticker market_books) recorded
unfolding text lookup text_eq
lookup-replay_all_example =
    lookup-replay_all count_update ticker recorded 0 market_books
      λ u n store. lookup-remove (text "Y") ticker store

abbrev first_venue_id : Text
first_venue_id =
    0x73 ∷ 0x69 ∷ 0x6d ∷ 0x2d ∷ 0x30 ∷ 0x30 ∷ 0x30 ∷ 0x30 ∷ 0x30 ∷ 0x30 ∷ 0x30 ∷ 0x30 ∷ []

abbrev sim : SimExecutor
sim = record {
  books = market_books;
  accepts = 10;
  sent = [];
  next_venue_id = 0;
  live = [];
  now_ms = pos 9;
}

abbrev sim_after : SimExecutor
sim_after = record {
  books = (ticker, book_after) ∷ [];
  accepts = 8;
  sent =
      report_of buy_yes.client_id (ExecutionReportKind.acked first_venue_id) sim
      ∷ report_of buy_yes.client_id (ExecutionReportKind.filled fill_30 30) sim
      ∷ [];
  next_venue_id = 1;
  live = [];
  now_ms = pos 9;
}

sim_submit-Settles_example : Settles buy_yes.client_id sim sim_after
unfolding lookup insert text_eq sim_submit match_on acknowledge send_report report_match send_last
    sim_venue_id text show_padded show_u64 digits match_ioc match_touch best_no_bid last_level
    from_cents fill_at consume synth_fill taker_fee apply_delta get_level insert_level ◌+ℤ◌ ◌-ℤ◌
sim_submit-Settles_example = sim_submit-Settles buy_yes sim sim_after refl refl
