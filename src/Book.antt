-- ===== src/Book.antt =====
-- crates/book/src/lib.rs: the two-sided level-2 order book of one market.
mod LevelMap
pub mod LevelLaws
pub mod Deltas
pub mod Quotes
pub mod Stream
pub mod Totals
pub mod Overflow
pub mod Tests
unfoldable pub use LevelMap.*
use predigy.Prelude.{
  ltb, leb, ◌==◌, if◌then◌else◌, ℕ, ◌-◌, ◌*◌, Bool, true, false, Option, none, some, List, [],
}
use predigy.Prelude.Int.{ℤ, ◌+ℤ◌, leb_ℤ, ltb_ℤ, pos, negsuc}
use predigy.Prelude.Text.{Text, text_eq}
use predigy.Prelude.Word.{u32_max, add64}
use predigy.Core.{Side, Price, complement}

pub data ApplyOutcome : Type 0 where
  applied : ApplyOutcome
  gap : (expected got : ℕ) → ApplyOutcome
  wrong_market : ApplyOutcome

pub record OrderBook : Type 0 where
  pub market : Text
  pub yes_bids : Levels
  pub no_bids : Levels
  pub last_seq : Option ℕ

pub record Snapshot : Type 0 where
  pub seq : ℕ
  pub yes_bids : List (Price × ℕ)
  pub no_bids : List (Price × ℕ)

-- `qty_delta` is an `i32`.
pub record Delta : Type 0 where
  pub market : Text
  pub seq : ℕ
  pub side : Side
  pub price : Price
  pub qty_delta : ℤ

unfoldable pub new_book : Text → OrderBook
new_book m = record { market = m; yes_bids = []; no_bids = []; last_seq = none }

unfoldable pub best_yes_bid : OrderBook → Option (Price × ℕ)
best_yes_bid b = last_level b.yes_bids

unfoldable pub best_no_bid : OrderBook → Option (Price × ℕ)
best_no_bid b = last_level b.no_bids

unfoldable pub best_yes_ask : OrderBook → Option (Price × ℕ)
unfolding best_no_bid
best_yes_ask b = elim (best_no_bid b) [ none ↦ none | some (p, q) ↦ some (complement p, q) ]

-- `ask.saturating_sub(bid)`, by `?` on either side.
unfoldable pub yes_spread_cents : OrderBook → Option ℕ
unfolding best_yes_bid best_yes_ask
yes_spread_cents b = elim (best_yes_bid b) [
  | none ↦ none
  | some (bid, _) ↦ elim (best_yes_ask b) [ none ↦ none | some (ask, _) ↦ some (ask - bid) ]
]

unfoldable pub apply_snapshot : OrderBook → Snapshot → OrderBook
apply_snapshot b snap = record b {
  yes_bids = collect snap.yes_bids;
  no_bids = collect snap.no_bids;
  last_seq = some snap.seq;
}

unfoldable pub apply_rest_snapshot : OrderBook → Snapshot → OrderBook
apply_rest_snapshot b snap = record b {
  yes_bids = collect snap.yes_bids;
  no_bids = collect snap.no_bids;
  last_seq = none;
}

-- `u32::try_from(n).unwrap_or(0)`.
abbrev pub u32_or_zero : ℤ → ℕ
u32_or_zero (pos n) = if leb n u32_max then n else 0
u32_or_zero (negsuc n) = 0

-- The two arms that change one side's levels.
unfoldable pub adjust_level : Price → ℤ → Levels → Levels
adjust_level price qty_delta levels = elim (get_level price levels) [
  | some existing ↦
      let new_qty = pos existing +ℤ qty_delta in
      if leb_ℤ new_qty (pos 0)
      then remove_level price levels
      else insert_level price (u32_or_zero new_qty) levels
  | none ↦
      if ltb_ℤ (pos 0) qty_delta
      then if ltb 0 (u32_or_zero qty_delta)
        then insert_level price (u32_or_zero qty_delta) levels
        else levels
      else levels
]

-- The early return of a sequence gap; `last + 1` wraps at 64 bits.
unfoldable pub sequence_gap : Bool → Option ℕ → ℕ → Option ApplyOutcome
sequence_gap false last got = none
sequence_gap true none got = none
sequence_gap true (some last) got =
    let expected = add64 last 1 in
    if got == expected then none else some (ApplyOutcome.gap expected got)

-- The write through `levels` and to `last_seq`.
unfoldable pub write_delta : OrderBook → Delta → Side → OrderBook
unfolding adjust_level
write_delta b delta Side.yes_side = record b {
  yes_bids = adjust_level delta.price delta.qty_delta b.yes_bids;
  last_seq = some delta.seq;
}
write_delta b delta Side.no_side = record b {
  no_bids = adjust_level delta.price delta.qty_delta b.no_bids;
  last_seq = some delta.seq;
}

unfoldable pub apply_delta_inner : OrderBook → Delta → Bool → OrderBook × ApplyOutcome
unfolding sequence_gap write_delta
apply_delta_inner b delta check_sequence =
    if text_eq delta.market b.market
    then elim (sequence_gap check_sequence b.last_seq delta.seq) [
      | some outcome ↦ (b, outcome)
      | none ↦ (write_delta b delta delta.side, ApplyOutcome.applied)
    ]
    else (b, ApplyOutcome.wrong_market)

unfoldable pub apply_delta : OrderBook → Delta → OrderBook × ApplyOutcome
unfolding apply_delta_inner
apply_delta b delta = apply_delta_inner b delta true

unfoldable pub apply_delta_unsequenced : OrderBook → Delta → OrderBook × ApplyOutcome
unfolding apply_delta_inner
apply_delta_unsequenced b delta = apply_delta_inner b delta false
