-- ===== src/Oms/Tests/Records.antt =====
-- Runs of crates/oms at fixed inputs: fills, records and the comparison with the venue.
use predigy.Prelude.{All, ℕ, ◌+◌, ◌*◌, ◌≤◌, ◌≡◌, refl, true, false, List, [], ◌∷◌, arith}
use predigy.Oms.{apply_fill, StubExecutor, Oms, diff_positions}
use predigy.Oms.Tests.{ticker, flat_account, fresh_oms, second_cid, live_record}
use predigy.Core.{Side, Action, PositionKey, position_key_eq, position_key}
use predigy.Oms.ReconcileLaws.{IsTrueMismatch, diff_positions_true}
use predigy.Oms.FillLaws.{IsNearest, apply_fill-buy, apply_fill-sell}
use predigy.Oms.RecordLaws.{FillReport, record_fills, record_fills_total}
use predigy.Prelude.Map.{text_key, Map, lookup}
use predigy.Prelude.Int.{◌+ℤ◌, pos}
use predigy.Prelude.Text.{text_eq}

apply_fill-buy_example :
    let u = apply_fill Action.buy 10 40 5 43 in
    (u.new_qty ≡ 15)
    × IsNearest 615 15 u.new_avg_entry_cents
    × (40 ≤ u.new_avg_entry_cents)
    × (u.new_avg_entry_cents ≤ 43)
    × (u.realized_pnl_delta_cents ≡ pos 0)
apply_fill-buy_example =
    apply_fill-buy 10 40 5 43 (omega arith) (omega arith) (omega arith) (omega arith)

apply_fill-sell_example :
    let u = apply_fill Action.sell 10 40 15 43 in
    (u.new_qty + 10 ≡ 10)
    × (u.new_qty * u.new_avg_entry_cents ≡ u.new_qty * 40)
    × (pos 400 +ℤ u.realized_pnl_delta_cents ≡ pos (u.new_qty * u.new_avg_entry_cents + 430))
apply_fill-sell_example = apply_fill-sell 10 40 15 43 (omega arith) (omega arith)

abbrev reports : List FillReport
reports =
    record { price = 40; cumulative = 5; now = 9; terminal = false }
    ∷ record { price = 41; cumulative = 4; now = 9; terminal = false }
    ∷ record { price = 42; cumulative = 10; now = 9; terminal = true }
    ∷ []

record_fills_total_example :
    let (r', total) = record_fills live_record reports in
    (r'.cumulative_qty ≡ 3 + total) × (r'.cumulative_qty ≡ 10)
record_fills_total_example = record_fills_total live_record reports

abbrev held_oms : Oms StubExecutor
held_oms = record fresh_oms {
  state = record flat_account {
    positions = ((ticker, Side.yes_side), 3) ∷ [];
    avg_entry = ((ticker, Side.yes_side), 40) ∷ [];
  };
  orders = (second_cid, live_record) ∷ [];
}

abbrev at_venue : Map PositionKey ℕ
at_venue = ((ticker, Side.yes_side), 4) ∷ ((ticker, Side.no_side), 0) ∷ []

diff_positions_true_example :
    All (IsTrueMismatch held_oms.state at_venue) (diff_positions held_oms at_venue)
unfolding lookup position_key_eq text_eq
diff_positions_true_example = diff_positions_true held_oms at_venue (refl, (refl, tt))
