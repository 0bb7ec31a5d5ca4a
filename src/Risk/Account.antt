-- ===== src/Risk/Account.antt =====
-- crates/risk/src/state.rs: the account state. An `Instant` is a number of nanoseconds.
use predigy.Prelude.{
  ltb, leb, ◌==◌, if◌then◌else◌, unwrap_or, length, ℕ, ◌-◌, ◌*◌, min, Bool, true, false, List, [],
  ◌∷◌, ◌++◌,
}
use predigy.Prelude.Int.{ℤ, neg_part, leb_ℤ, pos}
use predigy.Prelude.Map.{text_key, Map, lookup, insert, remove}
use predigy.Prelude.Word.{u32_max, u64_max, add64, saturating_add_i64}
use predigy.Core.{Side, MarketTicker, PositionKey, position_key}

pub record AccountState : Type 0 where
  pub positions : Map PositionKey ℕ
  pub avg_entry : Map PositionKey ℕ
  pub daily_realized_pnl_cents : ℤ
  pub recent_orders : List ℕ
  pub kill_switch : Bool

unfoldable pub new_account : AccountState
new_account = record {
  positions = [];
  avg_entry = [];
  daily_realized_pnl_cents = pos 0;
  recent_orders = [];
  kill_switch = false;
}

unfoldable pub position : AccountState → MarketTicker → Side → ℕ
position s m side = unwrap_or (lookup (m, side) s.positions) 0

unfoldable pub avg_entry_cents : AccountState → MarketTicker → Side → ℕ
avg_entry_cents s m side = unwrap_or (lookup (m, side) s.avg_entry) 0

-- The factors are a `u32` and a `u16`, so the product fits a `u64`.
unfoldable pub notional_cents : AccountState → MarketTicker → Side → ℕ
unfolding position avg_entry_cents
notional_cents s m side = position s m side * avg_entry_cents s m side

-- The sum over the map's entries, in 64-bit additions.
unfoldable pub gross_over : Map PositionKey ℕ → Map PositionKey ℕ → ℕ
gross_over avgs [] = 0
gross_over avgs (e ∷ m) = add64 (e.1 * unwrap_or (lookup e.0 avgs) 0) (gross_over avgs m)

unfoldable pub gross_notional_cents : AccountState → ℕ
unfolding gross_over
gross_notional_cents s = gross_over s.avg_entry s.positions

-- `u64::try_from(-pnl).unwrap_or(u64::MAX)`: the negation of `i64::MIN` wraps to itself.
unfoldable pub daily_realized_loss_cents : AccountState → ℕ
daily_realized_loss_cents s =
    let pnl = s.daily_realized_pnl_cents in
    if leb_ℤ (pos 0) pnl
    then 0
    else if neg_part pnl == 9223372036854775808
    then u64_max
    else neg_part pnl

-- `now.checked_sub(window).unwrap_or(now)`.
abbrev pub window_cutoff : ℕ → ℕ → ℕ
window_cutoff now window = if leb window now then now - window else now

-- The loop that pops the front while it is older than the cutoff.
unfoldable pub prune : ℕ → List ℕ → List ℕ
prune cutoff [] = []
prune cutoff (front ∷ rest) =
    let popped = prune cutoff rest in if ltb front cutoff then popped else front ∷ rest

-- The pruned state, and the count as a `u32`.
unfoldable pub orders_in_window : AccountState → ℕ → ℕ → AccountState × ℕ
orders_in_window s now window =
    let recent = prune (window_cutoff now window) s.recent_orders in
    (record s { recent_orders = recent }, min (length recent) u32_max)

unfoldable pub set_position : AccountState → MarketTicker → Side → ℕ → ℕ → AccountState
set_position s m side qty avg =
    if qty == 0
    then record s {
      positions = remove (m, side) s.positions;
      avg_entry = remove (m, side) s.avg_entry;
    }
    else record s {
      positions = insert (m, side) qty s.positions;
      avg_entry = insert (m, side) avg s.avg_entry;
    }

unfoldable pub add_realized_pnl : AccountState → ℤ → AccountState
add_realized_pnl s delta = record s {
  daily_realized_pnl_cents = saturating_add_i64 s.daily_realized_pnl_cents delta;
}

unfoldable pub record_order_sent : AccountState → ℕ → AccountState
record_order_sent s now = record s { recent_orders = s.recent_orders ++ now ∷ [] }

unfoldable pub arm_kill_switch : AccountState → AccountState
arm_kill_switch s = record s { kill_switch = true }

unfoldable pub disarm_kill_switch : AccountState → AccountState
disarm_kill_switch s = record s { kill_switch = false }

unfoldable pub reset_for_new_day : AccountState → AccountState
reset_for_new_day s = record s { daily_realized_pnl_cents = pos 0; recent_orders = [] }
