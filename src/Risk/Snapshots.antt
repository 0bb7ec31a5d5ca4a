-- ===== src/Risk/Snapshots.antt =====
-- crates/risk/src/state.rs: the persisted subset of the account state.
use predigy.Prelude.{if◌then◌else◌, unwrap_or, ℕ, Bool, true, false, List, [], ◌∷◌, map}
use predigy.Prelude.Int.{ℤ}
use predigy.Prelude.Text.{text_eq, text_lt}
use predigy.Prelude.Map.{text_key, Map, lookup}
use predigy.Core.{Side, MarketTicker, side_lt, PositionKey, position_key}
use predigy.Risk.Account.{AccountState, new_account, set_position}

pub record PersistedPositionEntry : Type 0 where
  pub market : MarketTicker
  pub side : Side
  pub qty : ℕ
  pub avg_entry_cents : ℕ

pub record PersistedAccountState : Type 0 where
  pub schema_version : ℕ
  pub positions : List PersistedPositionEntry
  pub daily_realized_pnl_cents : ℤ
  pub kill_switch : Bool

-- One entry of the `map` over the positions.
abbrev pub persist_entry : Map PositionKey ℕ → PositionKey × ℕ → PersistedPositionEntry
persist_entry avgs (key, qty) = record {
  market = key.0;
  side = key.1;
  qty = qty;
  avg_entry_cents = unwrap_or (lookup key avgs) 0;
}

-- The comparison of `sort_by`: by ticker, then by side.
abbrev pub entry_lt : PersistedPositionEntry → PersistedPositionEntry → Bool
entry_lt a b =
    if text_lt a.market b.market
    then true
    else if text_eq a.market b.market
    then side_lt a.side b.side
    else false

-- `sort_by` is stable: equal entries keep their order.
unfoldable pub insert_entry :
    PersistedPositionEntry → List PersistedPositionEntry → List PersistedPositionEntry
insert_entry e [] = e ∷ []
insert_entry e (f ∷ l) = if entry_lt f e then f ∷ insert_entry e l else e ∷ f ∷ l

unfoldable pub sort_entries : List PersistedPositionEntry → List PersistedPositionEntry
unfolding insert_entry
sort_entries [] = []
sort_entries (e ∷ l) = insert_entry e (sort_entries l)

unfoldable pub to_persisted : AccountState → PersistedAccountState
unfolding sort_entries
to_persisted s = record {
  schema_version = 1;
  positions = sort_entries (map (persist_entry s.avg_entry) s.positions);
  daily_realized_pnl_cents = s.daily_realized_pnl_cents;
  kill_switch = s.kill_switch;
}

-- The loop over the persisted positions.
unfoldable pub restore_positions : List PersistedPositionEntry → AccountState → AccountState
restore_positions [] s = s
restore_positions (e ∷ l) s =
    restore_positions l (set_position s e.market e.side e.qty e.avg_entry_cents)

unfoldable pub from_persisted : PersistedAccountState → AccountState
unfolding restore_positions
from_persisted p =
    let s = restore_positions p.positions new_account in
    record s { daily_realized_pnl_cents = p.daily_realized_pnl_cents; kill_switch = p.kill_switch }
