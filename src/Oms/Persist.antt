-- ===== src/Oms/Persist.antt =====
-- crates/oms/src/persistence.rs: the snapshot of account and orders. What `serde_json` writes to
-- disk and reads back is the snapshot itself.
use predigy.Core.{position_key, OrderId, Order, OrderState}
use predigy.Oms.Records.{OrderRecord}
use predigy.Prelude.{◌==◌, if◌then◌else◌, ℕ, Bool, Option, none, some, List, [], ◌∷◌}
use predigy.Prelude.Map.{text_key, Map, insert}
use predigy.Prelude.Text.{Text, text_lt}
use predigy.Prelude.Result.{Result, ok, err}
use predigy.Risk.{AccountState, PersistedAccountState, to_persisted, from_persisted}

abbrev pub schema_version : ℕ
schema_version = 1

pub record PersistedOrderRecord : Type 0 where
  pub cid : OrderId
  pub order : Order
  pub state : OrderState
  pub cumulative_qty : ℕ
  pub avg_fill_price_cents : ℕ
  pub cancel_in_flight : Bool
  pub venue_order_id : Option Text

pub record PersistedOmsState : Type 0 where
  pub schema_version : ℕ
  pub account : PersistedAccountState
  pub orders : List PersistedOrderRecord

pub data StateError : Type 0 where
  io : StateError
  decode : StateError
  schema_mismatch : (found supported : ℕ) → StateError

unfoldable pub from_record : OrderRecord → PersistedOrderRecord
from_record r = record {
  cid = r.cid;
  order = r.order;
  state = r.state;
  cumulative_qty = r.cumulative_qty;
  avg_fill_price_cents = r.avg_fill_price_cents;
  cancel_in_flight = r.cancel_in_flight;
  venue_order_id = r.venue_order_id;
}

unfoldable pub into_record : PersistedOrderRecord → ℕ → OrderRecord
into_record p now = record {
  cid = p.cid;
  order = p.order;
  state = p.state;
  cumulative_qty = p.cumulative_qty;
  avg_fill_price_cents = p.avg_fill_price_cents;
  cancel_in_flight = p.cancel_in_flight;
  venue_order_id = p.venue_order_id;
  submitted_at = now;
  last_event_at = now;
}

-- `orders.values().map(from_record)`.
abbrev pub persisted_records : Map OrderId OrderRecord → List PersistedOrderRecord
persisted_records [] = []
persisted_records (e ∷ m) = from_record e.1 ∷ persisted_records m

unfoldable pub insert_record :
    PersistedOrderRecord → List PersistedOrderRecord → List PersistedOrderRecord
insert_record e [] = e ∷ []
insert_record e (f ∷ l) = if text_lt f.cid e.cid then f ∷ insert_record e l else e ∷ f ∷ l

-- `sort_by` the id.
unfoldable pub sort_records : List PersistedOrderRecord → List PersistedOrderRecord
unfolding insert_record
sort_records [] = []
sort_records (e ∷ l) = insert_record e (sort_records l)

unfoldable pub snapshot : AccountState → Map OrderId OrderRecord → PersistedOmsState
unfolding sort_records
snapshot account orders = record {
  schema_version = 1;
  account = to_persisted account;
  orders = sort_records (persisted_records orders);
}

-- What `fs::read` and the decoder find at the path.
pub data StateFile : Type 0 where
  missing : StateFile
  unreadable : StateFile
  garbled : StateFile
  holds : PersistedOmsState → StateFile

unfoldable pub load_state : StateFile → Result (Option PersistedOmsState) StateError
load_state StateFile.missing = ok none
load_state StateFile.unreadable = err StateError.io
load_state StateFile.garbled = err StateError.decode
load_state (StateFile.holds s) =
    if s.schema_version == 1
    then ok (some s)
    else err (StateError.schema_mismatch s.schema_version 1)

unfoldable pub save_state : PersistedOmsState → StateFile → Bool → StateFile
save_state s file write_ok = if write_ok then StateFile.holds s else file

-- The loop that inserts the records.
unfoldable pub restore_into :
    List PersistedOrderRecord → ℕ → Map OrderId OrderRecord → Map OrderId OrderRecord
restore_into [] now orders = orders
restore_into (p ∷ l) now orders = restore_into l now (insert p.cid (into_record p now) orders)

unfoldable pub rehydrate : PersistedOmsState → ℕ → AccountState × Map OrderId OrderRecord
unfolding restore_into
rehydrate s now = (from_persisted s.account, restore_into s.orders now [])
