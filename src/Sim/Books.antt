-- ===== src/Sim/Books.antt =====
-- crates/sim/src/book_store.rs and replay.rs: the books of the simulation, and recorded events.
use predigy.Prelude.{◌==◌, if◌then◌else◌, unwrap_or, ℕ, none, some, List, [], ◌∷◌}
use predigy.Book.{
  ApplyOutcome, OrderBook, Snapshot, Delta, new_book, apply_snapshot, apply_rest_snapshot,
  apply_delta,
}
use predigy.Core.{MarketTicker, position_key}
use predigy.Prelude.Map.{text_key, Map, lookup, insert}
use predigy.Prelude.Text.{Text}
use predigy.Prelude.Result.{Result, ok, err}

abbrev pub BookStore : Type 0
BookStore = Map MarketTicker OrderBook

-- `entry(market).or_insert_with(…)`.
abbrev pub entry_book : MarketTicker → BookStore → OrderBook
entry_book market store = unwrap_or (lookup market store) (new_book market)

unfoldable pub store_snapshot : BookStore → MarketTicker → Snapshot → BookStore
store_snapshot store market snap =
    insert market (apply_snapshot (entry_book market store) snap) store

unfoldable pub store_rest_snapshot : BookStore → MarketTicker → Snapshot → BookStore
store_rest_snapshot store market snap =
    insert market (apply_rest_snapshot (entry_book market store) snap) store

-- `recorder_schema_version` is a constant of the recorder's crate.
pub data RecordedKind : Type 0 where
  snapshot : (market : Text) → Snapshot → RecordedKind
  delta : Delta → RecordedKind
  rest_resync : (market : Text) → Snapshot → RecordedKind
  other : RecordedKind

pub record RecordedEvent : Type 0 where
  pub schema : ℕ
  pub kind : RecordedKind

pub data ReplayUpdate : Type 0 where
  book_updated : MarketTicker → ReplayUpdate
  non_book : ReplayUpdate
  gap : MarketTicker → (expected got : ℕ) → ReplayUpdate

pub data ReplayError : Type 0 where
  unsupported_schema : ℕ → ReplayError

abbrev pub delta_update : MarketTicker → ApplyOutcome → ReplayUpdate
delta_update market ApplyOutcome.applied = ReplayUpdate.book_updated market
delta_update market (ApplyOutcome.gap expected got) = ReplayUpdate.gap market expected got
delta_update market ApplyOutcome.wrong_market = ReplayUpdate.non_book

-- `with_book_mut`, and an unknown market as a wrong one.
unfoldable pub replay_delta : BookStore → Delta → BookStore × ReplayUpdate
replay_delta store d = elim (lookup d.market store) [
  | none ↦ (store, ReplayUpdate.non_book)
  | some book ↦
      let (book', outcome) = apply_delta book d in
      (insert d.market book' store, delta_update d.market outcome)
]

unfoldable pub replay_kind : BookStore → RecordedKind → BookStore × ReplayUpdate
unfolding store_snapshot store_rest_snapshot replay_delta
replay_kind store (RecordedKind.snapshot market snap) =
    (store_snapshot store market snap, ReplayUpdate.book_updated market)
replay_kind store (RecordedKind.delta d) = replay_delta store d
replay_kind store (RecordedKind.rest_resync market snap) =
    (store_rest_snapshot store market snap, ReplayUpdate.book_updated market)
replay_kind store RecordedKind.other = (store, ReplayUpdate.non_book)

-- `Replay::apply`.
unfoldable pub replay : BookStore → RecordedEvent → BookStore × Result ReplayUpdate ReplayError
unfolding replay_kind
replay store event =
    let (store', update) = replay_kind store event.kind in
    if event.schema == 1
    then (store', ok update)
    else (store, err (ReplayError.unsupported_schema event.schema))

-- The loop of `drive_lines` over the decoded events; an error ends it. After each event the callback
-- is awaited, with a state of its own: it sees the update, and may change the same books.
module _ {W : Type 0} (on_update : ReplayUpdate → W → BookStore → W × BookStore) where
  unfoldable pub replay_all :
      List RecordedEvent → W → BookStore → Result (Unit {0}) ReplayError × W × BookStore
  replay_all [] w store = (ok tt, w, store)
  replay_all (e ∷ es) w store =
      let (store', result) = replay store e in
      elim result [
        | err x ↦ (err x, w, store')
        | ok update ↦ let (w', store'') = on_update update w store' in replay_all es w' store''
      ]
