-- ===== src/Sim/ReplayLaws.antt =====
-- crates/sim/src/replay.rs: a recorded stream against the books of several markets.
use predigy.Prelude.{
  ◌==◌, if◌then◌else◌, Bool-cases, Option-cases, unwrap_or, ◌≡◌, refl, ap, ◌∙◌, inl, inr, true,
  false, Option, none, some, List, [], ◌∷◌, arith,
}
use predigy.Book.{OrderBook, Delta, new_book, apply_snapshot, apply_rest_snapshot, apply_delta}
use predigy.Sim.{
  BookStore, entry_book, store_snapshot, store_rest_snapshot, RecordedKind, RecordedEvent,
  ReplayUpdate, ReplayError, replay_delta, replay_kind, replay, replay_all,
}
use predigy.Core.{MarketTicker, position_key}
use predigy.Prelude.Map.{text_key, lookup, lookup-insert}
use predigy.Prelude.Text.{text_eq, text_eq_iff}
use predigy.Prelude.Result.{ok, err}

-- What one event means for the book of a market.
abbrev pub kind_on : MarketTicker → Option OrderBook → RecordedKind → Option OrderBook
kind_on m b (RecordedKind.snapshot market snap) =
    if text_eq market m then some (apply_snapshot (unwrap_or b (new_book market)) snap) else b
kind_on m b (RecordedKind.rest_resync market snap) =
    if text_eq market m then some (apply_rest_snapshot (unwrap_or b (new_book market)) snap) else b
kind_on m none (RecordedKind.delta d) = none
kind_on m (some b) (RecordedKind.delta d) =
    if text_eq d.market m then some (apply_delta b d).0 else some b
kind_on m b RecordedKind.other = b

-- The events up to the first of another schema.
abbrev pub stream_on : MarketTicker → Option OrderBook → List RecordedEvent → Option OrderBook
stream_on m b [] = b
stream_on m b (e ∷ es) =
    let rest = stream_on m (kind_on m b e.kind) es in if e.schema == 1 then rest else b

lookup_at :
    (m n : MarketTicker) (store : BookStore) → text_eq m n ≡ true → lookup m store ≡ lookup n store
lookup_at m n store h = ap (λ (t : MarketTicker). lookup t store) ((text_eq_iff m n).0 h)

lookup-replay_delta :
    (m : MarketTicker) (store : BookStore) (d : Delta)
    → lookup m (replay_delta store d).0 ≡ kind_on m (lookup m store) (RecordedKind.delta d)
unfolding replay_delta
lookup-replay_delta m store d = elim (Option-cases (lookup d.market store)) [
  | inl unknown ↦ ground (arith, lookup_at d.market m store)
  | inr (b, known) ↦
      ground (arith, lookup_at d.market m store, lookup-insert d.market m (apply_delta b d).0 store)
]

lookup-replay_kind :
    (m : MarketTicker) (store : BookStore) (k : RecordedKind)
    → lookup m (replay_kind store k).0 ≡ kind_on m (lookup m store) k
unfolding replay_kind store_snapshot store_rest_snapshot
lookup-replay_kind m store (RecordedKind.snapshot market snap) = ground (
  arith,
  lookup_at market m store,
  lookup-insert market m (apply_snapshot (entry_book market store) snap) store,
)
lookup-replay_kind m store (RecordedKind.rest_resync market snap) = ground (
  arith,
  lookup_at market m store,
  lookup-insert market m (apply_rest_snapshot (entry_book market store) snap) store,
)
lookup-replay_kind m store (RecordedKind.delta d) = lookup-replay_delta m store d
lookup-replay_kind m store RecordedKind.other = refl

replay_read :
    (store : BookStore) (e : RecordedEvent)
    → (e.schema == 1) ≡ true
    → replay store e ≡ ((replay_kind store e.kind).0, ok (replay_kind store e.kind).1)
unfolding replay
replay_read store e h = rw h refl

replay_refused :
    (store : BookStore) (e : RecordedEvent)
    → (e.schema == 1) ≡ false
    → replay store e ≡ (store, err (ReplayError.unsupported_schema e.schema))
unfolding replay
replay_refused store e h = rw h refl

-- A callback that does not touch a market's book. It may change the other books, and its own state
-- as it likes.
abbrev pub LeavesBook :
    {W : Type 0} → MarketTicker → (ReplayUpdate → W → BookStore → W × BookStore) → Type 0
LeavesBook {W} m on_update =
    (u : ReplayUpdate) (w : W) (store : BookStore)
    → lookup m (on_update u w store).1 ≡ lookup m store

module _ {W : Type 0} (on_update : ReplayUpdate → W → BookStore → W × BookStore) where
  -- A recorded stream of many markets moves each market's book exactly as the events of that market
  -- alone would, in their order, up to the first event of another schema: a snapshot makes the book
  -- if there is none, a delta for a market without a book is dropped, and events of other markets
  -- change nothing. The callback, whatever else it does between the events, leaves that book alone.
  pub lookup-replay_all :
      (m : MarketTicker) (es : List RecordedEvent) (w : W) (store : BookStore)
      → LeavesBook m on_update
      → lookup m (replay_all on_update es w store).2 ≡ stream_on m (lookup m store) es
  unfolding replay_all replay replay_kind
  lookup-replay_all m [] w store leaves = refl
  lookup-replay_all m (e ∷ es) w store leaves = elim (Bool-cases (e.schema == 1)) [
    | inl same ↦
        let (store', update) = replay_kind store e.kind in
        let (w', store'') = on_update update w store' in
        rw (same, replay_read store e same, replay_all)
          (lookup-replay_all m es w' store'' leaves
            ∙ ap (λ (b : Option OrderBook). stream_on m b es)
                (leaves update w store' ∙ lookup-replay_kind m store e.kind))
    | inr differs ↦ rw (differs, replay_refused store e differs, replay_all) refl
  ]
