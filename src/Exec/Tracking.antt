-- ===== src/Exec/Tracking.antt =====
-- crates/kalshi-exec/src/executor.rs: the orders that are tracked, by client id and by venue id.
use predigy.Prelude.{ℕ, Option, none, some, []}
use predigy.Prelude.Text.{Text}
use predigy.Prelude.Map.{text_key, Map, lookup, insert, remove}
use predigy.Prelude.Word.{saturating_add32}
use predigy.Core.{Side, Action, position_key, OrderId}

pub record Tracked : Type 0 where
  pub cid : OrderId
  pub venue_id : Text
  pub target : ℕ
  pub cumulative : ℕ
  pub side : Side
  pub action : Action

pub record TrackedOrders : Type 0 where
  pub by_cid : Map OrderId Tracked
  pub venue_to_cid : Map Text OrderId

unfoldable pub no_orders : TrackedOrders
no_orders = record { by_cid = []; venue_to_cid = [] }

unfoldable pub on_submit : OrderId → Text → ℕ → Side → Action → TrackedOrders → TrackedOrders
on_submit cid venue_id target side action t = record {
  by_cid =
      insert cid
        (record {
          cid = cid;
          venue_id = venue_id;
          target = target;
          cumulative = 0;
          side = side;
          action = action;
        })
        t.by_cid;
  venue_to_cid = insert venue_id cid t.venue_to_cid;
}

unfoldable pub venue_id_for : OrderId → TrackedOrders → Option Text
venue_id_for cid t = elim (lookup cid t.by_cid) [ none ↦ none | some e ↦ some e.venue_id ]

-- The entry under a venue id.
unfoldable pub tracked_entry : Text → TrackedOrders → Option Tracked
tracked_entry venue_id t = elim (lookup venue_id t.venue_to_cid) [
  | none ↦ none
  | some cid ↦ lookup cid t.by_cid
]

unfoldable pub lookup_terms : Text → TrackedOrders → Option (Side × Action)
unfolding tracked_entry
lookup_terms venue_id t = elim (tracked_entry venue_id t) [
  | none ↦ none
  | some e ↦ some (e.side, e.action)
]

-- `on_cancel` and `terminal`, which have one body.
unfoldable pub forget_order : OrderId → TrackedOrders → TrackedOrders
forget_order cid t = elim (lookup cid t.by_cid) [
  | none ↦ t
  | some e ↦ record {
    by_cid = remove cid t.by_cid;
    venue_to_cid = remove e.venue_id t.venue_to_cid;
  }
]

abbrev pub raised : Tracked → ℕ → Tracked
raised e qty = record e { cumulative = saturating_add32 e.cumulative qty }

-- The entry after a fill, and the orders with it.
unfoldable pub note_fill : Text → ℕ → TrackedOrders → Option Tracked × TrackedOrders
note_fill venue_id qty t = elim (lookup venue_id t.venue_to_cid) [
  | none ↦ (none, t)
  | some cid ↦ elim (lookup cid t.by_cid) [
    | none ↦ (none, t)
    | some e ↦ (some (raised e qty), record t { by_cid = insert cid (raised e qty) t.by_cid })
  ]
]
