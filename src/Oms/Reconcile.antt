-- ===== src/Oms/Reconcile.antt =====
-- crates/oms/src/runtime.rs: the comparison with the venue's positions.
use predigy.Core.{side_eq, side_lt, PositionKey, position_key, OrderId}
use predigy.Oms.Records.{OrderRecord}
use predigy.Oms.Events.{PositionMismatch}
use predigy.Oms.Manager.{Oms}
use predigy.Prelude.{
  ◌==◌, if◌then◌else◌, ℕ, Bool, true, false, ◌&&◌, ◌||◌, Option, none, some, List, [], ◌∷◌, ◌++◌,
}
use predigy.Prelude.Map.{text_key, Map, lookup}
use predigy.Prelude.Text.{text_eq, text_lt}
use predigy.Risk.{AccountState, position}

-- The first loop: every position that the venue reports with another quantity.
unfoldable pub venue_mismatches : AccountState → Map PositionKey ℕ → List PositionMismatch
venue_mismatches s [] = []
venue_mismatches s ((k, venue_qty) ∷ m) =
    let oms_qty = position s k.0 k.1 in
    if oms_qty == venue_qty
    then venue_mismatches s m
    else record { market = k.0; side = k.1; oms_qty = oms_qty; venue_qty = venue_qty }
      ∷ venue_mismatches s m

abbrev pub is_listed : Option ℕ → Bool
is_listed none = false
is_listed (some _) = true

-- The second loop: positions of the tracked orders' markets that the venue does not list.
unfoldable pub order_mismatches :
    AccountState → Map PositionKey ℕ → Map OrderId OrderRecord → List PositionMismatch
order_mismatches s venue [] = []
order_mismatches s venue (e ∷ m) =
    let market = e.1.order.market in
    let side = e.1.order.side in
    let oms_qty = position s market side in
    if oms_qty == 0 || is_listed (lookup (market, side) venue)
    then order_mismatches s venue m
    else record { market = market; side = side; oms_qty = oms_qty; venue_qty = 0 }
      ∷ order_mismatches s venue m

-- The comparison of `sort_by`.
abbrev pub mismatch_lt : PositionMismatch → PositionMismatch → Bool
mismatch_lt a b =
    if text_lt a.market b.market
    then true
    else if text_eq a.market b.market
    then side_lt a.side b.side
    else false

unfoldable pub insert_mismatch : PositionMismatch → List PositionMismatch → List PositionMismatch
insert_mismatch e [] = e ∷ []
insert_mismatch e (f ∷ l) = if mismatch_lt f e then f ∷ insert_mismatch e l else e ∷ f ∷ l

unfoldable pub sort_mismatches : List PositionMismatch → List PositionMismatch
unfolding insert_mismatch
sort_mismatches [] = []
sort_mismatches (e ∷ l) = insert_mismatch e (sort_mismatches l)

abbrev pub mismatch_eq : PositionMismatch → PositionMismatch → Bool
mismatch_eq a b =
    text_eq a.market b.market
    && side_eq a.side b.side
    && a.oms_qty == b.oms_qty
    && a.venue_qty == b.venue_qty

-- `dedup`: of equal neighbours the first stays.
unfoldable pub dedup_after : PositionMismatch → List PositionMismatch → List PositionMismatch
dedup_after e [] = []
dedup_after e (f ∷ l) = if mismatch_eq e f then dedup_after e l else f ∷ dedup_after f l

unfoldable pub dedup : List PositionMismatch → List PositionMismatch
unfolding dedup_after
dedup [] = []
dedup (e ∷ l) = e ∷ dedup_after e l

unfoldable pub diff_positions : {X : Type 0} → Oms X → Map PositionKey ℕ → List PositionMismatch
unfolding venue_mismatches order_mismatches sort_mismatches dedup
diff_positions oms venue = dedup (
    sort_mismatches
      (venue_mismatches oms.state venue ++ order_mismatches oms.state venue oms.orders))
