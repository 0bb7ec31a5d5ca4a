-- ===== src/Sim/QueueLaws.antt =====
-- crates/sim/src/queue.rs: the fills of a resting order over a sequence of trades.
use predigy.Prelude.{
  ltb, ◌==◌, if◌then◌else◌, ℕ, ◌+◌, ◌-◌, ◌≤◌, min, ◌≡◌, refl, ◌∙◌, Bool, false, ◌&&◌, Option, none,
  some, List, [], ◌∷◌, arith,
}
use predigy.Sim.{RestingOrder, from_order, TradePulse, QueueAdvance, level_price, apply_trade}
use predigy.Core.{side_eq, position_key, Order}
use predigy.Prelude.Map.{text_key}
use predigy.Prelude.Word.{u32_max, saturating_add32}

-- The trade is by the opposite taker, at the order's price.
abbrev pub hits : RestingOrder → TradePulse → Bool
hits r t =
    ltb 0 t.count
    && (if side_eq t.taker_side r.side then false else level_price r.side t == r.price)

-- The filled quantity is what was consumed past the queue ahead, at most the order's own.
pub record IsQueued (r : RestingOrder) : Type 0 where
  pub by_queue : r.cumulative_filled ≡ min r.qty (r.cumulative_consumed - r.queue_ahead)
  pub word : r.cumulative_consumed ≤ u32_max

-- The same order in the same place of the queue.
abbrev pub SameOrder : RestingOrder → RestingOrder → Type 0
SameOrder r r' =
    (r'.qty ≡ r.qty) × (r'.queue_ahead ≡ r.queue_ahead) × (r'.side ≡ r.side) × (r'.price ≡ r.price)

abbrev pub filled_now : Option QueueAdvance → ℕ
filled_now none = 0
filled_now (some a) = a.fill_qty

pub from_order-IsQueued : (o : Order) (queue_ahead : ℕ) → IsQueued (from_order o queue_ahead)
unfolding from_order
from_order-IsQueued o queue_ahead = record { by_queue = omega arith; word = omega arith }

apply_trade_parts :
    (r : RestingOrder) (t : TradePulse)
    → let (r', advance) = apply_trade r t in
      SameOrder r r'
      × (r'.cumulative_consumed ≡ (
          if hits r t
          then saturating_add32 r.cumulative_consumed t.count
          else r.cumulative_consumed))
      × (r'.cumulative_filled ≡ r.cumulative_filled + filled_now advance)
unfolding apply_trade
apply_trade_parts r t = ground arith

apply_trade-IsQueued :
    (r : RestingOrder) (t : TradePulse) → IsQueued r → IsQueued (apply_trade r t).0
unfolding apply_trade
apply_trade-IsQueued r t v = ground (arith, v.by_queue, v.word)

-- The trades in order, with all contracts that filled the order.
unfoldable pub apply_trades : RestingOrder → List TradePulse → RestingOrder × ℕ
apply_trades r [] = (r, 0)
apply_trades r (t ∷ ts) =
    let (r', advance) = apply_trade r t in
    let (r'', rest) = apply_trades r' ts in (r'', filled_now advance + rest)

abbrev pub traded_at : RestingOrder → List TradePulse → ℕ
traded_at r [] = 0
traded_at r (t ∷ ts) = (if hits r t then t.count else 0) + traded_at r ts

hits_same : (r r' : RestingOrder) (t : TradePulse) → SameOrder r r' → hits r' t ≡ hits r t
hits_same r r' t s = rw (s.2, s.3) refl

traded_at_same :
    (r r' : RestingOrder) (ts : List TradePulse) → SameOrder r r' → traded_at r' ts ≡ traded_at r ts
traded_at_same r r' [] s = refl
traded_at_same r r' (t ∷ ts) s = rw (hits_same r r' t s, traded_at_same r r' ts s) refl

apply_trades_run :
    (r : RestingOrder) (ts : List TradePulse)
    → IsQueued r
    → let (r', total) = apply_trades r ts in
      IsQueued r'
      × SameOrder r r'
      × (r'.cumulative_consumed ≡ min (r.cumulative_consumed + traded_at r ts) u32_max)
      × (r'.cumulative_filled ≡ r.cumulative_filled + total)
unfolding apply_trades
apply_trades_run r [] v = (v, (refl, refl, refl, refl), omega (arith, v.word), omega arith)
apply_trades_run r (t ∷ ts) v =
    let (r', advance) = apply_trade r t in
    let (same, consumed, filled) = apply_trade_parts r t in
    let (w, same', consumed', filled') = apply_trades_run r' ts (apply_trade-IsQueued r t v) in
    (
      w,
      (same'.0 ∙ same.0, same'.1 ∙ same.1, same'.2 ∙ same.2, same'.3 ∙ same.3),
      ground (arith, consumed, consumed', traded_at_same r r' ts same, v.word),
      omega (arith, filled, filled'),
    )

-- Over any sequence of trades: the contracts that fill a resting order add up to what was traded by
-- the opposite takers at its price beyond the queue ahead of it, and at most to its size. What was
-- traded is counted up to the largest 32-bit number.
pub apply_trades_lem :
    (o : Order) (queue_ahead : ℕ) (ts : List TradePulse)
    → let r = from_order o queue_ahead in
      (apply_trades r ts).1 ≡ min o.qty (min (traded_at r ts) u32_max - queue_ahead)
unfolding from_order
apply_trades_lem o queue_ahead ts =
    let r = from_order o queue_ahead in
    let (w, same, consumed, filled) = apply_trades_run r ts (from_order-IsQueued o queue_ahead) in
    omega (arith, w.by_queue, same.0, same.1, consumed, filled)
