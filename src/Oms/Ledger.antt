-- ===== src/Oms/Ledger.antt =====
-- crates/oms/src/runtime.rs: the account's positions against the fills of the tracked orders.
pub mod Reports
pub mod Commands
pub mod Runs
pub mod Fresh
pub mod FreshRuns
use predigy.Oms.{PositionUpdate, apply_fill, OrderRecord, apply_record_fill, Oms, book_update}
use predigy.Oms.Totals.{total_of}
use predigy.Oms.RecordLaws.{IsUnfilledPending}
use predigy.Prelude.{
  if◌then◌else◌, Bool-cases, All, ℕ, ◌+◌, ◌-◌, ◌≤◌, ◌≡◌, subst, inl, inr, Bool, true, false, ◌&&◌,
  some, [], ◌∷◌, arith,
}
use predigy.Core.{Action, PositionKey, position_key_eq, position_key, OrderId, Order}
use predigy.Prelude.Map.{text_key, Map, lookup, insert, remove, IsUnique}
use predigy.Risk.{AccountState, position, add_realized_pnl}
use predigy.Prelude.Word.{u32_max}
use predigy.Prelude.Text.{text_eq}
use predigy.Risk.Invariant.{position-set_position}

abbrev pub action_is : Action → Action → Bool
action_is Action.buy Action.buy = true
action_is Action.sell Action.sell = true
action_is _ _ = false

abbrev pub order_key : Order → PositionKey
order_key o = (o.market, o.side)

-- An order's filled contracts, if it has the action and the key.
abbrev pub filled_for : Action → PositionKey → OrderRecord → ℕ
filled_for a k r =
    if action_is r.order.action a && position_key_eq (order_key r.order) k
    then r.cumulative_qty
    else 0

abbrev pub filled_on : Action → PositionKey → Map OrderId OrderRecord → ℕ
filled_on a k orders = total_of (filled_for a k) orders

abbrev pub held : AccountState → PositionKey → ℕ
held s k = position s k.0 k.1

module _ {X : Type 0} (base : PositionKey → ℕ) where
  -- On every key: what is held and what was sold is what there was at first and what was bought.
  -- The orders have distinct ids, and a pending order has no fill.
  pub record IsLedger (oms : Oms X) : Type 0 where
    pub unique : IsUnique oms.orders
    pub unfilled : All (λ e. IsUnfilledPending e.1) oms.orders
    pub balanced :
        (k : PositionKey)
        → held oms.state k + filled_on Action.sell k oms.orders
          ≡ base k + filled_on Action.buy k oms.orders

-- A fill that the position can take: a buy within 32 bits, a sale of what is held.
abbrev pub FitsFill : Action → (held delta : ℕ) → Type 0
FitsFill Action.buy q f = q + f ≤ u32_max
FitsFill Action.sell q f = f ≤ q

abbrev pub if_action : Action → Action → ℕ → ℕ
if_action a b n = if action_is a b then n else 0

pub apply_fill_qty :
    (act : Action) (q a f p : ℕ)
    → FitsFill act q f
    → (apply_fill act q a f p).new_qty + if_action act Action.sell f
      ≡ q + if_action act Action.buy f
unfolding apply_fill
apply_fill_qty Action.buy q a f p h = ground arith
apply_fill_qty Action.sell q a f p h = ground arith

pub filled_for_rise :
    (a : Action) (k : PositionKey) (r r' : OrderRecord) (d : ℕ)
    → r'.order ≡ r.order
    → r'.cumulative_qty ≡ r.cumulative_qty + d
    → filled_for a k r'
      ≡ filled_for a k r
        + (if position_key_eq (order_key r.order) k then if_action r.order.action a d else 0)
filled_for_rise a k r r' d e h = ground arith

pub All-lookup :
    (cid : OrderId) (r : OrderRecord) (m : Map OrderId OrderRecord)
    → All (λ e. IsUnfilledPending e.1) m
    → lookup cid m ≡ some r
    → IsUnfilledPending r
unfolding lookup
All-lookup cid r [] a h = cc
All-lookup cid r (e ∷ m) a h = elim (Bool-cases (text_eq e.0 cid)) [
  | inl same ↦ let found : e.1 ≡ r = ground arith in subst IsUnfilledPending found a.0
  | inr other ↦ All-lookup cid r m a.1 (ground arith)
]

pub insert-unfilled :
    (cid : OrderId) (r : OrderRecord) (m : Map OrderId OrderRecord)
    → IsUnfilledPending r
    → All (λ e. IsUnfilledPending e.1) m
    → All (λ e. IsUnfilledPending e.1) (insert cid r m)
unfolding insert
insert-unfilled cid r [] h a = (h, tt)
insert-unfilled cid r (e ∷ m) h a = elim (Bool-cases (text_eq e.0 cid)) [
  | inl same ↦ rw same (h, a.1)
  | inr other ↦ rw other (a.0, insert-unfilled cid r m h a.1)
]

pub remove-unfilled :
    (cid : OrderId) (m : Map OrderId OrderRecord)
    → All (λ e. IsUnfilledPending e.1) m
    → All (λ e. IsUnfilledPending e.1) (remove cid m)
unfolding remove
remove-unfilled cid [] a = tt
remove-unfilled cid (e ∷ m) a = elim (Bool-cases (text_eq e.0 cid)) [
  | inl same ↦ rw same (remove-unfilled cid m a.1)
  | inr other ↦ rw other (a.0, remove-unfilled cid m a.1)
]

pub held-book_update :
    (s : AccountState) (o : Order) (u : PositionUpdate) (k : PositionKey)
    → held (book_update s o u) k ≡ (if position_key_eq (order_key o) k then u.new_qty else held s k)
unfolding position add_realized_pnl
held-book_update s o u k =
    ground (arith, position-set_position s o.market k.0 o.side k.1 u.new_qty u.new_avg_entry_cents)

pub delta_rise :
    (r : OrderRecord) (p c now : ℕ) (terminal : Bool)
    → (apply_record_fill r p c now terminal).1 ≡ c - r.cumulative_qty
unfolding apply_record_fill
delta_rise r p c now terminal = ground arith
