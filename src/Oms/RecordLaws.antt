-- ===== src/Oms/RecordLaws.antt =====
-- crates/oms/src/record.rs: the fills of one order, and its state.
use native.Mathlib.Nat.{div-le_of_le-mul, mul-le-mul_left}
use predigy.Oms.{OrderRecord, new_record, one_if_positive, apply_record_fill, mark_acked}
use predigy.Prelude.{
  leb, Bool-cases, ℕ, zero, suc, ◌+◌, ◌-◌, ◌*◌, ◌/◌, ◌≤◌, max, ◌≡◌, refl, ap, ◌∙◌, inl, inr, Bool,
  true, false, List, [], ◌∷◌, arith,
}
use predigy.Core.{position_key, Price, Order, OrderState}
use predigy.Prelude.Map.{text_key}
use predigy.Prelude.Text.{Text}

abbrev pub is_pending : OrderState → Bool
is_pending OrderState.pending = true
is_pending _ = false

-- A pending order has no fill.
abbrev pub IsUnfilledPending : OrderRecord → Type 0
IsUnfilledPending r = is_pending r.state ≡ true → r.cumulative_qty ≡ 0

pub new_record-IsUnfilledPending : (o : Order) (now : ℕ) → IsUnfilledPending (new_record o now)
unfolding new_record
new_record-IsUnfilledPending o now h = refl

pub mark_acked-IsUnfilledPending :
    (r : OrderRecord) (v : Text) (now : ℕ)
    → IsUnfilledPending r
    → IsUnfilledPending (mark_acked r v now)
unfolding mark_acked
mark_acked-IsUnfilledPending r v now u h = ground arith

pub apply_record_fill-IsUnfilledPending :
    (r : OrderRecord) (p c now : ℕ) (terminal : Bool)
    → IsUnfilledPending r
    → IsUnfilledPending (apply_record_fill r p c now terminal).0
unfolding apply_record_fill
apply_record_fill-IsUnfilledPending r p c now terminal u h = ground arith

-- Of one report: the newly filled quantity is what the cumulative quantity rose by. A report that
-- is not above the record changes nothing and fills nothing.
pub apply_record_fill_delta :
    (r : OrderRecord) (p c now : ℕ) (terminal : Bool)
    → let (r', delta) = apply_record_fill r p c now terminal in
      (r'.cumulative_qty ≡ r.cumulative_qty + delta)
      × (r'.cumulative_qty ≡ max r.cumulative_qty c)
      × (r'.order ≡ r.order)
      × (c ≤ r.cumulative_qty → (r' ≡ r) × (delta ≡ 0))
unfolding apply_record_fill
apply_record_fill_delta r p c now terminal = ground arith

-- The reports on one order, with the deltas that the caller feeds to the position.
pub record FillReport : Type 0 where
  pub price : Price
  pub cumulative : ℕ
  pub now : ℕ
  pub terminal : Bool

unfoldable pub record_fills : OrderRecord → List FillReport → OrderRecord × ℕ
record_fills r [] = (r, 0)
record_fills r (f ∷ fs) =
    let (r', delta) = apply_record_fill r f.price f.cumulative f.now f.terminal in
    let (r'', rest) = record_fills r' fs in (r'', delta + rest)

abbrev pub highest : ℕ → List FillReport → ℕ
highest c [] = c
highest c (f ∷ fs) = highest (max c f.cumulative) fs

-- Whatever the order of the reports, repeated, stale or fresh: the deltas add up to the rise of the
-- cumulative quantity, which ends at the highest that was reported, so no fill is booked twice.
pub record_fills_total :
    (r : OrderRecord) (fs : List FillReport)
    → let (r', total) = record_fills r fs in
      (r'.cumulative_qty ≡ r.cumulative_qty + total)
      × (r'.cumulative_qty ≡ highest r.cumulative_qty fs)
unfolding record_fills
record_fills_total r [] = (omega arith, refl)
record_fills_total r (f ∷ fs) =
    let (r', delta) = apply_record_fill r f.price f.cumulative f.now f.terminal in
    let step = apply_record_fill_delta r f.price f.cumulative f.now f.terminal in
    let ih = record_fills_total r' fs in
    (omega (arith, ih.0, step.0), ih.1 ∙ ap (λ (t : ℕ). highest t fs) step.1)

one_if_positive_mul : (n : ℕ) → one_if_positive n * n ≡ n
one_if_positive_mul zero = refl
one_if_positive_mul (suc n) = ground arith

blend_le :
    (old c a p hi : ℕ)
    → old ≤ c
    → a ≤ hi
    → p ≤ hi
    → (one_if_positive old * old * a + (c - old) * p) / c ≤ hi
blend_le old c a p hi h ha hp =
    let whole : old + (c - old) ≡ c = omega arith in
    rw (one_if_positive_mul old) (
      div-le_of_le-mul c (
        omega (
          arith,
          mul-le-mul_left old ha,
          mul-le-mul_left (c - old) hp,
          ap (λ (t : ℕ). t * hi) whole,
        )))

-- The average fill price never passes a bound on all prices.
pub apply_record_fill_avg :
    (r : OrderRecord) (p c now hi : ℕ) (terminal : Bool)
    → r.avg_fill_price_cents ≤ hi
    → p ≤ hi
    → (apply_record_fill r p c now terminal).0.avg_fill_price_cents ≤ hi
unfolding apply_record_fill
apply_record_fill_avg r p c now hi terminal ha hp = elim (Bool-cases (leb c r.cumulative_qty)) [
  | inl stale ↦ rw stale ha
  | inr fresh ↦
      rw fresh (
        omega (arith, blend_le r.cumulative_qty c r.avg_fill_price_cents p hi (ground arith) ha hp))
]
