-- ===== src/Oms/FillLaws.antt =====
-- crates/oms/src/position_math.rs: the booked cost of a position under fills.
use native.Mathlib.Nat.{
  div-lt_iff_lt-mul, le-div_iff_mul-le, mul-div-le, lt-mul-div-succ, mul-le-mul_left, mul-add,
}
use predigy.Prelude.{
  ◌==◌, if◌then◌else◌, ℕ, zero, suc, ◌+◌, ◌-◌, ◌*◌, ◌/◌, ◌≤◌, ◌<◌, min, max, ◌≡◌, refl, ap, arith,
}
use predigy.Core.{Action, position_key}
use predigy.Prelude.Map.{text_key}
use predigy.Prelude.Word.{u16_max, u32_max, saturating_add32}
use predigy.Prelude.Int.{
  pos_part, neg_part, ◌+ℤ◌, ◌-ℤ◌, ◌*ℤ◌, +ℤ_parts, -ℤ_parts, eq_of_parts, *ℤ_pos_parts, pos,
}
use predigy.Oms.{apply_fill}

-- Rounding to the nearest: twice the error is at most the divisor.
abbrev pub IsNearest : (total qty avg : ℕ) → Type 0
IsNearest total qty avg = (2 * (qty * avg) ≤ 2 * total + qty) × (2 * total ≤ 2 * (qty * avg) + qty)

round-IsNearest : (total qty : ℕ) → 0 < qty → IsNearest total qty ((total + qty / 2) / qty)
round-IsNearest total qty h =
    let low = mul-div-le (total + qty / 2) qty in
    let high = lt-mul-div-succ (total + qty / 2) h in
    let step = mul-add qty ((total + qty / 2) / qty) 1 in (omega arith, omega arith)

-- The nearest value to an average of values at most `hi` is at most `hi`.
round_upper : (total qty hi : ℕ) → 0 < qty → total ≤ qty * hi → (total + qty / 2) / qty ≤ hi
round_upper total qty hi h b =
    let below : (total + qty / 2) / qty < hi + 1 = (div-lt_iff_lt-mul h).1 (omega arith) in
    omega arith

round_lower : (total qty lo : ℕ) → 0 < qty → qty * lo ≤ total → lo ≤ (total + qty / 2) / qty
round_lower total qty lo h b = (le-div_iff_mul-le h).1 (omega arith)

-- A buy of some contracts, by the words of the code; no sum passes 32 bits.
module _ (q a f p : ℕ) (some_fill : 0 < f) (fits : q + f ≤ u32_max) (entry : a ≤ u16_max)
    (price : p ≤ u16_max) where
  abbrev bought_total : ℕ
  bought_total = q * a + f * p

  abbrev bought_avg : ℕ
  bought_avg = (bought_total + (q + f) / 2) / (q + f)

  total_upper : (hi : ℕ) → a ≤ hi → p ≤ hi → bought_total ≤ (q + f) * hi
  total_upper hi ha hp = omega (arith, mul-le-mul_left q ha, mul-le-mul_left f hp)

  total_lower : (lo : ℕ) → lo ≤ a → lo ≤ p → (q + f) * lo ≤ bought_total
  total_lower lo ha hp = omega (arith, mul-le-mul_left q ha, mul-le-mul_left f hp)

  avg_fits : bought_avg ≤ u16_max
  avg_fits =
      round_upper bought_total (q + f) u16_max (omega arith) (total_upper u16_max entry price)

  bought : apply_fill Action.buy q a f p ≡ record {
    new_qty = q + f;
    new_avg_entry_cents = bought_avg;
    realized_pnl_delta_cents = pos 0;
  }
  unfolding apply_fill
  bought = let sum : saturating_add32 q f ≡ q + f = omega arith in rw sum (ground (arith, avg_fits))

-- A buy that fits 32 bits adds its contracts, realises nothing and books the average cost of all
-- contracts rounded to the nearest cent, which lies between the old entry price and the fill price.
pub apply_fill-buy :
    (q a f p : ℕ)
    → 0 < f
    → q + f ≤ u32_max
    → a ≤ u16_max
    → p ≤ u16_max
    → let u = apply_fill Action.buy q a f p in
      (u.new_qty ≡ q + f)
      × IsNearest (q * a + f * p) (q + f) u.new_avg_entry_cents
      × (min a p ≤ u.new_avg_entry_cents)
      × (u.new_avg_entry_cents ≤ max a p)
      × (u.realized_pnl_delta_cents ≡ pos 0)
apply_fill-buy q a f p hf fits ha hp = rw (bought q a f p hf fits ha hp) (
  refl,
  round-IsNearest (q * a + f * p) (q + f) (omega arith),
  round_lower (q * a + f * p) (q + f) (min a p) (omega arith)
      (total_lower q a f p hf fits ha hp (min a p) (omega arith) (omega arith)),
  round_upper (q * a + f * p) (q + f) (max a p) (omega arith)
      (total_upper q a f p hf fits ha hp (max a p) (omega arith) (omega arith)),
  refl,
)

sold_avg : (n a : ℕ) → n * (if n == 0 then 0 else a) ≡ n * a
sold_avg zero a = omega arith
sold_avg (suc n) a = ground arith

realized_parts :
    (a p c : ℕ)
    → pos_part ((pos p -ℤ pos a) *ℤ pos c) + a * c ≡ neg_part ((pos p -ℤ pos a) *ℤ pos c) + p * c
realized_parts a p c =
    let d = pos p -ℤ pos a in
    let gap : pos_part d + a ≡ neg_part d + p = omega (arith, -ℤ_parts (pos p) (pos a)) in
    omega (arith, *ℤ_pos_parts d c, ap (λ (t : ℕ). t * c) gap)

sold :
    (q a f p : ℕ)
    → 0 < f
    → 0 < q
    → apply_fill Action.sell q a f p ≡ record {
      new_qty = q - min f q;
      new_avg_entry_cents = if q - min f q == 0 then 0 else a;
      realized_pnl_delta_cents = (pos p -ℤ pos a) *ℤ pos (min f q);
    }
unfolding apply_fill
sold q a f p hf hq = ground arith

-- A sale closes at most what is held and keeps the entry price of the rest, and its result is
-- exactly what was received less the booked cost of what was closed: old cost and result make up
-- the remaining cost and the proceeds.
pub apply_fill-sell :
    (q a f p : ℕ)
    → 0 < f
    → 0 < q
    → let u = apply_fill Action.sell q a f p in
      (u.new_qty + min f q ≡ q)
      × (u.new_qty * u.new_avg_entry_cents ≡ u.new_qty * a)
      × (pos (q * a) +ℤ u.realized_pnl_delta_cents
          ≡ pos (u.new_qty * u.new_avg_entry_cents + min f q * p))
apply_fill-sell q a f p hf hq =
    let c = min f q in
    let n = q - c in
    let r = (pos p -ℤ pos a) *ℤ pos c in
    let split : q ≡ n + c = omega arith in
    rw (sold q a f p hf hq) (
      omega arith,
      sold_avg n a,
      eq_of_parts (pos (q * a) +ℤ r) (pos (n * (if n == 0 then 0 else a) + c * p)) (
          omega (
            arith,
            +ℤ_parts (pos (q * a)) r,
            realized_parts a p c,
            sold_avg n a,
            ap (λ (t : ℕ). t * a) split,
          )),
    )
