-- ===== src/Core/Fees/Bounds.antt =====
-- crates/core/src/fees.rs: the fee against the exact rate, and the bounds of its machine words.
use native.Mathlib.Nat.{mul-le-mul, mul_comm}
use predigy.Prelude.{
  leb, leb→le, Option-cases, passes_until, passes_until_lem, ℕ, ◌+◌, ◌-◌, ◌*◌, ◌≤◌, ◌<◌, ◌≡◌, refl,
  subst, inl, inr, true, Option, none, some, arith,
}
use predigy.Prelude.Word.{u32_max, sub64, mul64}
use predigy.Core.{position_key, complement, IsPrice}
use predigy.Core.Fees.{maker_numer, fee_cents, maker_fee, rated}

spread_products : passes_until (λ p. leb (p * (100 - p)) 2500) 101 ≡ true
unfolding passes_until
spread_products = refl

-- The product of a price and its complement is largest in the middle.
pub spread_product_bound : (p : ℕ) → p ≤ 100 → p * (100 - p) ≤ 2500
spread_product_bound p h =
    leb→le _ _
      (passes_until_lem (λ p. leb (p * (100 - p)) 2500) 101 p (omega arith) spread_products)

-- No intermediate product wraps.
pub rated_bound : (p q n : ℕ) → IsPrice p → rated p q n ≤ n * q * 2500
rated_bound p q n hp = mul-le-mul (omega arith) (spread_product_bound p (omega arith))

fee_num :
    (p q n : ℕ)
    → IsPrice p
    → q ≤ u32_max
    → n ≤ 700
    → mul64 (mul64 n q) (mul64 p (sub64 100 p)) ≡ rated p q n
fee_num p q n hp hq hn =
    let sub : sub64 100 p ≡ 100 - p = omega arith in
    let nq : n * q ≤ 700 * u32_max = mul-le-mul hn hq in
    let term : mul64 p (100 - p) ≡ p * (100 - p) =
      omega (arith, spread_product_bound p (omega arith)) in
    let outer : mul64 n q ≡ n * q = omega arith in
    rw (sub, term, outer) (omega (arith, rated_bound p q n hp))

-- Of what a fee call returns: the least number of cents that covers `num` millionths of a cent, or
-- a panic if that number needs more than 32 bits.
abbrev pub IsLeastCover : ℕ → Option ℕ → Type 0
IsLeastCover num none = u32_max * 1000000 < num
IsLeastCover num (some f) = (num ≤ f * 1000000) × (f * 1000000 < num + 1000000) × (f ≤ u32_max)

-- At every price and 32-bit quantity the fee is the exact product of rate, quantity, price and
-- complement in millionths of a cent, rounded up to whole cents, though the code multiplies in
-- 64-bit words; it panics exactly when the rounded fee does not fit 32 bits.
pub fee_cents-IsLeastCover :
    (p q n : ℕ) → IsPrice p → q ≤ u32_max → n ≤ 700 → IsLeastCover (rated p q n) (fee_cents p q n)
unfolding fee_cents
fee_cents-IsLeastCover p q n hp hq hn = rw (fee_num p q n hp hq hn) (ground arith)

maker_cover_absurd : (p q : ℕ) → IsPrice p → q ≤ u32_max → maker_fee p q ≡ none → ⊥
unfolding maker_fee
maker_cover_absurd p q hp hq e =
    let over : u32_max * 1000000 < rated p q maker_numer =
      subst (IsLeastCover (rated p q maker_numer)) e
        (fee_cents-IsLeastCover p q maker_numer hp hq (omega arith)) in
    omega (arith, rated_bound p q maker_numer hp)

-- A maker fee never panics: every price and 32-bit quantity has one.
pub maker_fee_total : (p q : ℕ) → IsPrice p → q ≤ u32_max → (f : ℕ) × (maker_fee p q ≡ some f)
maker_fee_total p q hp hq = elim (Option-cases (maker_fee p q)) [
  | inl e ↦ absurd (maker_cover_absurd p q hp hq e)
  | inr (f, e) ↦ (f, e)
]

-- A trade at a price costs the same fee as one at the complement, on the other side.
pub fee_cents-complement : (p q n : ℕ) → IsPrice p → fee_cents (complement p) q n ≡ fee_cents p q n
unfolding fee_cents
fee_cents-complement p q n hp =
    let c : complement p ≡ 100 - p = omega arith in
    let a : sub64 100 (complement p) ≡ p = omega arith in
    let b : sub64 100 p ≡ 100 - p = omega arith in rw (a, b, c, mul_comm (100 - p) p)
