-- ===== src/Core/Prices.antt =====
-- crates/core/src/price.rs: prices in whole cents and quantities. A price is a `u8` and a quantity a
-- `u32`; the formatting and the conversion to dollars are left out.
use predigy.Prelude.{leb, ◌==◌, if◌then◌else◌, ℕ, ◌+◌, ◌-◌, ◌%◌, ◌≤◌, ◌≡◌, ◌↔◌, ◌&&◌, arith}
use predigy.Prelude.Result.{Result, ok, err}

abbrev pub Price : Type 0
Price = ℕ

-- `PriceOutOfRange` carries the refused number of cents.
pub record PriceOutOfRange : Type 0 where
  pub cents : ℕ

pub data QtyZero : Type 0 where
  qty_zero : QtyZero

unfoldable pub from_cents : ℕ → Result Price PriceOutOfRange
from_cents cents = if leb 1 cents && leb cents 99 then ok cents else err (record { cents = cents })

-- `100 - self.0` on a `u8`, which wraps.
abbrev pub complement : Price → Price
complement p = (100 + 256 - p) % 256

abbrev pub Qty : Type 0
Qty = ℕ

unfoldable pub qty_new : ℕ → Result Qty QtyZero
qty_new n = if n == 0 then err qty_zero else ok n

-- What `Price::from_cents` guarantees: 1 to 99 cents.
pub record IsPrice (p : Price) : Type 0 where
  pub at_least : 1 ≤ p
  pub at_most : p ≤ 99

-- What `Qty::new` guarantees of a `u32`.
pub record IsQty (q : Qty) : Type 0 where
  pub positive : 1 ≤ q
  pub fits : q ≤ 4294967295

-- The complement of a price is a price, and taking it twice gives the price back.
pub complement-IsPrice :
    (p : Price) → IsPrice p → IsPrice (complement p) × (complement (complement p) ≡ p)
complement-IsPrice p h = ground arith

-- `from_cents` succeeds exactly on the prices, and returns its argument.
pub from_cents_iff : (c : ℕ) → (from_cents c ≡ ok c) ↔ IsPrice c
unfolding from_cents
from_cents_iff c = ground arith
