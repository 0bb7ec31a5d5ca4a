-- ===== src/Core/Fees.antt =====
-- crates/core/src/fees.rs: the fee schedule in integer cents. `none` is the panic of
-- `expect("fee fits in u32")`.
pub mod Bounds
use predigy.Prelude.{leb, if◌then◌else◌, ℕ, ◌-◌, ◌*◌, Option, none, some}
use predigy.Prelude.Word.{u32_max, sub64, mul64, div_ceil}
use predigy.Core.{Price, Qty}

abbrev pub taker_numer : ℕ
taker_numer = 700

abbrev pub maker_numer : ℕ
maker_numer = 175

unfoldable pub fee_cents : Price → Qty → ℕ → Option ℕ
fee_cents price qty numer_x10k =
    let term = mul64 price (sub64 100 price) in
    let num = mul64 (mul64 numer_x10k qty) term in
    let fee_c = div_ceil num 1000000 in if leb fee_c u32_max then some fee_c else none

unfoldable pub taker_fee : Price → Qty → Option ℕ
unfolding fee_cents
taker_fee price qty = fee_cents price qty taker_numer

unfoldable pub maker_fee : Price → Qty → Option ℕ
unfolding fee_cents
maker_fee price qty = fee_cents price qty maker_numer

-- The fee formula without a machine word: the least number of cents that covers the rate.
abbrev pub rated : Price → Qty → ℕ → ℕ
rated price qty numer_x10k = numer_x10k * qty * (price * (100 - price))
