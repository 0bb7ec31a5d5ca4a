-- ===== src/Core/Tests.antt =====
-- Runs of crates/core at fixed inputs.
use predigy.Prelude.{◌≡◌, refl, none, some, arith}
use predigy.Core.Fees.{fee_cents, taker_fee, rated}
use predigy.Core.Fees.Bounds.{IsLeastCover, fee_cents-IsLeastCover}
use predigy.Core.{position_key}

taker_at_half : taker_fee 50 100 ≡ some 175
unfolding taker_fee
taker_at_half = refl

fee_cents-IsLeastCover_example : IsLeastCover (rated 33 7 700) (fee_cents 33 7 700)
fee_cents-IsLeastCover_example =
    fee_cents-IsLeastCover 33 7 700 (record { at_least = omega arith; at_most = omega arith })
      (omega arith) (omega arith)

-- The least quantity at 50 cents whose taker fee does not fit.
taker_fee_fits : taker_fee 50 2454267025 ≡ some 4294967294
unfolding taker_fee fee_cents
taker_fee_fits = refl

taker_fee_panics : taker_fee 50 2454267026 ≡ none
unfolding taker_fee fee_cents
taker_fee_panics = refl
